-- ===== src/Compactor/Run.antt =====
-- extension-go/compactor/compact.go: one run over a partition.
pub mod Names
pub mod Selection
pub mod Order
pub mod States
pub mod Merge
pub mod Recover
pub mod Stale
pub mod Bounds
pub mod Interrupted
pub mod Safety
use cdk_log_to_s.Prelude.{
  ℕ, zero, suc, ◌+◌, Text, codes, number_text, Bool, true, false, ◌&&◌, if◌then◌else◌, List, [],
  ◌∷◌, ◌++◌, map, length, Option, none, some, ltb,
}
use cdk_log_to_s.Go.Strings.{has_prefix, has_suffix}
use cdk_log_to_s.Compactor.{
  Entry, Manifest, Tools, Config, Object, path_base, compacted_prefix, manifest_prefix,
  manifest_suffix, select_sources, sort, entry_less, digest,
}
use cdk_log_to_s.Compactor.Bucket.{mem}
use cdk_log_to_s.Compactor.Store.{
  S3, M, pure, fail, bind, list_objects, get_object, put_object, delete_keys,
}

pub record PartitionResult : Type 0 where
  pub partition : Text
  pub source_files : ℕ
  pub source_bytes : ℕ
  pub output_key : Text
  pub output_bytes : ℕ
  pub rows : ℕ
  pub recovered_runs : ℕ
  pub skipped : Bool
  pub skipped_because : Text

-- The test of the names in `finishInterruptedRuns`.
unfoldable pub is_manifest : Text → Bool
is_manifest key =
    let base = path_base key in has_prefix base manifest_prefix && has_suffix base manifest_suffix

unfoldable pub keys_of : List Object → List Text
keys_of [] = []
keys_of (o ∷ objects) = o.key ∷ keys_of objects

unfoldable pub stale_of : List Text → List Text → List Text
stale_of present [] = []
stale_of present (source ∷ sources) =
    let rest = stale_of present sources in if mem source present then source ∷ rest else rest

unfoldable pub total_size : List Object → ℕ
total_size [] = 0
total_size (o ∷ objects) = o.size + total_size objects

unfoldable pub output_key_of : Tools → Text → List Text → Text
output_key_of tools partition keys =
    partition ++ (compacted_prefix ++ (digest tools keys ++ codes ".parquet"))

unfoldable pub manifest_key_of : Tools → Text → List Text → Text
manifest_key_of tools partition keys =
    partition ++ (manifest_prefix ++ (digest tools keys ++ manifest_suffix))

unfoldable pub manifest_of : Tools → List Text → Text → Manifest
manifest_of tools keys output = record {
  sources = keys;
  outputs = output ∷ [];
  written = tools.now;
}

module _ (s3 : S3) (tools : Tools) where
  -- `if len(stale) > 0 { store.Delete(ctx, stale) }`
  unfoldable pub delete_stale : List Text → M s3 (Unit {0})
  delete_stale [] = pure s3 tt
  delete_stale (k ∷ stale) = delete_keys s3 (k ∷ stale)

  -- The deletions for one manifest that could be read.
  unfoldable pub finish_run : List Text → Text → Manifest → M s3 (Unit {0})
  unfolding delete_stale stale_of
  finish_run present key m =
      bind s3 (delete_stale (stale_of present m.sources)) (λ _. delete_keys s3 (key ∷ []))

  unfoldable pub finish_loop : List Text → List Object → ℕ → M s3 ℕ
  finish_loop present [] count = pure s3 count
  finish_loop present (o ∷ objects) count =
      let next = finish_loop present objects count in
      let again = finish_loop present objects (count + 1) in
      if is_manifest o.key
      then bind s3 (get_object s3 o.key) (λ body. elim (tools.unmarshal body) [
        | none ↦ next
        | some m ↦ bind s3 (finish_run present o.key m) (λ _. again)
      ])
      else next

  unfoldable pub finish_interrupted_runs : List Object → M s3 ℕ
  unfolding finish_loop keys_of
  finish_interrupted_runs objects = finish_loop (keys_of objects) objects 0

  -- The rows of the sources, one after the other.
  unfoldable pub read_sources : List Text → M s3 (List Entry)
  read_sources [] = pure s3 []
  read_sources (key ∷ keys) = bind s3 (get_object s3 key) (λ body. elim (tools.read body) [
    | none ↦ fail s3
    | some rows ↦ bind s3 (read_sources keys) (λ more. pure s3 (rows ++ more))
  ])

  -- The four calls that change the bucket.
  unfoldable pub replace_sources : Text → List Text → Text → Text → M s3 (Unit {0})
  unfolding output_key_of manifest_key_of
  replace_sources partition keys merged body =
      bind s3 (put_object s3 (output_key_of tools partition keys) merged) (λ _.
        bind s3 (put_object s3 (manifest_key_of tools partition keys) body) (λ _.
          bind s3 (delete_keys s3 keys)
            (λ _. delete_keys s3 (manifest_key_of tools partition keys ∷ []))))

  -- `json.Marshal` stands behind the first of these calls; with `none` only that one is made.
  unfoldable pub write_output : Text → List Text → Text → M s3 (Unit {0})
  unfolding replace_sources manifest_of output_key_of
  write_output partition keys merged =
      elim (tools.marshal (manifest_of tools keys (output_key_of tools partition keys))) [
        | none ↦ bind s3 (put_object s3 (output_key_of tools partition keys) merged) (λ _. fail s3)
        | some body ↦ replace_sources partition keys merged body
      ]

  unfoldable pub merge_sources : Config → Text → ℕ → List Object → M s3 PartitionResult
  unfolding read_sources write_output keys_of total_size output_key_of
  merge_sources cfg partition recovered sources =
      let keys = keys_of sources in
      bind s3 (read_sources keys) (λ entries.
        elim (tools.write (sort entry_less entries) cfg.compression) [
          | none ↦ fail s3
          | some merged ↦ bind s3 (write_output partition keys merged) (λ _. pure s3 (record {
            partition = partition;
            source_files = length sources;
            source_bytes = total_size sources;
            output_key = output_key_of tools partition keys;
            output_bytes = length merged;
            rows = length entries;
            recovered_runs = recovered;
            skipped = false;
            skipped_because = [];
          }))
        ])

  unfoldable pub skipped_result : Config → Text → ℕ → List Object → PartitionResult
  skipped_result cfg partition recovered sources = record {
    partition = partition;
    source_files = length sources;
    source_bytes = total_size sources;
    output_key = [];
    output_bytes = 0;
    rows = 0;
    recovered_runs = recovered;
    skipped = true;
    skipped_because =
        codes "only "
        ++ (number_text (length sources)
            ++ (codes " source files, minimum is " ++ number_text cfg.min_files));
  }

  unfoldable pub merge_or_skip : Config → Text → ℕ → List Object → M s3 PartitionResult
  unfolding merge_sources skipped_result
  merge_or_skip cfg partition recovered sources =
      if ltb (length sources) cfg.min_files
      then pure s3 (skipped_result cfg partition recovered sources)
      else merge_sources cfg partition recovered sources

  -- The listing after the recovery: a new one if a run was recovered.
  unfoldable pub list_again : Text → List Object → ℕ → M s3 (List Object)
  list_again partition objects zero = pure s3 objects
  list_again partition objects (suc n) = list_objects s3 partition

  unfoldable pub compact_partition : Config → Text → M s3 PartitionResult
  compact_partition cfg partition = bind s3 (list_objects s3 partition) (λ objects.
      bind s3 (finish_interrupted_runs objects) (λ recovered.
        bind s3 (list_again partition objects recovered)
          (λ current. merge_or_skip cfg partition recovered (select_sources current cfg))))
