-- ===== src/Compactor/Tests.antt =====
-- Tests of Compactor, and its theorem at a concrete input.
use cdk_log_to_s.Prelude.{
  Text, codes, Bool, true, false, List, [], ◌∷◌, ◌++◌, Option, none, some, ◌≡◌, refl, text_eq,
  starts_with, drop_while_end,
}
use Prim.Native.String.{String}
use cdk_log_to_s.Prelude.{length, ◌≤◌, ◌⊎◌}
use cdk_log_to_s.Compactor.{
  Entry, Config, select_sources, candidates, is_candidate, path_base, sort, insert, capped, text_lt,
  entry_less, digest, digest_input,
}
use cdk_log_to_s.Compactor.Bucket.{find, mem, assign, remove, listing}
use cdk_log_to_s.Compactor.Bucket.Rows.{count, table}
use cdk_log_to_s.Compactor.Run.{
  PartitionResult, compact_partition, finish_interrupted_runs, finish_loop, finish_run,
  delete_stale, stale_of, list_again, merge_or_skip, merge_sources, read_sources, write_output,
  replace_sources, manifest_of, manifest_key_of, total_size, skipped_result, keys_of, output_key_of,
  is_manifest,
}
use cdk_log_to_s.Compactor.Store.{
  bind, continue, delete_keys, delete_loop, delete_batch, list_objects, get_object, put_object,
}
use cdk_log_to_s.Layout.{hex_encode, hex_digit}
use cdk_log_to_s.Go.Strings.{has_suffix, trim_right}
use cdk_log_to_s.Integ.Keys.{after_last_slash}
use cdk_log_to_s.Prelude.{number_text, digits_fuel}
use cdk_log_to_s.Compactor.Run.Bounds.{select_sources_bounds}
use cdk_log_to_s.Compactor.Run.Safety.{compact_partition-crash_safe}
use cdk_log_to_s.Compactor.Run.States.{IsClean, Merged, after, output}
use cdk_log_to_s.Compactor.Sample.{
  sample_tools, sample_tools-Lawful, scripted, scripted-Lawful, Scripted, next, rest_of,
  put_manifest, get_manifest, outputs_of, get_rows, get_entries, get_entry, put_entries, put_entry,
  put_texts, get_texts,
}

abbrev row : String → Entry
row t = record {
  timestamp = codes t;
  level = codes "INFO";
  source = [];
  correlation_id = [];
  request_id = [];
  message = codes "m";
  function_name = codes "f";
  context = none;
  stack_trace = none;
  caller = some (codes "c");
}

abbrev cfg : Config
cfg = record {
  bucket = codes "b";
  prefix = codes "logs/";
  compression = codes "snappy";
  min_files = 2;
  max_files = 10;
  max_bytes = 1000000;
  lookback_days = 2;
  region = [];
  debug = false;
}

abbrev folder : Text
folder = codes "logs/2026/08/31"

abbrev file : String → List Entry → Text × Text
file name entries = (folder ++ (codes "/" ++ codes name), 1 ∷ put_entries entries)

-- Two files with a row each; the deletion of the sources is the sixth call, and dies half way.
abbrev start : Scripted
start = record {
  bucket = file "b.parquet" (row "2" ∷ []) ∷ file "a.parquet" (row "1" ∷ []) ∷ [];
  answers = true ∷ true ∷ true ∷ true ∷ true ∷ false ∷ [];
}

abbrev first : Option PartitionResult × Scripted
first = compact_partition scripted sample_tools cfg (folder ++ codes "/") start

abbrev second : Option PartitionResult × Scripted
second = compact_partition scripted sample_tools cfg (folder ++ codes "/") first.1

-- The second run finds the manifest, deletes the source that is left, and has nothing to merge.
abbrev outcome : PartitionResult
outcome = record {
  partition = folder ++ codes "/";
  source_files = 0;
  source_bytes = 0;
  output_key = [];
  output_bytes = 0;
  rows = 0;
  recovered_runs = 1;
  skipped = true;
  skipped_because = codes "only 0 source files, minimum is 2";
}

first_dies : first.0 ≡ none
unfolding compact_partition finish_interrupted_runs finish_loop finish_run delete_stale stale_of
    list_again merge_or_skip merge_sources read_sources write_output replace_sources manifest_of
    manifest_key_of bind continue delete_keys delete_loop delete_batch list_objects get_object
    put_object listing total_size entry_less skipped_result number_text digits_fuel next rest_of
    put_manifest get_manifest outputs_of get_rows get_entries get_entry put_entries put_entry
    put_texts get_texts path_base candidates is_candidate select_sources sort insert capped text_lt
    digest digest_input hex_encode hex_digit has_suffix trim_right drop_while_end after_last_slash
    starts_with text_eq find mem remove assign keys_of output_key_of is_manifest
first_dies = refl

second_returns : second.0 ≡ some outcome
unfolding compact_partition finish_interrupted_runs finish_loop finish_run delete_stale stale_of
    list_again merge_or_skip merge_sources read_sources write_output replace_sources manifest_of
    manifest_key_of bind continue delete_keys delete_loop delete_batch list_objects get_object
    put_object listing total_size entry_less skipped_result number_text digits_fuel next rest_of
    put_manifest get_manifest outputs_of get_rows get_entries get_entry put_entries put_entry
    put_texts get_texts path_base candidates is_candidate select_sources sort insert capped text_lt
    digest digest_input hex_encode hex_digit has_suffix trim_right drop_while_end after_last_slash
    starts_with text_eq find mem remove assign keys_of output_key_of is_manifest
second_returns = refl

start-IsClean : IsClean sample_tools cfg folder start.bucket
unfolding listing path_base candidates is_candidate select_sources sort insert capped text_lt digest
    digest_input hex_encode hex_digit has_suffix trim_right drop_while_end after_last_slash
    starts_with text_eq find mem remove assign keys_of output_key_of is_manifest
start-IsClean = record { unique = (refl, (refl, tt)); plain = (refl, (refl, tt)); fresh = refl }

start-fresh :
    (merged : Text)
    → Merged sample_tools cfg folder start.bucket merged
    → find
        (output sample_tools cfg folder (after sample_tools cfg folder start.bucket merged))
        (after sample_tools cfg folder start.bucket merged)
      ≡ none
unfolding listing path_base candidates is_candidate select_sources sort insert capped text_lt digest
    digest_input hex_encode hex_digit has_suffix trim_right drop_while_end after_last_slash
    starts_with text_eq find mem remove assign keys_of output_key_of is_manifest put_entries
    put_entry
start-fresh merged m = refl

-- The row of the file that the first run deleted, and no other.
abbrev is_first : Entry → Bool
is_first e = text_eq e.timestamp (codes "1")

compact_partition-crash_safe_example :
    count is_first (table sample_tools second.1.bucket)
    ≡ count is_first (table sample_tools start.bucket)
unfolding scripted-Lawful
compact_partition-crash_safe_example =
    compact_partition-crash_safe scripted scripted-Lawful sample_tools sample_tools-Lawful cfg
      folder start outcome start-IsClean start-fresh second_returns is_first

select_sources_bounds_example :
    (length (select_sources (listing folder start.bucket) cfg) ≤ 10)
    × ((total_size (select_sources (listing folder start.bucket) cfg) ≤ 1000000)
        ⊎ (length (select_sources (listing folder start.bucket) cfg) ≤ 1))
select_sources_bounds_example = select_sources_bounds (listing folder start.bucket) cfg
