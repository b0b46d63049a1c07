-- ===== src/Compactor/Run/Merge.antt =====
-- A run over a partition in which no manifest is left: how it ends.
use cdk_log_to_s.Prelude.{
  ℕ, Text, true, false, ltb, length, List, [], ◌∷◌, ◌++◌, Option, none, some, ◌≡◌, refl, sym, ap,
  ◌∙◌, Bool-cases, inl, inr, ◌⊎◌,
}
use mathlib.Core.Path.{subst}
use cdk_log_to_s.Compactor.{Tools, Config, Entry, sort, entry_less}
use cdk_log_to_s.Compactor.Bucket.{Bucket, find, assign, remove}
use cdk_log_to_s.Compactor.Bucket.Laws.{remove-nil}
use cdk_log_to_s.Compactor.Bucket.Rows.{gathered, gathered-append, both, read_body}
use cdk_log_to_s.Compactor.Store.{S3, Lawful, M, pure, fail, bind, put_object, delete_keys}
use cdk_log_to_s.Compactor.Store.Laws.{
  Ends, Ends-bind, Ends-mono, get_object-Ends, put_object-Ends, delete_keys-Ends,
}
use cdk_log_to_s.Compactor.Run.{
  PartitionResult, manifest_of, read_sources, replace_sources, write_output, merge_sources,
  merge_or_skip,
}
use cdk_log_to_s.Compactor.Run.States.{
  partition, sources, keys, output, manifest, IsClean, Merged, after, between, IsBody, AreSources,
  none_gone, Interrupted, untouched, written, listed, output-mem, assign-output,
  assign-output_again, assign-manifest, remove-between, remove-manifest_done, Interrupted-manifest,
}

module _ (s3 : S3) (laws : Lawful s3) (tools : Tools) where
  open laws use {contents}

  read-step :
      (k : Text) (rest : List Text) (s : Bucket) (b : Text) (w : s3.World) (o : Option (List Entry))
      (next : M s3 (List Entry))
      → tools.read b ≡ o
      → find k s ≡ some b
      → contents w ≡ s
      → Ends s3 laws (λ es u. (u ≡ s) × (gathered tools rest s ≡ some es)) (λ u. u ≡ s) (next w)
      → Ends s3 laws
          (λ es u. (u ≡ s) × (gathered tools (k ∷ rest) s ≡ some es))
          (λ u. u ≡ s)
          ((elim o as (λ _. M s3 (List Entry)) [
            | none ↦ fail s3
            | some rows ↦ bind s3 next (λ more. pure s3 (rows ++ more))
          ])
            w)
  unfolding gathered both read_body
  read-step k rest s b w none next r f e h = record { holds = e }
  read-step k rest s b w (some rows) next r f e h =
      Ends-bind s3 laws _ _ _ h (λ u g. g) (λ more v g. record { holds = (g.0, rw (f, r, g.1)) })

  pub read_sources-Ends :
      (ks : List Text) (w : s3.World) (s : Bucket)
      → contents w ≡ s
      → Ends s3 laws
          (λ es u. (u ≡ s) × (gathered tools ks s ≡ some es))
          (λ u. u ≡ s)
          (read_sources s3 tools ks w)
  unfolding read_sources gathered
  read_sources-Ends [] w s e = record { holds = (e, refl) }
  read_sources-Ends (k ∷ rest) w s e =
      Ends-bind s3 laws _ _ _ (get_object-Ends s3 laws k w s e) (λ u g. g)
        (λ b v g.
          read-step k rest s b v (tools.read b) (read_sources s3 tools rest) refl g.1 g.0
            (read_sources-Ends rest v s g.0))

module _ (s3 : S3) (laws : Lawful s3) (tools : Tools) (cfg : Config) (d : Text) (t : Bucket)
    (clean : IsClean tools cfg d t) where
  open laws use {contents}

  -- No manifest is there; the output of an earlier run may be.
  abbrev pub IsReady : Bucket → Type 0
  IsReady s =
      (s ≡ t)
      ⊎ ((old : Text) × Merged tools cfg d t old × (s ≡ t ++ (output tools cfg d t, old) ∷ []))

  pub IsReady-Interrupted : (s : Bucket) → IsReady s → Interrupted tools cfg d t s
  IsReady-Interrupted s (inl e) = untouched e
  IsReady-Interrupted s (inr (old, m, e)) = written old m e

  assign-ready :
      (merged : Text) (s : Bucket)
      → IsReady s
      → assign (output tools cfg d t) merged s ≡ t ++ (output tools cfg d t, merged) ∷ []
  assign-ready merged s (inl e) =
      ap (assign (output tools cfg d t) merged) e ∙ assign-output tools cfg d t clean merged
  assign-ready merged s (inr (old, m, e)) =
      ap (assign (output tools cfg d t) merged) e
      ∙ assign-output_again tools cfg d t clean merged old

  put_output-Ends :
      (merged : Text) (w : s3.World) (s : Bucket)
      → IsReady s
      → Merged tools cfg d t merged
      → contents w ≡ s
      → Ends s3 laws
          (λ _ u. u ≡ t ++ (output tools cfg d t, merged) ∷ [])
          (Interrupted tools cfg d t)
          (put_object s3 (output tools cfg d t) merged w)
  put_output-Ends merged w s r m e =
      Ends-mono s3 laws (put_object-Ends s3 laws (output tools cfg d t) merged w s e)
        (λ u h. elim h [
          | inl same ↦ subst (Interrupted tools cfg d t) (sym same) (IsReady-Interrupted s r)
          | inr new ↦ written merged m (new ∙ assign-ready merged s r)
        ])
        (λ _ u h. h ∙ assign-ready merged s r)

  put_manifest-Ends :
      (merged body : Text) (w : s3.World)
      → Merged tools cfg d t merged
      → IsBody tools cfg d t body
      → contents w ≡ t ++ (output tools cfg d t, merged) ∷ []
      → Ends s3 laws
          (λ _ u. u ≡ between tools cfg d t merged body [])
          (Interrupted tools cfg d t)
          (put_object s3 (manifest tools cfg d t) body w)
  put_manifest-Ends merged body w m b e =
      let new = assign-manifest tools cfg d t clean merged body in
      Ends-mono s3 laws (put_object-Ends s3 laws (manifest tools cfg d t) body w _ e)
        (λ u h. elim h [
          | inl same ↦ written merged m same
          | inr k ↦ listed merged body [] m b (none_gone tools cfg d t) (k ∙ new)
        ])
        (λ _ u h. h ∙ new)

  delete_sources-Ends :
      (merged body : Text) (w : s3.World)
      → Merged tools cfg d t merged
      → IsBody tools cfg d t body
      → contents w ≡ between tools cfg d t merged body []
      → Ends s3 laws
          (λ _ u. u ≡ between tools cfg d t merged body (keys tools cfg d t))
          (Interrupted tools cfg d t)
          (delete_keys s3 (keys tools cfg d t) w)
  delete_sources-Ends merged body w m b e =
      let gone = λ (some_keys : List Text) (sub : AreSources tools cfg d t some_keys).
        remove-between tools cfg d t clean merged body [] some_keys sub
        ∙ ap
            (λ x.
              remove some_keys x
              ++ (output tools cfg d t, merged) ∷ (manifest tools cfg d t, body) ∷ [])
            (remove-nil t) in
      Ends-mono s3 laws (delete_keys-Ends s3 laws (keys tools cfg d t) w _ e)
        (λ u h. listed merged body h.0 m b h.1 (h.2 ∙ gone h.0 h.1))
        (λ _ u h. h ∙ gone (keys tools cfg d t) (λ k p. p))

  pub delete_manifest-Ends :
      (merged body : Text) (w : s3.World)
      → Merged tools cfg d t merged
      → IsBody tools cfg d t body
      → contents w ≡ between tools cfg d t merged body (keys tools cfg d t)
      → Ends s3 laws
          (λ _ u. u ≡ after tools cfg d t merged)
          (Interrupted tools cfg d t)
          (delete_keys s3 (manifest tools cfg d t ∷ []) w)
  delete_manifest-Ends merged body w m b e =
      Ends-mono s3 laws (delete_keys-Ends s3 laws (manifest tools cfg d t ∷ []) w _ e)
        (λ u h. Interrupted-manifest tools cfg d t clean merged body u m b h)
        (λ _ u h. h ∙ remove-manifest_done tools cfg d t clean merged body)

  replace_sources-Ends :
      (merged body : Text) (w : s3.World) (s : Bucket)
      → IsReady s
      → Merged tools cfg d t merged
      → IsBody tools cfg d t body
      → contents w ≡ s
      → Ends s3 laws
          (λ _ u. u ≡ after tools cfg d t merged)
          (Interrupted tools cfg d t)
          (replace_sources s3 tools (partition tools cfg d) (keys tools cfg d t) merged body w)
  unfolding replace_sources
  replace_sources-Ends merged body w s r m b e =
      Ends-bind s3 laws _ _ _ (put_output-Ends merged w s r m e) (λ u h. h)
        (λ _ v f.
          Ends-bind s3 laws _ _ _ (put_manifest-Ends merged body v m b f) (λ u h. h)
            (λ _ x g.
              Ends-bind s3 laws _ _ _ (delete_sources-Ends merged body x m b g) (λ u h. h)
                (λ _ y k. delete_manifest-Ends merged body y m b k)))

  write-step :
      (merged : Text) (w : s3.World) (s : Bucket) (o : Option Text)
      → IsReady s
      → Merged tools cfg d t merged
      → tools.marshal (manifest_of tools (keys tools cfg d t) (output tools cfg d t)) ≡ o
      → contents w ≡ s
      → Ends s3 laws
          (λ _ u. u ≡ after tools cfg d t merged)
          (Interrupted tools cfg d t)
          ((elim o as (λ _. M s3 (Unit {0})) [
            | none ↦ bind s3 (put_object s3 (output tools cfg d t) merged) (λ _. fail s3)
            | some body ↦
                replace_sources s3 tools (partition tools cfg d) (keys tools cfg d t) merged body
          ])
            w)
  write-step merged w s none r m b e =
      Ends-bind s3 laws _ _ _ (put_output-Ends merged w s r m e) (λ u h. h)
        (λ _ v f. record { holds = written merged m f })
  write-step merged w s (some body) r m b e = replace_sources-Ends merged body w s r m b e

  write_output-Ends :
      (merged : Text) (w : s3.World) (s : Bucket)
      → IsReady s
      → Merged tools cfg d t merged
      → contents w ≡ s
      → Ends s3 laws
          (λ _ u. u ≡ after tools cfg d t merged)
          (Interrupted tools cfg d t)
          (write_output s3 tools (partition tools cfg d) (keys tools cfg d t) merged w)
  unfolding write_output
  write_output-Ends merged w s r m e = write-step merged w s _ r m refl e

  gathered-ready :
      (s : Bucket)
      → IsReady s
      → gathered tools (keys tools cfg d t) s ≡ gathered tools (keys tools cfg d t) t
  gathered-ready s (inl e) = ap (gathered tools (keys tools cfg d t)) e
  gathered-ready s (inr (old, m, e)) =
      ap (gathered tools (keys tools cfg d t)) e
      ∙ gathered-append tools (keys tools cfg d t) (output tools cfg d t) old t
          (output-mem tools cfg d t clean)

  -- A run that returns has merged the sources that are due, or found too few of them.
  abbrev pub Settled : Bucket → Type 0
  Settled u =
      (u ≡ t) ⊎ ((merged : Text) × Merged tools cfg d t merged × (u ≡ after tools cfg d t merged))

  module _ (recovered : ℕ)
      (enough : ltb (length (sources tools cfg d t)) cfg.min_files ≡ false) where
    merge-step :
        (entries : List Entry) (w : s3.World) (s : Bucket) (o : Option Text)
        (result : Text → PartitionResult)
        → IsReady s
        → gathered tools (keys tools cfg d t) t ≡ some entries
        → tools.write (sort entry_less entries) cfg.compression ≡ o
        → contents w ≡ s
        → Ends s3 laws
            (λ _ u. Settled u)
            (Interrupted tools cfg d t)
            ((elim o as (λ _. M s3 PartitionResult) [
              | none ↦ fail s3
              | some merged ↦
                  bind s3
                    (write_output s3 tools (partition tools cfg d) (keys tools cfg d t) merged)
                    (λ _. pure s3 (result merged))
            ])
              w)
    merge-step entries w s none result r g o e = record {
      holds = subst (Interrupted tools cfg d t) (sym e) (IsReady-Interrupted s r);
    }
    merge-step entries w s (some merged) result r g o e =
        let m : Merged tools cfg d t merged = record {
          entries = entries;
          enough = enough;
          gathers = g;
          writes = o;
        } in
        Ends-bind s3 laws _ _ _ (write_output-Ends merged w s r m e) (λ u h. h)
          (λ _ v f. record { holds = inr (merged, m, f) })

    merge_sources-Ends :
        (w : s3.World) (s : Bucket)
        → IsReady s
        → contents w ≡ s
        → Ends s3 laws
            (λ _ u. Settled u)
            (Interrupted tools cfg d t)
            (merge_sources s3 tools cfg (partition tools cfg d) recovered (sources tools cfg d t) w)
    unfolding merge_sources
    merge_sources-Ends w s r e =
        Ends-bind s3 laws _ _ _ (read_sources-Ends s3 laws tools (keys tools cfg d t) w s e)
          (λ u h. subst (Interrupted tools cfg d t) (sym h) (IsReady-Interrupted s r))
          (λ entries v g. merge-step entries v s _ _ r (sym (gathered-ready s r) ∙ g.1) refl g.0)

  ready-unmerged :
      (s : Bucket) → IsReady s → ltb (length (sources tools cfg d t)) cfg.min_files ≡ true → s ≡ t
  ready-unmerged s (inl e) h = e
  ready-unmerged s (inr (old, m, e)) h = absurd (cc (h, m.enough))

  pub merge_or_skip-Ends :
      (recovered : ℕ) (w : s3.World) (s : Bucket)
      → IsReady s
      → contents w ≡ s
      → Ends s3 laws
          (λ _ u. Settled u)
          (Interrupted tools cfg d t)
          (merge_or_skip s3 tools cfg (partition tools cfg d) recovered (sources tools cfg d t) w)
  unfolding merge_or_skip
  merge_or_skip-Ends recovered w s r e =
      elim (Bool-cases (ltb (length (sources tools cfg d t)) cfg.min_files)) [
        | inl h ↦ rw h (record { holds = inl (e ∙ ready-unmerged s r h) })
        | inr h ↦ rw h (merge_sources-Ends recovered h w s r e)
      ]
