-- ===== src/Compactor/Run/Recover.antt =====
-- A run over a partition that another run left, with or without a manifest: how it ends.
use cdk_log_to_s.Prelude.{
  ℕ, Text, starts_with, false, ◌&&◌, length, List, [], ◌∷◌, ◌++◌, append-nil, ◌≡◌, refl, sym, ap,
  ◌∙◌, arith, Bool-cases, inl, inr, All, All-append,
}
use mathlib.Core.Path.{subst}
use cdk_log_to_s.Go.Strings.{has_prefix}
use cdk_log_to_s.Compactor.{
  Tools, Config, Object, select_sources, candidates, sort, text_lt, capped,
}
use cdk_log_to_s.Compactor.Bucket.{Bucket, listing, by_key}
use cdk_log_to_s.Compactor.Bucket.Laws.{listing-append}
use cdk_log_to_s.Compactor.Store.{S3, M, pure, bind, delete_keys, list_objects, get_object}
use cdk_log_to_s.Compactor.Store as Store
use cdk_log_to_s.Compactor.Store.Laws.{Ends, Ends-bind, list_objects-Ends}
use cdk_log_to_s.Compactor.Run.{
  is_manifest, keys_of, finish_loop, finish_interrupted_runs, list_again, compact_partition,
}
use cdk_log_to_s.Compactor.Run.Names.{output-is_candidate, output-is_manifest, output-starts_with}
use cdk_log_to_s.Compactor.Run.Selection.{candidates-append}
use cdk_log_to_s.Compactor.Run.Order.{select_sources-by_key, All-by_key}
use cdk_log_to_s.Compactor.Run.States.{partition, sources, keys, output, IsClean, Interrupted}
use cdk_log_to_s.Compactor.Run.Merge.{IsReady, IsReady-Interrupted, Settled, merge_or_skip-Ends}

abbrev pub IsPlain : Object → Type 0
IsPlain o = is_manifest o.key ≡ false

pub listing-IsPlain :
    (p : Text) (s : Bucket)
    → All (λ e. (starts_with p e.0 && is_manifest e.0) ≡ false) s
    → All IsPlain (listing p s)
unfolding listing
listing-IsPlain p [] h = tt
listing-IsPlain p ((k, b) ∷ s) h = elim (Bool-cases (has_prefix k p)) [
  | inl e ↦ rw e (ground (arith, h.0, e), listing-IsPlain p s h.1)
  | inr f ↦ rw f (listing-IsPlain p s h.1)
]

module _ (s3 : S3) (laws : Store.Lawful s3) (tools : Tools) where
  -- Objects that are no manifests are passed over.
  pub finish_loop-IsPlain :
      (present : List Text) (l m : List Object) (n : ℕ)
      → All IsPlain l
      → finish_loop s3 tools present (l ++ m) n ≡ finish_loop s3 tools present m n
  unfolding finish_loop
  finish_loop-IsPlain present [] m n h = refl
  finish_loop-IsPlain present (o ∷ l) m n h = rw (h.0) (finish_loop-IsPlain present l m n h.1)

  pub finish_loop-plain :
      (present : List Text) (l : List Object) (n : ℕ)
      → All IsPlain l
      → finish_loop s3 tools present l n ≡ pure s3 n
  finish_loop-plain present l n h =
      ap (λ x. finish_loop s3 tools present x n) (sym (append-nil l))
      ∙ finish_loop-IsPlain present l [] n h
      ∙ unfold finish_loop in refl

  finish_interrupted_runs-IsPlain :
      (l : List Object) → All IsPlain l → finish_interrupted_runs s3 tools l ≡ pure s3 0
  unfolding finish_interrupted_runs
  finish_interrupted_runs-IsPlain l h = finish_loop-plain (keys_of l) l 0 h

module _ (s3 : S3) (laws : Store.Lawful s3) (tools : Tools) (cfg : Config) (d : Text) (t : Bucket)
    (clean : IsClean tools cfg d t) where
  open laws use {contents}

  pub listing-output :
      (old : Text)
      → listing (partition tools cfg d) ((output tools cfg d t, old) ∷ [])
        ≡ record { key = output tools cfg d t; size = length old } ∷ []
  unfolding listing
  listing-output old = rw (output-starts_with tools d (keys tools cfg d t))

  ready-IsPlain :
      (s : Bucket)
      → IsReady s3 laws tools cfg d t clean s
      → All IsPlain (listing (partition tools cfg d) s)
  ready-IsPlain s (inl e) = rw e (listing-IsPlain (partition tools cfg d) t clean.plain)
  ready-IsPlain s (inr (old, m, e)) =
      rw
        (
          e,
          listing-append (partition tools cfg d) t ((output tools cfg d t, old) ∷ []),
          listing-output old,
        )
        (All-append IsPlain (listing (partition tools cfg d) t) _
          (listing-IsPlain (partition tools cfg d) t clean.plain)
          (output-is_manifest tools d (keys tools cfg d t), tt))

  candidates-output :
      (old : Text)
      → candidates (listing (partition tools cfg d) (t ++ (output tools cfg d t, old) ∷ []))
        ≡ candidates (listing (partition tools cfg d) t)
  candidates-output old =
      ap candidates (
        listing-append (partition tools cfg d) t ((output tools cfg d t, old) ∷ [])
        ∙ ap (λ l. listing (partition tools cfg d) t ++ l) (listing-output old))
      ∙ candidates-append (listing (partition tools cfg d) t) _
      ∙ unfold candidates in rw (output-is_candidate tools d (keys tools cfg d t)) (append-nil _)

  -- The output of an earlier run is not chosen again.
  listed-sources :
      (s : Bucket)
      → IsReady s3 laws tools cfg d t clean s
      → select_sources (listing (partition tools cfg d) s) cfg ≡ sources tools cfg d t
  unfolding select_sources
  listed-sources s (inl e) = rw e
  listed-sources s (inr (old, m, e)) =
      rw e (ap (λ l. capped cfg 0 0 (sort (λ a b. text_lt a.key b.key) l)) (candidates-output old))

  ready-sources :
      (s : Bucket)
      → IsReady s3 laws tools cfg d t clean s
      → select_sources (by_key (listing (partition tools cfg d) s)) cfg ≡ sources tools cfg d t
  ready-sources s r =
      select_sources-by_key (listing (partition tools cfg d) s) cfg ∙ listed-sources s r

  -- A run where no manifest is left.
  pub compact_partition-IsReady :
      (s : Bucket) (w : s3.World)
      → IsReady s3 laws tools cfg d t clean s
      → contents w ≡ s
      → Ends s3 laws
          (λ _ u. Settled s3 laws tools cfg d t clean u)
          (Interrupted tools cfg d t)
          (compact_partition s3 tools cfg (partition tools cfg d) w)
  unfolding compact_partition list_again
  compact_partition-IsReady s w r e =
      Ends-bind s3 laws _ _ _ (list_objects-Ends s3 laws (partition tools cfg d) w s e)
        (λ u h.
          subst (Interrupted tools cfg d t) (sym h)
            (IsReady-Interrupted s3 laws tools cfg d t clean s r))
        (λ objects v f. rw (f.1) (
          Ends-bind s3 laws {P = λ n u. (u ≡ s) × (n ≡ 0)} {Y = λ u. u ≡ s} _ _ _
            (rw
              (finish_interrupted_runs-IsPlain s3 laws tools _
                (All-by_key IsPlain _ (ready-IsPlain s r)))
              (record { holds = (f.0, refl) }))
            (λ u h.
              subst (Interrupted tools cfg d t) (sym h)
                (IsReady-Interrupted s3 laws tools cfg d t clean s r))
            (λ n x g. rw (g.1) (
              Ends-bind s3 laws
                {P = λ l u. (u ≡ s) × (l ≡ by_key (listing (partition tools cfg d) s))}
                {Y = λ u. u ≡ s} _ _ _ (record { holds = (g.0, refl) })
                (λ u h.
                  subst (Interrupted tools cfg d t) (sym h)
                    (IsReady-Interrupted s3 laws tools cfg d t clean s r))
                (λ current y k.
                  rw (k.1, ready-sources s r)
                    (merge_or_skip-Ends s3 laws tools cfg d t clean 0 y s r k.0))))))
