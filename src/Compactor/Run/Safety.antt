-- ===== src/Compactor/Run/Safety.antt =====
-- A run that is stopped anywhere, and a run that finishes: no row is lost, and none is there twice.
use cdk_log_to_s.Prelude.{
  Text, codes, text_eq, text_eq_iff, starts_with, Bool, true, false, ◌&&◌, List, [], ◌∷◌, ◌++◌,
  Option, none, some, ◌≡◌, refl, ap, ◌∙◌, arith, Bool-cases, inl, inr, All, All-append,
}
use cdk_log_to_s.Compactor.{Tools, Config, Entry, Lawful, is_candidate, sort, entry_less}
use cdk_log_to_s.Compactor.Bucket.{Bucket, mem, find, remove, listing}
use cdk_log_to_s.Compactor.Bucket.Laws.{find-append, find-remove-none}
use cdk_log_to_s.Compactor.Bucket.Rows.{
  IsUnique, IsUnique-remove, count, table, own, count-append, count-sort, count-table-append,
  count-table-remove, is_visible,
}
use cdk_log_to_s.Compactor.Store.{S3}
use cdk_log_to_s.Compactor.Store as Store
use cdk_log_to_s.Compactor.Store.Laws.{Ends, After, Ends-mono}
use cdk_log_to_s.Compactor.Run.{PartitionResult, is_manifest, compact_partition}
use cdk_log_to_s.Compactor.Run.Names.{output-is_visible, output-is_manifest}
use cdk_log_to_s.Compactor.Run.Selection.{sources-All, sources-IsDistinct, IsCandidate-visible}
use cdk_log_to_s.Compactor.Run.States.{
  partition, keys, output, IsClean, Merged, after, Interrupted, untouched, written, listed,
  finished,
}
use cdk_log_to_s.Compactor.Run.Merge.{Settled}
use cdk_log_to_s.Compactor.Run.Recover.{compact_partition-IsReady}
use cdk_log_to_s.Compactor.Run.Interrupted.{compact_partition-between}

IsUnique-append :
    (k b : Text) (s : Bucket) → IsUnique s → find k s ≡ none → IsUnique (s ++ (k, b) ∷ [])
unfolding find
IsUnique-append k b [] u h = (refl, tt)
IsUnique-append k b ((j, c) ∷ s) u h = elim (Bool-cases (text_eq j k)) [
  | inl e ↦ absurd (ground (arith, h, e, text_eq_iff j k, text_eq_iff k j))
  | inr f ↦ (
    find-append j s ((k, b) ∷ []) u.0 ∙ rw f,
    IsUnique-append k b s u.1 (ground (arith, h, f, text_eq_iff j k, text_eq_iff k j)),
  )
]

All-remove :
    (P : Text × Text → Type 0) (gone : List Text) (s : Bucket) → All P s → All P (remove gone s)
unfolding remove
All-remove P gone [] h = tt
All-remove P gone (e ∷ s) h = elim (Bool-cases (mem e.0 gone)) [
  | inl g ↦ rw g (All-remove P gone s h.1)
  | inr n ↦ rw n (h.0, All-remove P gone s h.1)
]

count-nil : (p : Entry → Bool) → count p [] ≡ 0
unfolding count
count-nil p = refl

All-visible :
    (keys : List Text) → All (λ k. is_candidate k ≡ true) keys → All (λ k. is_visible k ≡ true) keys
All-visible [] h = tt
All-visible (k ∷ keys) h = (IsCandidate-visible k h.0, All-visible keys h.1)

module _ (tools : Tools) (readable : Lawful tools) (cfg : Config) (d : Text) where
  output-plain :
      (t : Bucket)
      → (starts_with (partition tools cfg d) (output tools cfg d t)
          && is_manifest (output tools cfg d t))
        ≡ false
  output-plain t = ground (arith, output-is_manifest tools d (keys tools cfg d t))

  -- The bucket after a merge is clean again, but for the next output's name.
  IsClean-after :
      (t : Bucket) (merged : Text)
      → IsClean tools cfg d t
      → find (output tools cfg d (after tools cfg d t merged)) (after tools cfg d t merged) ≡ none
      → IsClean tools cfg d (after tools cfg d t merged)
  IsClean-after t merged clean fresh = record {
    unique =
        IsUnique-append (output tools cfg d t) merged (remove (keys tools cfg d t) t)
          (IsUnique-remove (keys tools cfg d t) t clean.unique)
          (find-remove-none (output tools cfg d t) (keys tools cfg d t) t clean.fresh);
    plain =
        All-append (λ e. (starts_with (partition tools cfg d) e.0 && is_manifest e.0) ≡ false)
          (remove (keys tools cfg d t) t) _ (All-remove _ (keys tools cfg d t) t clean.plain)
          (output-plain t, tt);
    fresh = fresh;
  }

  own-output :
      (t : Bucket) (merged : Text) (m : Merged tools cfg d t merged)
      → own tools (output tools cfg d t) merged ≡ sort entry_less m.entries
  unfolding own
  own-output t merged m =
      rw (output-is_visible tools d (keys tools cfg d t), readable.read-write _ _ _ m.writes)

  -- A merge keeps every row, as often as it is there.
  pub count-after :
      (t : Bucket) (merged : Text) (p : Entry → Bool)
      → IsClean tools cfg d t
      → Merged tools cfg d t merged
      → count p (table tools (after tools cfg d t merged)) ≡ count p (table tools t)
  unfolding table count
  count-after t merged p clean m =
      let new : count p (table tools ((output tools cfg d t, merged) ∷ [])) ≡ count p m.entries =
        count-append p (own tools (output tools cfg d t) merged) []
        ∙ rw (own-output t merged m)
            (omega (arith, count-sort p entry_less m.entries, count-nil p)) in
      omega (
        arith,
        new,
        count-table-append tools p (remove (keys tools cfg d t) t)
            ((output tools cfg d t, merged) ∷ []),
        count-table-remove tools p (keys tools cfg d t) t m.entries clean.unique
            (sources-IsDistinct (partition tools cfg d) t cfg clean.unique)
            (All-visible (keys tools cfg d t) (sources-All (listing (partition tools cfg d) t) cfg))
            m.gathers,
      )

  module _ (s3 : S3) (laws : Store.Lawful s3) where
    open laws use {contents}

    count-Settled :
        (t u : Bucket) (p : Entry → Bool) (clean : IsClean tools cfg d t)
        → Settled s3 laws tools cfg d t clean u
        → count p (table tools u) ≡ count p (table tools t)
    count-Settled t u p clean (inl e) = ap (λ x. count p (table tools x)) e
    count-Settled t u p clean (inr (merged, m, e)) =
        ap (λ x. count p (table tools x)) e ∙ count-after t merged p clean m

    -- Wherever the first run was stopped, a run that returns leaves the rows that were there first.
    compact_partition-Interrupted :
        (t s : Bucket) (w : s3.World) (clean : IsClean tools cfg d t)
        → ((merged : Text)
            → Merged tools cfg d t merged
            → find (output tools cfg d (after tools cfg d t merged)) (after tools cfg d t merged)
              ≡ none)
        → Interrupted tools cfg d t s
        → contents w ≡ s
        → (p : Entry → Bool)
        → Ends s3 laws
            (λ _ u. count p (table tools u) ≡ count p (table tools t))
            (λ _. Unit {0})
            (compact_partition s3 tools cfg (partition tools cfg d) w)
    compact_partition-Interrupted t s w clean fresh (untouched e) c p =
        Ends-mono s3 laws (compact_partition-IsReady s3 laws tools cfg d t clean s w (inl e) c)
          (λ u h. tt) (λ _ u h. count-Settled t u p clean h)
    compact_partition-Interrupted t s w clean fresh (written merged m e) c p =
        Ends-mono s3 laws
          (compact_partition-IsReady s3 laws tools cfg d t clean s w (inr (merged, m, e)) c)
          (λ u h. tt) (λ _ u h. count-Settled t u p clean h)
    compact_partition-Interrupted t s w clean fresh (listed merged body gone m b sub e) c p =
        let next = IsClean-after t merged clean (fresh merged m) in
        Ends-mono s3 laws
          (compact_partition-between s3 laws tools readable cfg d t clean merged body m b gone sub w
            next (c ∙ e))
          (λ u h. tt)
          (λ _ u h.
            count-Settled (after tools cfg d t merged) u p next h ∙ count-after t merged p clean m)
    compact_partition-Interrupted t s w clean fresh (finished merged m e) c p =
        let next = IsClean-after t merged clean (fresh merged m) in
        Ends-mono s3 laws
          (compact_partition-IsReady s3 laws tools cfg d (after tools cfg d t merged) next s w
            (inl e) c)
          (λ u h. tt)
          (λ _ u h.
            count-Settled (after tools cfg d t merged) u p next h ∙ count-after t merged p clean m)

    -- How a first run ends, as one of the states.
    Settled-Interrupted :
        (t u : Bucket) (clean : IsClean tools cfg d t)
        → Settled s3 laws tools cfg d t clean u
        → Interrupted tools cfg d t u
    Settled-Interrupted t u clean (inl e) = untouched e
    Settled-Interrupted t u clean (inr (merged, m, e)) = finished merged m e

    After-any :
        {A : Type 0} (P : Bucket → Type 0) (o : Option A) (s : Bucket)
        → After s3 laws (λ _ u. P u) P o s
        → P s
    After-any P none s h = h
    After-any P (some a) s h = h

    After-value :
        {A : Type 0} (P : Bucket → Type 0) (X : Bucket → Type 0) (o : Option A) (a : A) (s : Bucket)
        → o ≡ some a
        → After s3 laws (λ _ u. P u) X o s
        → P s
    After-value P X none a s h k = cc h
    After-value P X (some b) a s h k = k

    first_run-Interrupted :
        (t : Bucket) (w : s3.World)
        → IsClean tools cfg d t
        → contents w ≡ t
        → Interrupted tools cfg d t
            (contents (compact_partition s3 tools cfg (partition tools cfg d) w).1)
    first_run-Interrupted t w clean c =
        After-any (Interrupted tools cfg d t) _ _
          (Ends-mono s3 laws
            (compact_partition-IsReady s3 laws tools cfg d t clean t w (inl refl) c) (λ u h. h)
            (λ _ u h. Settled-Interrupted t u clean h)).holds

-- For lawful S3 and codecs, and a partition `d/` with no manifest, in which the names of the
-- outputs that are due are not taken: if one run ends, or is stopped by an error or a crash at any
-- of its calls with whatever effect that call had, and another run over what it left returns, then
-- each row that queries over the bucket read is there as often as before the first run.
pub compact_partition-crash_safe :
    (s3 : S3) (laws : Store.Lawful s3) (tools : Tools) (readable : Lawful tools) (cfg : Config)
    (d : Text) (w : s3.World) (result : PartitionResult)
    → IsClean tools cfg d (laws.contents w)
    → ((merged : Text)
        → Merged tools cfg d (laws.contents w) merged
        → find
            (output tools cfg d (after tools cfg d (laws.contents w) merged))
            (after tools cfg d (laws.contents w) merged)
          ≡ none)
    → (compact_partition s3 tools cfg
        (d ++ codes "/")
        (compact_partition s3 tools cfg (d ++ codes "/") w).1).0
      ≡ some result
    → (p : Entry → Bool)
    → count p (
        table tools (
          laws.contents
            (compact_partition s3 tools cfg
              (d ++ codes "/")
              (compact_partition s3 tools cfg (d ++ codes "/") w).1).1))
      ≡ count p (table tools (laws.contents w))
compact_partition-crash_safe s3 laws tools readable cfg d w result clean fresh done p =
    let t = laws.contents w in
    let x = (compact_partition s3 tools cfg (d ++ codes "/") w).1 in
    After-value tools readable cfg d s3 laws
      (λ u. count p (table tools u) ≡ count p (table tools t)) (λ _. Unit {0}) _ result _ done
      (compact_partition-Interrupted tools readable cfg d s3 laws t _ x clean fresh
        (first_run-Interrupted tools readable cfg d s3 laws t w clean refl) refl p).holds
