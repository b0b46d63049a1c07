-- ===== src/Compactor/Run/Stale.antt =====
-- The sources of a manifest that are still there: with those that are gone they are all.
use cdk_log_to_s.Prelude.{
  Text, text_eq, text_eq_iff, starts_with, true, false, ◌&&◌, List, [], ◌∷◌, ◌++◌, ◌≡◌, refl, sym,
  ap, ◌∙◌, arith, Bool-cases, inl, inr, All, ◌⊎◌,
}
use mathlib.Core.Path.{subst}
use cdk_log_to_s.Go.Strings.{has_prefix}
use cdk_log_to_s.Compactor.{Config, Object, is_candidate, candidates, select_sources, text_lt}
use cdk_log_to_s.Compactor.Bucket.{Bucket, mem, remove, listing}
use cdk_log_to_s.Compactor.Bucket.Laws.{mem-append, remove-agree}
use cdk_log_to_s.Compactor.Run.{keys_of, stale_of}
use cdk_log_to_s.Compactor.Run.Selection.{All-capped, All-sort}

mem-stale_of :
    (k : Text) (present sources : List Text)
    → mem k (stale_of present sources) ≡ (mem k sources && mem k present)
unfolding stale_of mem
mem-stale_of k present [] = refl
mem-stale_of k present (j ∷ sources) = elim (Bool-cases (text_eq k j)) [
  | inl e ↦
      let same : mem j present ≡ mem k present =
        ap (λ x. mem x present) (sym ((text_eq_iff k j).0 e)) in
      ground (arith, e, same, mem-stale_of k present sources)
  | inr f ↦ ground (arith, f, mem-stale_of k present sources)
]

-- What is no key of a listing is not below its prefix.
listing-starts_with : (p : Text) (s : Bucket) → All (λ o. starts_with p o.key ≡ true) (listing p s)
unfolding listing
listing-starts_with p [] = tt
listing-starts_with p ((k, b) ∷ s) = elim (Bool-cases (has_prefix k p)) [
  | inl e ↦ rw e (e, listing-starts_with p s)
  | inr f ↦ rw f (listing-starts_with p s)
]

All-candidates : (P : Object → Type 0) (l : List Object) → All P l → All P (candidates l)
unfolding candidates
All-candidates P [] h = tt
All-candidates P (o ∷ l) h = elim (Bool-cases (is_candidate o.key)) [
  | inl e ↦ rw e (h.0, All-candidates P l h.1)
  | inr f ↦ rw f (All-candidates P l h.1)
]

mem-keys_of :
    (P : Text → Type 0) (k : Text) (l : List Object)
    → All (λ o. P o.key) l
    → mem k (keys_of l) ≡ true
    → P k
unfolding mem keys_of
mem-keys_of P k [] h m = cc
mem-keys_of P k (o ∷ l) h m = elim (Bool-cases (text_eq k o.key)) [
  | inl e ↦ subst P (sym ((text_eq_iff k o.key).0 e)) h.0
  | inr f ↦ mem-keys_of P k l h.1 (ground (arith, m, f))
]

source-starts_with :
    (p k : Text) (s : Bucket) (cfg : Config)
    → mem k (keys_of (select_sources (listing p s) cfg)) ≡ true
    → starts_with p k ≡ true
unfolding select_sources
source-starts_with p k s cfg m =
    mem-keys_of (λ x. starts_with p x ≡ true) k _
      (All-capped _ cfg 0 0 _ (
        All-sort _ (λ a b. text_lt a.key b.key) _
          (All-candidates _ (listing p s) (listing-starts_with p s))))
      m

-- Each entry below the prefix that is not gone is listed, in front of others.
abbrev Listed : Text → List Text → List Text → Bucket → Type 0
Listed p gone present s =
    All (λ e. mem e.0 gone ≡ false → starts_with p e.0 ≡ true → mem e.0 present ≡ true) s

Listed-cons :
    (p j : Text) (gone present : List Text) (s : Bucket)
    → Listed p gone present s
    → Listed p gone (j ∷ present) s
unfolding mem
Listed-cons p j gone present [] h = tt
Listed-cons p j gone present (e ∷ s) h =
    (λ g f. ground (arith, h.0 g f), Listed-cons p j gone present s h.1)

keys_of-removed :
    (p k b : Text) (gone : List Text) (rest : List Object) (s : Bucket)
    → (mem k gone ≡ true) ⊎ (has_prefix k p ≡ false)
    → keys_of (listing p (remove gone ((k, b) ∷ s)) ++ rest)
      ≡ keys_of (listing p (remove gone s) ++ rest)
unfolding listing remove
keys_of-removed p k b gone rest s (inl h) = rw h
keys_of-removed p k b gone rest s (inr h) = elim (Bool-cases (mem k gone)) [
  | inl e ↦ rw e
  | inr n ↦ rw (n, h)
]

keys_of-kept :
    (p k b : Text) (gone : List Text) (rest : List Object) (s : Bucket)
    → mem k gone ≡ false
    → has_prefix k p ≡ true
    → keys_of (listing p (remove gone ((k, b) ∷ s)) ++ rest)
      ≡ k ∷ keys_of (listing p (remove gone s) ++ rest)
unfolding listing remove keys_of
keys_of-kept p k b gone rest s h e = rw (h, e)

mem-head : (k : Text) (l : List Text) → mem k (k ∷ l) ≡ true
unfolding mem
mem-head k l = ground (arith, text_eq_iff k k)

keys_of-Listed :
    (p : Text) (gone : List Text) (rest : List Object) (s : Bucket)
    → Listed p gone (keys_of (listing p (remove gone s) ++ rest)) s
keys_of-Listed p gone rest [] = tt
keys_of-Listed p gone rest ((k, b) ∷ s) = elim (Bool-cases (mem k gone)) [
  | inl e ↦
      subst (λ x. Listed p gone x ((k, b) ∷ s)) (sym (keys_of-removed p k b gone rest s (inl e)))
        ((λ g f. absurd (cc (g, e))), keys_of-Listed p gone rest s)
  | inr n ↦ elim (Bool-cases (has_prefix k p)) [
    | inl e ↦
        subst (λ x. Listed p gone x ((k, b) ∷ s)) (sym (keys_of-kept p k b gone rest s n e))
          ((λ g f. mem-head k _), Listed-cons p k gone _ s (keys_of-Listed p gone rest s))
    | inr f ↦
        subst (λ x. Listed p gone x ((k, b) ∷ s)) (sym (keys_of-removed p k b gone rest s (inr f)))
          ((λ g h. absurd (cc (h, f))), keys_of-Listed p gone rest s)
  ]
]

module _ (p : Text) (keys gone present : List Text)
    (sub : (k : Text) → mem k gone ≡ true → mem k keys ≡ true)
    (below : (k : Text) → mem k keys ≡ true → starts_with p k ≡ true) where
  agree :
      (k : Text)
      → (mem k gone ≡ false → starts_with p k ≡ true → mem k present ≡ true)
      → mem k (gone ++ stale_of present keys) ≡ mem k keys
  agree k listed = mem-append k gone (stale_of present keys) ∙ elim (Bool-cases (mem k gone)) [
    | inl e ↦ ground (arith, e, sub k e)
    | inr n ↦ elim (Bool-cases (mem k keys)) [
      | inl e ↦ ground (arith, n, e, mem-stale_of k present keys, listed n (below k e))
      | inr f ↦ ground (arith, n, f, mem-stale_of k present keys)
    ]
  ]

  All-agree :
      (s : Bucket)
      → Listed p gone present s
      → All (λ e. mem e.0 (gone ++ stale_of present keys) ≡ mem e.0 keys) s
  All-agree [] h = tt
  All-agree (e ∷ s) h = (agree e.0 h.0, All-agree s h.1)

  pub stale_of-AreSources :
      (k : Text) → mem k (gone ++ stale_of present keys) ≡ true → mem k keys ≡ true
  stale_of-AreSources k h = elim (Bool-cases (mem k gone)) [
    | inl e ↦ sub k e
    | inr n ↦
        ground (arith, h, n, mem-append k gone (stale_of present keys), mem-stale_of k present keys)
  ]

pub remove-stale_of :
    (p : Text) (s : Bucket) (cfg : Config) (gone : List Text) (rest : List Object)
    → ((k : Text) → mem k gone ≡ true → mem k (keys_of (select_sources (listing p s) cfg)) ≡ true)
    → remove
        (gone
          ++ stale_of
              (keys_of (listing p (remove gone s) ++ rest))
              (keys_of (select_sources (listing p s) cfg)))
        s
      ≡ remove (keys_of (select_sources (listing p s) cfg)) s
remove-stale_of p s cfg gone rest sub =
    remove-agree _ _ s (
      All-agree p _ gone _ sub (λ k. source-starts_with p k s cfg) s (keys_of-Listed p gone rest s))

pub stale-mem :
    (k : Text) (present sources : List Text)
    → mem k (stale_of present sources) ≡ true
    → mem k sources ≡ true
stale-mem k present sources h = ground (arith, h, mem-stale_of k present sources)
