-- ===== src/Compactor/Run/Selection.antt =====
-- The keys of the files that a run merges.
use cdk_log_to_s.Prelude.{
  ℕ, ◌+◌, Text, text_eq, text_eq_iff, Bool, true, false, ◌&&◌, leb, ltb, List, [], ◌∷◌, ◌++◌, none,
  ◌≡◌, refl, ap, arith, Bool-cases, inl, inr, All,
}
use cdk_log_to_s.Go.Strings.{has_prefix}
use cdk_log_to_s.Compactor.{
  Config, Object, is_candidate, candidates, insert, sort, capped, select_sources, text_lt,
}
use cdk_log_to_s.Compactor.Bucket.{Bucket, mem, find, listing}
use cdk_log_to_s.Compactor.Bucket.Rows.{is_visible, IsUnique, IsDistinct}
use cdk_log_to_s.Compactor.Run.{keys_of}

pub candidates-append : (l m : List Object) → candidates (l ++ m) ≡ candidates l ++ candidates m
unfolding candidates
candidates-append [] m = refl
candidates-append (o ∷ l) m = ground (arith, candidates-append l m)

pub IsCandidate-visible : (k : Text) → is_candidate k ≡ true → is_visible k ≡ true
unfolding is_candidate is_visible
IsCandidate-visible k h = ground (arith, h)

-- A predicate of all objects of a list is one of those that the loops leave.
module _ (P : Object → Type 0) where
  pub All-insert :
      (less : Object → Object → Bool) (o : Object) (l : List Object)
      → P o
      → All P l
      → All P (insert less o l)
  unfolding insert
  All-insert less o [] h k = (h, tt)
  All-insert less o (b ∷ l) h k = elim (Bool-cases (less b o)) [
    | inl t ↦ rw t (k.0, All-insert less o l h k.1)
    | inr f ↦ rw f (h, (k.0, k.1))
  ]

  pub All-sort : (less : Object → Object → Bool) (l : List Object) → All P l → All P (sort less l)
  unfolding sort
  All-sort less [] h = tt
  All-sort less (o ∷ l) h = All-insert less o (sort less l) h.0 (All-sort less l h.1)

  pub All-capped :
      (cfg : Config) (n bytes : ℕ) (l : List Object) → All P l → All P (capped cfg n bytes l)
  unfolding capped
  All-capped cfg n bytes [] h = tt
  All-capped cfg n bytes (o ∷ l) h = elim (Bool-cases (leb cfg.max_files n)) [
    | inl t ↦ rw t tt
    | inr f ↦ elim (Bool-cases (ltb 0 n && ltb cfg.max_bytes (bytes + o.size))) [
      | inl t ↦ rw (f, t) tt
      | inr g ↦ rw (f, g) (h.0, All-capped cfg (n + 1) (bytes + o.size) l h.1)
    ]
  ]

All-candidates : (l : List Object) → All (λ o. is_candidate o.key ≡ true) (candidates l)
unfolding candidates
All-candidates [] = tt
All-candidates (o ∷ l) = elim (Bool-cases (is_candidate o.key)) [
  | inl t ↦ rw t (t, All-candidates l)
  | inr f ↦ rw f (All-candidates l)
]

pub All-select_sources :
    (l : List Object) (cfg : Config) → All (λ o. is_candidate o.key ≡ true) (select_sources l cfg)
unfolding select_sources
All-select_sources l cfg =
    All-capped _ cfg 0 0 _
      (All-sort _ (λ a b. text_lt a.key b.key) (candidates l) (All-candidates l))

-- No two objects have one key: `Apart k l` says that none in `l` has the key `k`.
abbrev Apart : Text → List Object → Type 0
Apart k l = All (λ o. text_eq k o.key ≡ false) l

abbrev AreApart : List Object → Type 0
AreApart [] = Unit
AreApart (o ∷ l) = Apart o.key l × AreApart l

AreApart-insert :
    (less : Object → Object → Bool) (o : Object) (l : List Object)
    → Apart o.key l
    → AreApart l
    → AreApart (insert less o l)
unfolding insert
AreApart-insert less o [] h k = (tt, tt)
AreApart-insert less o (b ∷ l) h k = elim (Bool-cases (less b o)) [
  | inl t ↦
      let other : text_eq b.key o.key ≡ false =
        ground (arith, h.0, text_eq_iff b.key o.key, text_eq_iff o.key b.key) in
      rw t (
        All-insert (λ x. text_eq b.key x.key ≡ false) less o l other k.0,
        AreApart-insert less o l h.1 k.1,
      )
  | inr f ↦ rw f (h, k)
]

AreApart-sort :
    (less : Object → Object → Bool) (l : List Object) → AreApart l → AreApart (sort less l)
unfolding sort
AreApart-sort less [] h = tt
AreApart-sort less (o ∷ l) h =
    AreApart-insert less o (sort less l) (All-sort _ less l h.0) (AreApart-sort less l h.1)

AreApart-capped :
    (cfg : Config) (n bytes : ℕ) (l : List Object) → AreApart l → AreApart (capped cfg n bytes l)
unfolding capped
AreApart-capped cfg n bytes [] h = tt
AreApart-capped cfg n bytes (o ∷ l) h = elim (Bool-cases (leb cfg.max_files n)) [
  | inl t ↦ rw t tt
  | inr f ↦ elim (Bool-cases (ltb 0 n && ltb cfg.max_bytes (bytes + o.size))) [
    | inl t ↦ rw (f, t) tt
    | inr g ↦
        rw (f, g)
          (
            All-capped _ cfg (n + 1) (bytes + o.size) l h.0,
            AreApart-capped cfg (n + 1) (bytes + o.size) l h.1,
          )
  ]
]

Apart-candidates : (k : Text) (l : List Object) → Apart k l → Apart k (candidates l)
unfolding candidates
Apart-candidates k [] h = tt
Apart-candidates k (o ∷ l) h = elim (Bool-cases (is_candidate o.key)) [
  | inl t ↦ rw t (h.0, Apart-candidates k l h.1)
  | inr f ↦ rw f (Apart-candidates k l h.1)
]

AreApart-candidates : (l : List Object) → AreApart l → AreApart (candidates l)
unfolding candidates
AreApart-candidates [] h = tt
AreApart-candidates (o ∷ l) h = elim (Bool-cases (is_candidate o.key)) [
  | inl t ↦ rw t (Apart-candidates o.key l h.0, AreApart-candidates l h.1)
  | inr f ↦ rw f (AreApart-candidates l h.1)
]

Apart-listing : (k p : Text) (s : Bucket) → find k s ≡ none → Apart k (listing p s)
unfolding find listing
Apart-listing k p [] h = tt
Apart-listing k p ((j, b) ∷ s) h = elim (Bool-cases (text_eq k j)) [
  | inl t ↦ absurd (ground (arith, h, t))
  | inr f ↦ elim (Bool-cases (has_prefix j p)) [
    | inl t ↦ rw t (f, Apart-listing k p s (ground (arith, h, f)))
    | inr g ↦ rw g (Apart-listing k p s (ground (arith, h, f)))
  ]
]

AreApart-listing : (p : Text) (s : Bucket) → IsUnique s → AreApart (listing p s)
unfolding listing
AreApart-listing p [] u = tt
AreApart-listing p ((j, b) ∷ s) u = elim (Bool-cases (has_prefix j p)) [
  | inl t ↦ rw t (Apart-listing j p s u.0, AreApart-listing p s u.1)
  | inr f ↦ rw f (AreApart-listing p s u.1)
]

mem-keys_of : (k : Text) (l : List Object) → Apart k l → mem k (keys_of l) ≡ false
unfolding mem keys_of
mem-keys_of k [] h = refl
mem-keys_of k (o ∷ l) h = rw (h.0) (mem-keys_of k l h.1)

IsDistinct-keys_of : (l : List Object) → AreApart l → IsDistinct (keys_of l)
unfolding keys_of
IsDistinct-keys_of [] h = tt
IsDistinct-keys_of (o ∷ l) h = (mem-keys_of o.key l h.0, IsDistinct-keys_of l h.1)

pub sources-IsDistinct :
    (p : Text) (s : Bucket) (cfg : Config)
    → IsUnique s
    → IsDistinct (keys_of (select_sources (listing p s) cfg))
unfolding select_sources
sources-IsDistinct p s cfg u = IsDistinct-keys_of _ (
    AreApart-capped cfg 0 0 _ (
      AreApart-sort (λ a b. text_lt a.key b.key) (candidates (listing p s))
        (AreApart-candidates (listing p s) (AreApart-listing p s u))))

All-keys_of : (P : Text → Type 0) (l : List Object) → All (λ o. P o.key) l → All P (keys_of l)
unfolding keys_of
All-keys_of P [] h = tt
All-keys_of P (o ∷ l) h = (h.0, All-keys_of P l h.1)

pub sources-All :
    (l : List Object) (cfg : Config)
    → All (λ k. is_candidate k ≡ true) (keys_of (select_sources l cfg))
sources-All l cfg = All-keys_of (λ k. is_candidate k ≡ true) _ (All-select_sources l cfg)

-- What is no candidate is no source.
pub mem-candidates :
    (k : Text) (keys : List Text)
    → All (λ j. is_candidate j ≡ true) keys
    → is_candidate k ≡ false
    → mem k keys ≡ false
unfolding mem
mem-candidates k [] h n = refl
mem-candidates k (j ∷ keys) h n = elim (Bool-cases (text_eq k j)) [
  | inl t ↦ absurd (cc (ap is_candidate ((text_eq_iff k j).0 t), h.0, n))
  | inr f ↦ rw f (mem-candidates k keys h.1 n)
]
