-- ===== src/Compactor/Run/Order.antt =====
-- Objects in the order of their keys: a second sorting, and the choice of the sources from them.
use cdk_log_to_s.Prelude.{
  Text, text_eq, ◌||◌, Bool, true, false, if◌then◌else◌, List, [], ◌∷◌, ◌++◌, ◌≡◌, refl, sym, ap,
  ◌∙◌, arith, Bool-cases, inl, inr, All,
}
use cdk_log_to_s.Compactor.{
  Config, Object, is_candidate, candidates, insert, sort, capped, select_sources, text_lt,
}
use cdk_log_to_s.Compactor.Bucket.{mem, by_key}
use cdk_log_to_s.Compactor.Run.{keys_of, stale_of}
use cdk_log_to_s.Compactor.Run.Selection.{All-insert, All-sort}

text_lt_asym : (a b : Text) → text_lt a b ≡ true → text_lt b a ≡ false
unfolding text_lt
text_lt_asym a [] h = absurd (cc h)
text_lt_asym [] (d ∷ t) h = refl
text_lt_asym (c ∷ s) (d ∷ t) h = ground (arith, h, text_lt_asym s t)

-- What is not below a text is not below a lower one.
text_lt-below : (x b a : Text) → text_lt x b ≡ false → text_lt b a ≡ false → text_lt x a ≡ false
unfolding text_lt
text_lt-below x b [] h k = refl
text_lt-below x [] (e ∷ u) h k = absurd (cc k)
text_lt-below [] (d ∷ t) (e ∷ u) h k = absurd (cc h)
text_lt-below (c ∷ s) (d ∷ t) (e ∷ u) h k = ground (arith, h, k, text_lt-below s t u)

abbrev less : Object → Object → Bool
less a b = text_lt a.key b.key

-- No object of the list is below the first.
abbrev Above : Object → List Object → Type 0
Above a l = All (λ x. less x a ≡ false) l

abbrev IsSorted : List Object → Type 0
IsSorted [] = Unit
IsSorted (a ∷ l) = Above a l × IsSorted l

Above-below : (a b : Object) (l : List Object) → Above b l → less b a ≡ false → Above a l
Above-below a b [] h k = tt
Above-below a b (x ∷ l) h k = (text_lt-below x.key b.key a.key h.0 k, Above-below a b l h.1 k)

insert-IsSorted : (a : Object) (l : List Object) → IsSorted l → IsSorted (insert less a l)
unfolding insert
insert-IsSorted a [] h = (tt, tt)
insert-IsSorted a (b ∷ l) h = elim (Bool-cases (less b a)) [
  | inl t ↦ rw t (
    All-insert (λ x. less x b ≡ false) less a l (text_lt_asym b.key a.key t) h.0,
    insert-IsSorted a l h.1,
  )
  | inr f ↦ rw f ((f, Above-below a b l h.0 f), h)
]

sort-IsSorted : (l : List Object) → IsSorted (sort less l)
unfolding sort
sort-IsSorted [] = tt
sort-IsSorted (a ∷ l) = insert-IsSorted a (sort less l) (sort-IsSorted l)

insert-Above : (a : Object) (l : List Object) → Above a l → insert less a l ≡ a ∷ l
unfolding insert
insert-Above a [] h = refl
insert-Above a (b ∷ l) h = rw (h.0) refl

sort-sorted : (l : List Object) → IsSorted l → sort less l ≡ l
unfolding sort
sort-sorted [] h = refl
sort-sorted (a ∷ l) h = rw (sort-sorted l h.1) (insert-Above a l h.0)

Above-candidates : (a : Object) (l : List Object) → Above a l → Above a (candidates l)
unfolding candidates
Above-candidates a [] h = tt
Above-candidates a (b ∷ l) h = elim (Bool-cases (is_candidate b.key)) [
  | inl t ↦ rw t (h.0, Above-candidates a l h.1)
  | inr f ↦ rw f (Above-candidates a l h.1)
]

candidates-insert :
    (a : Object) (l : List Object)
    → IsSorted l
    → candidates (insert less a l)
      ≡ (if is_candidate a.key then insert less a (candidates l) else candidates l)
unfolding candidates insert
candidates-insert a [] h = elim (Bool-cases (is_candidate a.key)) [
  | inl t ↦ rw t refl
  | inr f ↦ rw f refl
]
candidates-insert a (b ∷ l) h = elim (Bool-cases (less b a)) [
  | inl t ↦ elim (Bool-cases (is_candidate b.key)) [
    | inl p ↦ elim (Bool-cases (is_candidate a.key)) [
      | inl q ↦ let rest = rw q at (candidates-insert a l h.1) in rw (t, p, q, rest) (rw t refl)
      | inr q ↦ let rest = rw q at (candidates-insert a l h.1) in rw (t, p, q, rest) refl
    ]
    | inr p ↦ rw (t, p) (candidates-insert a l h.1)
  ]
  | inr f ↦ elim (Bool-cases (is_candidate a.key)) [
    | inl q ↦
        rw (f, q)
          (sym (
            insert-Above a (candidates (b ∷ l))
              (Above-candidates a (b ∷ l) (f, Above-below a b l h.0 f))))
    | inr q ↦ rw (f, q) refl
  ]
]

candidates-sort : (l : List Object) → candidates (sort less l) ≡ sort less (candidates l)
unfolding candidates sort
candidates-sort [] = refl
candidates-sort (a ∷ l) =
    candidates-insert a (sort less l) (sort-IsSorted l) ∙ elim (Bool-cases (is_candidate a.key)) [
      | inl t ↦ rw (t, candidates-sort l) refl
      | inr f ↦ rw (f, candidates-sort l) refl
    ]

-- The sources do not depend on the order in which the objects are listed.
pub select_sources-by_key :
    (l : List Object) (cfg : Config) → select_sources (by_key l) cfg ≡ select_sources l cfg
unfolding select_sources
select_sources-by_key l cfg =
    ap (λ m. capped cfg 0 0 (sort less m)) (candidates-sort l)
    ∙ ap (capped cfg 0 0) (sort-sorted (sort less (candidates l)) (sort-IsSorted (candidates l)))

pub All-by_key : (P : Object → Type 0) (l : List Object) → All P l → All P (by_key l)
All-by_key P l h = All-sort P less l h

mem-insert :
    (k : Text) (a : Object) (l : List Object)
    → mem k (keys_of (insert less a l)) ≡ (text_eq k a.key || mem k (keys_of l))
unfolding mem keys_of insert
mem-insert k a [] = refl
mem-insert k a (b ∷ l) = elim (Bool-cases (less b a)) [
  | inl t ↦ rw t (ground (arith, mem-insert k a l))
  | inr f ↦ rw f refl
]

mem-by_key : (k : Text) (l : List Object) → mem k (keys_of (by_key l)) ≡ mem k (keys_of l)
unfolding mem keys_of sort
mem-by_key k [] = refl
mem-by_key k (a ∷ l) =
    mem-insert k a (sort less l) ∙ ap (λ b. text_eq k a.key || b) (mem-by_key k l)

-- Nor do the sources of a manifest that are still there.
pub stale_of-by_key :
    (l : List Object) (keys : List Text)
    → stale_of (keys_of (by_key l)) keys ≡ stale_of (keys_of l) keys
unfolding stale_of
stale_of-by_key l [] = refl
stale_of-by_key l (k ∷ keys) = rw (mem-by_key k l, stale_of-by_key l keys) refl

-- One object among others of a kind: those in front of it and those behind it.
pub record Splits (P : Object → Type 0) (o : Object) (l : List Object) : Type 0 where
  pub front : List Object
  pub back : List Object
  pub whole : l ≡ front ++ o ∷ back
  pub front_All : All P front
  pub back_All : All P back

insert-front :
    (P : Object → Type 0) (a o : Object) (front back : List Object)
    → P a
    → All P front
    → All P back
    → Splits P o (insert less a (front ++ o ∷ back))
unfolding insert
insert-front P a o [] back p h k = elim (Bool-cases (less o a)) [
  | inl t ↦ record {
    front = [];
    back = insert less a back;
    whole = rw t refl;
    front_All = tt;
    back_All = All-insert P less a back p k;
  }
  | inr f ↦ record {
    front = a ∷ [];
    back = back;
    whole = rw f refl;
    front_All = (p, tt);
    back_All = k;
  }
]
insert-front P a o (b ∷ front) back p h k = elim (Bool-cases (less b a)) [
  | inl t ↦
      let rest = insert-front P a o front back p h.1 k in
      record {
        front = b ∷ rest.front;
        back = rest.back;
        whole = rw t (ap (λ l. b ∷ l) rest.whole);
        front_All = (h.0, rest.front_All);
        back_All = rest.back_All;
      }
  | inr f ↦ record {
    front = a ∷ b ∷ front;
    back = back;
    whole = rw f refl;
    front_All = (p, h);
    back_All = k;
  }
]

pub Splits-by_key :
    (P : Object → Type 0) (o : Object) (l : List Object)
    → All P l
    → Splits P o (by_key (l ++ o ∷ []))
unfolding sort insert
Splits-by_key P o [] h = record {
  front = [];
  back = [];
  whole = refl;
  front_All = tt;
  back_All = tt;
}
Splits-by_key P o (a ∷ l) h =
    let s = Splits-by_key P o l h.1 in
    rw (s.whole) (insert-front P a o s.front s.back h.0 s.front_All s.back_All)
