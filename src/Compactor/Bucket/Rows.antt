-- ===== src/Compactor/Bucket/Rows.antt =====
-- The rows that a query over the bucket reads, as often as they are there.
use cdk_log_to_s.Prelude.{
  ℕ, suc, ◌+◌, Text, codes, text_eq, text_eq_iff, Bool, true, false, ◌||◌, not, if◌then◌else◌, List,
  [], ◌∷◌, ◌++◌, Option, none, some, ◌or_else◌, ◌≡◌, ap₂, refl, sym, ap, ◌∙◌, arith, Bool-cases,
  inl, inr, All,
}
use cdk_log_to_s.Go.Strings.{has_prefix}
use cdk_log_to_s.Compactor.{Entry, Tools, path_base, insert, sort}
use cdk_log_to_s.Compactor.Bucket.{Bucket, mem, find, remove}
use cdk_log_to_s.Compactor.Bucket.Laws.{
  remove-nil, remove-remove, find-remove, find-remove-none, find-append_other,
}

-- Athena skips files whose name begins with an underscore or a dot.
unfoldable pub is_visible : Text → Bool
is_visible key =
    let base = path_base key in not (has_prefix base (codes "_") || has_prefix base (codes "."))

unfoldable pub count : (Entry → Bool) → List Entry → ℕ
count p [] = 0
count p (e ∷ entries) = if p e then suc (count p entries) else count p entries

pub count-append : (p : Entry → Bool) (a b : List Entry) → count p (a ++ b) ≡ count p a + count p b
unfolding count
count-append p [] b = omega arith
count-append p (e ∷ a) b = ground (arith, count-append p a b)

count-insert :
    (p : Entry → Bool) (less : Entry → Entry → Bool) (e : Entry) (l : List Entry)
    → count p (insert less e l) ≡ count p (e ∷ l)
unfolding count insert
count-insert p less e [] = refl
count-insert p less e (d ∷ l) = ground (arith, count-insert p less e l)

pub count-sort :
    (p : Entry → Bool) (less : Entry → Entry → Bool) (l : List Entry)
    → count p (sort less l) ≡ count p l
unfolding sort count
count-sort p less [] = refl
count-sort p less (e ∷ l) =
    count-insert p less e (sort less l) ∙ ground (arith, count-sort p less l)

-- No key is there twice.
abbrev pub IsUnique : Bucket → Type 0
IsUnique [] = Unit
IsUnique ((k, b) ∷ s) = (find k s ≡ none) × IsUnique s

abbrev pub IsDistinct : List Text → Type 0
IsDistinct [] = Unit
IsDistinct (k ∷ keys) = (mem k keys ≡ false) × IsDistinct keys

pub IsUnique-remove : (keys : List Text) (s : Bucket) → IsUnique s → IsUnique (remove keys s)
unfolding remove
IsUnique-remove keys [] u = tt
IsUnique-remove keys ((k, b) ∷ s) u = elim (Bool-cases (mem k keys)) [
  | inl t ↦ rw t (IsUnique-remove keys s u.1)
  | inr f ↦ rw f (find-remove-none k keys s u.0, IsUnique-remove keys s u.1)
]

remove-absent : (k : Text) (s : Bucket) → find k s ≡ none → remove (k ∷ []) s ≡ s
unfolding find remove mem
remove-absent k [] h = refl
remove-absent k ((j, b) ∷ s) h = ground (arith, text_eq_iff k j, text_eq_iff j k, remove-absent k s)

module _ (tools : Tools) where
  -- What a file adds to the table.
  unfoldable pub own : Text → Text → List Entry
  own key body = if is_visible key then tools.read body or_else [] else []

  unfoldable pub table : Bucket → List Entry
  unfolding own
  table [] = []
  table ((k, b) ∷ s) = own k b ++ table s

  -- The rows of the sources, in the order of their keys.
  unfoldable pub both : Option (List Entry) → Option (List Entry) → Option (List Entry)
  both none m = none
  both (some a) none = none
  both (some a) (some b) = some (a ++ b)

  unfoldable pub read_body : Option Text → Option (List Entry)
  read_body none = none
  read_body (some b) = tools.read b

  unfoldable pub gathered : List Text → Bucket → Option (List Entry)
  unfolding both read_body
  gathered [] s = some []
  gathered (k ∷ keys) s = both (read_body (find k s)) (gathered keys s)

  both-some :
      (m n : Option (List Entry)) (e : List Entry)
      → both m n ≡ some e
      → (a : List Entry) × (b : List Entry) × (m ≡ some a) × (n ≡ some b) × (e ≡ a ++ b)
  unfolding both
  both-some none n e h = cc
  both-some (some a) none e h = cc
  both-some (some a) (some b) e h = (a, b, refl, refl, cc)

  read_body-some :
      (o : Option Text) (e : List Entry)
      → read_body o ≡ some e
      → (b : Text) × (o ≡ some b) × (tools.read b ≡ some e)
  unfolding read_body
  read_body-some none e h = cc
  read_body-some (some b) e h = (b, refl, h)

  -- A key that is not asked for does not count.
  pub gathered-remove :
      (keys : List Text) (k : Text) (s : Bucket)
      → mem k keys ≡ false
      → gathered keys (remove (k ∷ []) s) ≡ gathered keys s
  unfolding gathered mem
  gathered-remove [] k s h = refl
  gathered-remove (j ∷ keys) k s h =
      let apart : mem j (k ∷ []) ≡ false = ground (arith, h, text_eq_iff j k, text_eq_iff k j) in
      ap₂ both (ap read_body (find-remove j (k ∷ []) s apart))
        (gathered-remove keys k s (ground (arith, h)))

  pub gathered-append :
      (keys : List Text) (k b : Text) (s : Bucket)
      → mem k keys ≡ false
      → gathered keys (s ++ (k, b) ∷ []) ≡ gathered keys s
  unfolding gathered mem
  gathered-append [] k b s h = refl
  gathered-append (j ∷ keys) k b s h =
      let apart : text_eq j k ≡ false = ground (arith, h, text_eq_iff j k, text_eq_iff k j) in
      ap₂ both (ap read_body (find-append_other j k b s apart))
        (gathered-append keys k b s (ground (arith, h)))

  module _ (p : Entry → Bool) where
    pub count-table-append :
        (s t : Bucket) → count p (table (s ++ t)) ≡ count p (table s) + count p (table t)
    unfolding table count
    count-table-append [] t = omega arith
    count-table-append ((k, b) ∷ s) t = omega (
      arith,
      count-append p (own k b) (table (s ++ t)),
      count-append p (own k b) (table s),
      count-table-append s t,
    )

    count-table-remove_one :
        (k b : Text) (s : Bucket)
        → IsUnique s
        → find k s ≡ some b
        → count p (table s) ≡ count p (own k b) + count p (table (remove (k ∷ []) s))
    unfolding table find remove mem
    count-table-remove_one k b [] u h = cc
    count-table-remove_one k b ((j, c) ∷ s) u h = elim (Bool-cases (text_eq k j)) [
      | inl t ↦
          let same : k ≡ j = (text_eq_iff k j).0 t in
          let other : text_eq j k ≡ true = (text_eq_iff j k).1 (sym same) in
          let body : c ≡ b = ground (arith, h, t) in
          rw (other, remove-absent k s (ap (λ x. find x s) same ∙ u.0), same, body)
            (count-append p (own j b) (table s))
      | inr f ↦
          let other : text_eq j k ≡ false = ground (arith, f, text_eq_iff j k, text_eq_iff k j) in
          rw other (
            omega (
              arith,
              count-append p (own j c) (table s),
              count-append p (own j c) (table (remove (k ∷ []) s)),
              count-table-remove_one k b s u.1 (ground (arith, h, f)),
            ))
    ]

    own-visible :
        (k b : Text) (rows : List Entry)
        → is_visible k ≡ true
        → tools.read b ≡ some rows
        → own k b ≡ rows
    unfolding own
    own-visible k b rows v h = rw (v, h)

    -- Removing the sources takes exactly their rows away.
    pub count-table-remove :
        (keys : List Text) (s : Bucket) (rows : List Entry)
        → IsUnique s
        → IsDistinct keys
        → All (λ k. is_visible k ≡ true) keys
        → gathered keys s ≡ some rows
        → count p (table s) ≡ count p (table (remove keys s)) + count p rows
    unfolding gathered
    count-table-remove [] s rows u d v h =
        let none_left : count p rows ≡ 0 = unfold count in ground (arith, h) in
        omega (arith, none_left, ap (λ t. count p (table t)) (remove-nil s))
    count-table-remove (k ∷ keys) s rows u d v h =
        let (a, more, ha, hm, e) = both-some (read_body (find k s)) (gathered keys s) rows h in
        let (b, found, read) = read_body-some (find k s) a ha in
        let ih =
          count-table-remove keys (remove (k ∷ []) s) more (IsUnique-remove (k ∷ []) s u) d.1 v.1
            (gathered-remove keys k s d.0 ∙ hm) in
        omega (
          arith,
          count-table-remove_one k b s u found,
          ap (count p) (own-visible k b a v.0 read),
          ih,
          ap (λ t. count p (table t)) (remove-remove (k ∷ []) keys s),
          count-append p a more,
          ap (count p) e,
        )
