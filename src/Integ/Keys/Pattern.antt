-- ===== src/Integ/Keys/Pattern.antt =====
-- The keys that `KEY_PATTERN` of scripts/verify-integ.ts accepts.
use cdk_log_to_s.Prelude.{
  ℕ, zero, suc, Text, codes, Bool, true, ◌&&◌, List, [], ◌∷◌, ◌++◌, ◌==◌, ==_iff, length, All, ◌≡◌,
  ◌≢◌, ◌↔◌, inl, inr, Bool-cases, refl, sym, ap, ◌∙◌, arith,
}
use cdk_log_to_s.Integ.Keys.{
  Piece, plus, matches, literal, digits, is_digit, is_name_unit, key_pattern, key_test,
}

-- A run of so many units of a class.
pub record Runs (p : ℕ → Bool) (n : ℕ) (s : Text) : Type 0 where
  pub count : length s ≡ n
  pub each : All (λ c. p c ≡ true) s

-- A Parquet file that lies flat in the partition of a day below `logs/`.
pub record IsKey (key : Text) : Type 0 where
  pub year : Text
  pub month : Text
  pub date : Text
  pub name : Text
  pub year-Runs : Runs is_digit 4 year
  pub month-Runs : Runs is_digit 2 month
  pub date-Runs : Runs is_digit 2 date
  pub some_name : name ≢ []
  pub name_units : All (λ c. is_name_unit c ≡ true) name
  pub whole :
      key
      ≡ codes "logs/"
        ++ (year
            ++ (codes "/"
                ++ (month ++ (codes "/" ++ (date ++ (codes "/" ++ (name ++ codes ".parquet")))))))

and_parts : (a b : Bool) → (a && b) ≡ true → (a ≡ true) × (b ≡ true)
and_parts a b h = ground arith

and_whole : (a b : Bool) → a ≡ true → b ≡ true → (a && b) ≡ true
and_whole a b h k = ground arith

matches-nil_iff : (s : Text) → (matches [] s ≡ true) ↔ (s ≡ [])
unfolding matches
matches-nil_iff [] = ((λ _. refl), (λ _. refl))
matches-nil_iff (c ∷ s) = ((λ h. absurd (cc h)), (λ h. absurd (cc h)))

module _ (pieces : List Piece) where
  matches-literal :
      (t s : Text)
      → matches (literal t ++ pieces) s ≡ true
      → (r : Text) × (s ≡ t ++ r) × (matches pieces r ≡ true)
  unfolding matches
  matches-literal [] s h = (s, refl, h)
  matches-literal (c ∷ t) [] h = absurd (cc h)
  matches-literal (c ∷ t) (d ∷ s) h =
      let (same, rest) = and_parts (c == d) _ h in
      let (r, e, k) = matches-literal t s rest in
      (r, ap (λ x. d ∷ x) e ∙ ap (λ x. x ∷ t ++ r) (sym ((==_iff c d).0 same)), k)

  literal-matches :
      (t r : Text) → matches pieces r ≡ true → matches (literal t ++ pieces) (t ++ r) ≡ true
  unfolding matches
  literal-matches [] r h = h
  literal-matches (c ∷ t) r h = and_whole (c == c) _ ((==_iff c c).1 refl) (literal-matches t r h)

  matches-digits :
      (n : ℕ) (s : Text)
      → matches (digits n ++ pieces) s ≡ true
      → (d : Text) × (r : Text) × Runs is_digit n d × (s ≡ d ++ r) × (matches pieces r ≡ true)
  unfolding matches
  matches-digits zero s h = ([], s, record { count = refl; each = tt }, refl, h)
  matches-digits (suc n) [] h = absurd (cc h)
  matches-digits (suc n) (c ∷ s) h =
      let (this, rest) = and_parts (is_digit c) _ h in
      let (d, r, runs, e, k) = matches-digits n s rest in
      (
        c ∷ d,
        r,
        record { count = ap suc runs.count; each = (this, runs.each) },
        ap (λ x. c ∷ x) e,
        k,
      )

  digits-matches :
      (n : ℕ) (d r : Text)
      → Runs is_digit n d
      → matches pieces r ≡ true
      → matches (digits n ++ pieces) (d ++ r) ≡ true
  unfolding matches
  digits-matches zero [] r runs h = h
  digits-matches zero (c ∷ d) r runs h = absurd (omega (arith, runs.count))
  digits-matches (suc n) [] r runs h = absurd (omega (arith, runs.count))
  digits-matches (suc n) (c ∷ d) r runs h =
      and_whole (is_digit c) _ runs.each.0
        (digits-matches n d r (record { count = omega (arith, runs.count); each = runs.each.1 }) h)

  module _ (p : ℕ → Bool) where
    matches-plus :
        (s : Text)
        → matches (plus p ∷ pieces) s ≡ true
        → (d : Text) × (r : Text) × (d ≢ [])
          × All (λ c. p c ≡ true) d
          × (s ≡ d ++ r)
          × (matches pieces r ≡ true)
    unfolding matches
    matches-plus [] h = absurd (cc h)
    matches-plus (c ∷ s) h =
        let (this, rest) = and_parts (p c) _ h in
        elim (Bool-cases (matches pieces s)) [
          | inl e ↦ (c ∷ [], s, (λ k. cc k), (this, tt), refl, e)
          | inr e ↦
              let more : matches (plus p ∷ pieces) s ≡ true = ground (arith, e, rest) in
              let (d, r, ne, all, k, m) = matches-plus s more in
              (c ∷ d, r, (λ k. cc k), (this, all), ap (λ x. c ∷ x) k, m)
        ]

    plus-matches :
        (d r : Text)
        → d ≢ []
        → All (λ c. p c ≡ true) d
        → matches pieces r ≡ true
        → matches (plus p ∷ pieces) (d ++ r) ≡ true
    unfolding matches
    plus-matches [] r ne all h = absurd (ne refl)
    plus-matches (c ∷ []) r ne all h = ground (arith, all.0, h)
    plus-matches (c ∷ e ∷ d) r ne all h =
        ground (arith, all.0, plus-matches (e ∷ d) r (λ k. cc k) all.1 h)

-- The end of the pattern, from the name on.
file_test :
    (s : Text)
    → matches (plus is_name_unit ∷ (literal (codes ".parquet") ++ [])) s ≡ true
    → (name : Text) × (name ≢ [])
      × All (λ c. is_name_unit c ≡ true) name
      × (s ≡ name ++ codes ".parquet")
file_test s h =
    let (name, r, ne, all, e, k) =
      matches-plus (literal (codes ".parquet") ++ []) is_name_unit s h in
    let (tail, f, m) = matches-literal [] (codes ".parquet") r k in
    (
      name,
      ne,
      all,
      e ∙ ap (λ x. name ++ x) (f ∙ ap (λ x. codes ".parquet" ++ x) ((matches-nil_iff tail).0 m)),
    )

test_file :
    (name : Text)
    → name ≢ []
    → All (λ c. is_name_unit c ≡ true) name
    → matches (plus is_name_unit ∷ (literal (codes ".parquet") ++ [])) (name ++ codes ".parquet")
      ≡ true
test_file name ne all =
    plus-matches (literal (codes ".parquet") ++ []) is_name_unit name (codes ".parquet") ne all
      (literal-matches [] (codes ".parquet") [] ((matches-nil_iff []).1 refl))

abbrev file : List Piece
file = plus is_name_unit ∷ (literal (codes ".parquet") ++ [])

-- A run of digits, a slash and the rest.
step_test :
    (n : ℕ) (pieces : List Piece) (s : Text)
    → matches (digits n ++ (literal (codes "/") ++ pieces)) s ≡ true
    → (d : Text) × (r : Text) × Runs is_digit n d
      × (s ≡ d ++ (codes "/" ++ r))
      × (matches pieces r ≡ true)
step_test n pieces s h =
    let (d, q, runs, e, k) = matches-digits (literal (codes "/") ++ pieces) n s h in
    let (r, f, m) = matches-literal pieces (codes "/") q k in
    (d, r, runs, e ∙ ap (λ x. d ++ x) f, m)

test_step :
    (n : ℕ) (pieces : List Piece) (d r : Text)
    → Runs is_digit n d
    → matches pieces r ≡ true
    → matches (digits n ++ (literal (codes "/") ++ pieces)) (d ++ (codes "/" ++ r)) ≡ true
test_step n pieces d r runs h =
    digits-matches (literal (codes "/") ++ pieces) n d (codes "/" ++ r) runs
      (literal-matches pieces (codes "/") r h)

key_test-IsKey : (key : Text) → key_test key ≡ true → IsKey key
unfolding key_test key_pattern
key_test-IsKey key h =
    let (s, e, hs) = matches-literal _ (codes "logs/") key h in
    let (year, t, ys, f, ht) = step_test 4 _ s hs in
    let (month, u, ms, g, hu) = step_test 2 _ t ht in
    let (date, v, ds, i, hv) = step_test 2 file u hu in
    let (name, ne, all, j) = file_test v hv in
    record {
      year = year;
      month = month;
      date = date;
      name = name;
      year-Runs = ys;
      month-Runs = ms;
      date-Runs = ds;
      some_name = ne;
      name_units = all;
      whole = cc (e, f, g, i, j);
    }

IsKey-key_test : (key : Text) → IsKey key → key_test key ≡ true
unfolding key_test key_pattern
IsKey-key_test key k =
    let tail = test_file k.name k.some_name k.name_units in
    rw k.whole (
      literal-matches _ (codes "logs/") _ (
        test_step 4 _ k.year _ k.year-Runs
          (test_step 2 _ k.month _ k.month-Runs (test_step 2 file k.date _ k.date-Runs tail))))

pub key_test_iff : (key : Text) → (key_test key ≡ true) ↔ IsKey key
key_test_iff key = (key_test-IsKey key, IsKey-key_test key)
