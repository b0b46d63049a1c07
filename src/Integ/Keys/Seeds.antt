-- ===== src/Integ/Keys/Seeds.antt =====
-- The copies that scripts/verify-integ.ts seeds: their names, and the keys they get.
use cdk_log_to_s.Prelude.{
  ltb, number_text-1, number_text-2, number_text-4, ℕ, ◌+◌, ◌/◌, ◌%◌, ◌≤◌, ◌<◌, Text, codes,
  number_text, text_eq, text_eq_iff, true, false, [], ◌∷◌, ◌++◌, ◌==◌, append_assoc, length,
  length-append, All, All-append, ◌≡◌, ◌≢◌, inl, inr, Bool-cases, refl, ap, ◌∙◌, arith,
}
use cdk_log_to_s.Integ.Services.{UtcDate}
use cdk_log_to_s.Integ.Program.{date_path}
use cdk_log_to_s.Integ.Keys.{
  is_digit, is_name_unit, key_test, after_last_slash, base_name, replace_suffix, seed_name,
  pad_start_2,
}
use cdk_log_to_s.Integ.Keys.Pattern.{Runs, IsKey, key_test_iff}

-- No slash.
abbrev pub IsFlat : Text → Type 0
IsFlat s = All (λ c. (c == b'/') ≡ false) s

after_last_slash-flat : (kept s : Text) → IsFlat s → after_last_slash kept s ≡ kept
unfolding after_last_slash
after_last_slash-flat kept [] h = refl
after_last_slash-flat kept (c ∷ s) h = rw (h.0) (after_last_slash-flat kept s h.1)

pub after_last_slash-append :
    (front kept s : Text) → IsFlat s → after_last_slash kept (front ++ (codes "/" ++ s)) ≡ s
unfolding after_last_slash
after_last_slash-append [] kept s h = after_last_slash-flat s s h
after_last_slash-append (c ∷ front) kept s h = elim (Bool-cases (c == b'/')) [
  | inl e ↦ rw e (after_last_slash-append front (front ++ (codes "/" ++ s)) s h)
  | inr e ↦ rw e (after_last_slash-append front kept s h)
]

replace_suffix-append :
    (c : ℕ) (suffix replacement stem : Text)
    → replace_suffix (c ∷ suffix) replacement (stem ++ c ∷ suffix) ≡ stem ++ replacement
unfolding replace_suffix
replace_suffix-append c suffix replacement [] = rw ((text_eq_iff (c ∷ suffix) (c ∷ suffix)).1 refl)
replace_suffix-append c suffix replacement (d ∷ stem) =
    elim (Bool-cases (text_eq (d ∷ stem ++ c ∷ suffix) (c ∷ suffix))) [
      | inl e ↦ absurd (
          omega (
            arith,
            ap length ((text_eq_iff (d ∷ stem ++ c ∷ suffix) (c ∷ suffix)).0 e),
            length-append {0} stem (c ∷ suffix),
          ))
      | inr e ↦ rw e (ap (λ x. d ∷ x) (replace_suffix-append c suffix replacement stem))
    ]

name_unit-flat : (c : ℕ) → is_name_unit c ≡ true → (c == b'/') ≡ false
unfolding is_name_unit is_digit
name_unit-flat c h = ground (arith, h)

All-map : {P Q : ℕ → Type 0} (s : Text) → ((c : ℕ) → P c → Q c) → All P s → All Q s
All-map [] f h = tt
All-map (c ∷ s) f h = (f c h.0, All-map s f h.1)

base_name-IsKey : (source : Text) (k : IsKey source) → base_name source ≡ k.name ++ codes ".parquet"
unfolding base_name
base_name-IsKey source k =
    let front : Text =
      codes "logs/" ++ (k.year ++ (codes "/" ++ (k.month ++ (codes "/" ++ k.date)))) in
    let tail = k.name ++ codes ".parquet" in
    let split : source ≡ front ++ (codes "/" ++ tail) = k.whole ∙ simp append_assoc refl in
    let flat : IsFlat tail =
      All-append (λ c. (c == b'/') ≡ false) k.name (codes ".parquet")
        (All-map k.name name_unit-flat k.name_units)
        (refl, (refl, (refl, (refl, (refl, (refl, (refl, (refl, tt)))))))) in
    ap (after_last_slash source) split ∙ after_last_slash-append front source tail flat

-- The name of a copy.
seed_name-IsKey :
    (source : Text) (k : IsKey source) (i : ℕ)
    → seed_name source i ≡ k.name ++ (codes "-seed" ++ number_text i ++ codes ".parquet")
unfolding seed_name
seed_name-IsKey source k i = rw (base_name-IsKey source k) (
    replace_suffix-append b'.' (codes "parquet")
      (codes "-seed" ++ number_text i ++ codes ".parquet") k.name)

-- A date of the calendar, in a year of four digits.
pub record IsDate (d : UtcDate) : Type 0 where
  pub year_from : 1000 ≤ d.full_year
  pub year_to : d.full_year ≤ 9999
  pub month_to : d.month ≤ 11
  pub date_to : d.date ≤ 31

digit-IsDigit : (n : ℕ) → n < 10 → is_digit (48 + n) ≡ true
unfolding is_digit
digit-IsDigit n h = ground (arith, h)

pad_start_2-Runs : (n : ℕ) → n < 100 → Runs is_digit 2 (pad_start_2 (number_text n))
unfolding pad_start_2
pad_start_2-Runs n h = elim (Bool-cases (ltb n 10)) [
  | inl e ↦ rw (number_text-1 n (ground (arith, e))) (record {
    count = refl;
    each = (digit-IsDigit 0 (omega arith), (digit-IsDigit n (ground (arith, e)), tt));
  })
  | inr e ↦ rw (number_text-2 n (ground (arith, e)) h) (record {
    count = refl;
    each = (digit-IsDigit (n / 10) (omega (arith, h)), (digit-IsDigit (n % 10) (omega arith), tt));
  })
]

year-Runs : (n : ℕ) → 1000 ≤ n → n ≤ 9999 → Runs is_digit 4 (number_text n)
year-Runs n h k = rw (number_text-4 n h (omega (arith, k))) (record {
  count = refl;
  each = (
    digit-IsDigit _ (omega (arith, k)),
    (
      digit-IsDigit _ (omega arith),
      (digit-IsDigit _ (omega arith), (digit-IsDigit _ (omega arith), tt)),
    ),
  );
})

not_nil : (s t : Text) → s ≢ [] → s ++ t ≢ []
not_nil [] t h k = h refl
not_nil (c ∷ s) t h k = cc k

seed_units : (i : ℕ) → i < 10 → All (λ c. is_name_unit c ≡ true) (codes "-seed" ++ number_text i)
unfolding is_name_unit is_digit
seed_units i h =
    rw (number_text-1 i h) (refl, (refl, (refl, (refl, (refl, (ground (arith, h), tt))))))

-- The copy of an object whose key matches the pattern, under the name of a seed with one digit and
-- in the partition of a date of a year with four digits, has a key that matches the pattern too.
pub seed_name-key_test :
    (source : Text) (i : ℕ) (d : UtcDate)
    → key_test source ≡ true
    → i < 10
    → IsDate d
    → key_test (codes "logs/" ++ (date_path d ++ codes "/") ++ seed_name source i) ≡ true
unfolding date_path
seed_name-key_test source i d h small day =
    let k = (key_test_iff source).0 h in
    (key_test_iff _).1 (record {
      year = number_text d.full_year;
      month = pad_start_2 (number_text (d.month + 1));
      date = pad_start_2 (number_text d.date);
      name = k.name ++ (codes "-seed" ++ number_text i);
      year-Runs = year-Runs d.full_year day.year_from day.year_to;
      month-Runs = pad_start_2-Runs (d.month + 1) (omega (arith, day.month_to));
      date-Runs = pad_start_2-Runs d.date (omega (arith, day.date_to));
      some_name = not_nil k.name _ k.some_name;
      name_units =
          All-append (λ c. is_name_unit c ≡ true) k.name (codes "-seed" ++ number_text i)
            k.name_units (seed_units i small);
      whole = rw (seed_name-IsKey source k i) (simp append_assoc refl);
    })
