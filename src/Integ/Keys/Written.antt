-- ===== src/Integ/Keys/Written.antt =====
-- The keys that the extension writes, `BuildKey` of extension-go/internal/layout, under the
-- pattern that scripts/verify-integ.ts has for them.
use cdk_log_to_s.Prelude.{
  ltb, Bool-cases, ltb→lt, number_text-1, number_text-2, number_text-3, number_text-4, ℕ, ◌+◌, ◌/◌,
  ◌%◌, ◌<◌, Text, codes, true, [], ◌∷◌, ◌++◌, append_assoc, length, length-append, All, All-append,
  ◌≡◌, ◌≢◌, inl, inr, refl, ap, arith,
}
use cdk_log_to_s.Integ.Keys.{is_digit, is_name_unit, key_test}
use cdk_log_to_s.Integ.Keys.Pattern.{Runs, key_test_iff}
use cdk_log_to_s.Layout.{
  normalize_prefix, Day, padded, partition_path, is_kept, sanitize, Entropy, random_suffix,
  build_key,
}
use cdk_log_to_s.Layout.Names.{IsKept, IsName, IsRandom, sanitize-IsName, random_suffix-All}

is_digit-below : (n : ℕ) → n < 10 → is_digit (48 + n) ≡ true
unfolding is_digit
is_digit-below n h = ground arith

-- Two digits for a month or a date, four for a year.
padded-2 : (n : ℕ) → n < 100 → Runs is_digit 2 (padded 2 n)
unfolding padded is_digit
padded-2 n h = elim (Bool-cases (ltb n 10)) [
  | inl e ↦
      rw (number_text-1 n (ltb→lt n 10 e))
        (record { count = refl; each = (refl, (is_digit-below n (ltb→lt n 10 e), tt)) })
  | inr e ↦ rw (number_text-2 n (ground (arith, e)) h) (record {
    count = refl;
    each =
        (is_digit-below (n / 10) (omega (arith, h)), (is_digit-below (n % 10) (omega arith), tt));
  })
]

padded-4 : (n : ℕ) → n < 10000 → Runs is_digit 4 (padded 4 n)
unfolding padded is_digit
padded-4 n h = elim (Bool-cases (ltb n 10)) [
  | inl e ↦ rw (number_text-1 n (ltb→lt n 10 e)) (record {
    count = refl;
    each = (refl, (refl, (refl, (is_digit-below n (ltb→lt n 10 e), tt))));
  })
  | inr e ↦ elim (Bool-cases (ltb n 100)) [
    | inl f ↦ rw (number_text-2 n (ground (arith, e)) (ltb→lt n 100 f)) (record {
      count = refl;
      each = (
        refl,
        (
          refl,
          (
            is_digit-below (n / 10) (ground (arith, f)),
            (is_digit-below (n % 10) (omega arith), tt),
          ),
        ),
      );
    })
    | inr f ↦ elim (Bool-cases (ltb n 1000)) [
      | inl g ↦ rw (number_text-3 n (ground (arith, f)) (ltb→lt n 1000 g)) (record {
        count = refl;
        each = (
          refl,
          (
            is_digit-below (n / 10 / 10) (ground (arith, g)),
            (
              is_digit-below (n / 10 % 10) (omega arith),
              (is_digit-below (n % 10) (omega arith), tt),
            ),
          ),
        );
      })
      | inr g ↦ rw (number_text-4 n (ground (arith, g)) h) (record {
        count = refl;
        each = (
          is_digit-below (n / 10 / 10 / 10) (omega (arith, h)),
          (
            is_digit-below (n / 10 / 10 % 10) (omega arith),
            (
              is_digit-below (n / 10 % 10) (omega arith),
              (is_digit-below (n % 10) (omega arith), tt),
            ),
          ),
        );
      })
    ]
  ]
]

All-kept : (t : Text) → All IsKept t → All (λ c. is_name_unit c ≡ true) t
unfolding is_kept is_name_unit is_digit
All-kept [] h = tt
All-kept (c ∷ t) h = (ground (arith, h.0), All-kept t h.1)

abbrev pub file_name : Text → Text → Entropy → Text
file_name function_name correlation_id e =
    sanitize function_name (codes "unknown")
    ++ (codes "-" ++ (sanitize correlation_id (codes "none") ++ (codes "-" ++ random_suffix e)))

pub unknown-IsName : IsName (codes "unknown")
unfolding is_kept
unknown-IsName =
    (omega arith, omega arith, (refl, (refl, (refl, (refl, (refl, (refl, (refl, tt))))))))

none-IsName : IsName (codes "none")
unfolding is_kept
none-IsName = (omega arith, omega arith, (refl, (refl, (refl, (refl, tt)))))

pub dash-All : All IsKept (codes "-")
unfolding is_kept
dash-All = (refl, tt)

pub file_name-All :
    (function_name correlation_id : Text) (e : Entropy)
    → IsRandom e
    → All IsKept (file_name function_name correlation_id e)
file_name-All f c e h =
    let ending : All IsKept (codes "-" ++ random_suffix e) =
      All-append IsKept (codes "-") (random_suffix e) dash-All (random_suffix-All e h) in
    All-append IsKept (sanitize f (codes "unknown")) _
      (sanitize-IsName f (codes "unknown") unknown-IsName).2
      (All-append IsKept (codes "-") (sanitize c (codes "none") ++ (codes "-" ++ random_suffix e))
        dash-All
        (All-append IsKept (sanitize c (codes "none")) (codes "-" ++ random_suffix e)
          (sanitize-IsName c (codes "none") none-IsName).2 ending))

file_name-some :
    (function_name correlation_id : Text) (e : Entropy)
    → file_name function_name correlation_id e ≢ []
file_name-some f c e h =
    let bound = (sanitize-IsName f (codes "unknown") unknown-IsName).0 in
    absurd (
      omega (
        arith,
        ap length h,
        length-append {0} (sanitize f (codes "unknown"))
            (codes "-" ++ (sanitize c (codes "none") ++ (codes "-" ++ random_suffix e))),
        bound,
      ))

-- Where the prefix normalises to `logs/`, on a day of a year below 10000, with month and date
-- below 100, every key that the extension makes is accepted by the pattern of the integration
-- check, whatever the names of the function and of the correlation are, and also if the random
-- bytes are not to be had.
pub build_key-key_test :
    (prefix : Text) (day : Day) (function_name correlation_id : Text) (e : Entropy)
    → normalize_prefix prefix ≡ codes "logs/"
    → day.year < 10000
    → day.month < 100
    → day.date < 100
    → IsRandom e
    → key_test (build_key prefix day function_name correlation_id e) ≡ true
unfolding build_key partition_path
build_key-key_test prefix day f c e p y m d h = (key_test_iff _).1 (record {
  year = padded 4 day.year;
  month = padded 2 day.month;
  date = padded 2 day.date;
  name = file_name f c e;
  year-Runs = padded-4 day.year y;
  month-Runs = padded-2 day.month m;
  date-Runs = padded-2 day.date d;
  some_name = file_name-some f c e;
  name_units = All-kept _ (file_name-All f c e h);
  whole = rw p (simp append_assoc);
})
