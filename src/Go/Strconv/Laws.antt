-- ===== src/Go/Strconv/Laws.antt =====
-- `Atoi` reads what `${n}` writes, and when a duration does not wrap.
use cdk_log_to_s.Prelude.{
  ℕ, zero, suc, ◌+◌, ◌/◌, ◌%◌, ◌<◌, ◌≡◌, ◌≢◌, Text, [], ◌∷◌, number_text, digits_fuel, ◌==◌, lt→ltb,
  Bool-cases, inl, inr, refl, ap, ◌∙◌, arith, some, true, false, bool_text, Bool, text_eq,
}
use cdk_log_to_s.Go.Strconv.{
  ℤ, is_digit, digits_value, unsigned, positive, atoi, int_limit, to_int64, parse_bool,
}

is_digit-digit : (n : ℕ) → is_digit (48 + n % 10) ≡ true
unfolding is_digit
is_digit-digit n = ground arith

-- The digits that are written stand for the number, in front of the digits behind them.
digits_value-digits_fuel :
    (f n : ℕ) (acc : Text) → n < f → digits_value 0 (digits_fuel f n acc) ≡ digits_value n acc
unfolding digits_fuel digits_value
digits_value-digits_fuel zero n acc h = absurd (omega (arith, h))
digits_value-digits_fuel (suc f) n acc h = elim (Bool-cases (n / 10 == 0)) [
  | inl e ↦ rw (e, is_digit-digit n) (ap (λ m. digits_value m acc) (ground (arith, e)))
  | inr e ↦ rw e (
      digits_value-digits_fuel f (n / 10) ((48 + n % 10) ∷ acc) (ground (arith, e, h))
      ∙ rw (is_digit-digit n) (ap (λ m. digits_value m acc) (omega arith)))
]

-- The first unit of a text is a digit.
abbrev Starts : Text → Type 0
Starts [] = ⊥
Starts (c ∷ t) = is_digit c ≡ true

digits_fuel-Starts : (f n : ℕ) (acc : Text) → Starts acc → Starts (digits_fuel f n acc)
unfolding digits_fuel
digits_fuel-Starts zero n acc h = h
digits_fuel-Starts (suc f) n acc h = elim (Bool-cases (n / 10 == 0)) [
  | inl e ↦ rw e (is_digit-digit n)
  | inr e ↦ rw e (digits_fuel-Starts f (n / 10) ((48 + n % 10) ∷ acc) (is_digit-digit n))
]

number_text-Starts : (n : ℕ) → Starts (number_text n)
unfolding number_text digits_fuel
number_text-Starts n = elim (Bool-cases (n / 10 == 0)) [
  | inl e ↦ rw e (is_digit-digit n)
  | inr e ↦ rw e (digits_fuel-Starts n (n / 10) ((48 + n % 10) ∷ []) (is_digit-digit n))
]

Starts-some : (t : Text) → Starts t → t ≢ []
Starts-some [] h k = h
Starts-some (c ∷ t) h k = cc

pub number_text-some : (n : ℕ) → number_text n ≢ []
number_text-some n = Starts-some (number_text n) (number_text-Starts n)

-- A text that begins with a digit is read with no sign.
atoi-unsigned :
    (t : Text) (n : ℕ)
    → Starts t
    → digits_value 0 t ≡ some n
    → n < int_limit
    → atoi t ≡ some (ℤ.pos n)
unfolding atoi unsigned positive is_digit
atoi-unsigned [] n s e h = absurd s
atoi-unsigned (c ∷ t) n digit e h =
    let minus : (c == b'-') ≡ false = ground (arith, digit) in
    let plus : (c == b'+') ≡ false = ground (arith, digit) in
    rw (minus, plus, e, lt→ltb n int_limit h)

-- What a template literal writes for a number below 2^63, `Atoi` reads.
pub atoi-number_text : (n : ℕ) → n < int_limit → atoi (number_text n) ≡ some (ℤ.pos n)
unfolding number_text digits_value
atoi-number_text n h =
    atoi-unsigned (digits_fuel (suc n) n []) n (number_text-Starts n)
      (digits_value-digits_fuel (suc n) n [] (omega arith)) h

pub to_int64-small : (n : ℕ) → n < int_limit → to_int64 n ≡ ℤ.pos n
unfolding to_int64
to_int64-small n h =
    let same : n % 18446744073709551616 ≡ n = omega (arith, h) in rw (same, lt→ltb n int_limit h)

pub parse_bool-bool_text : (b : Bool) → parse_bool (bool_text b) ≡ some b
unfolding parse_bool bool_text text_eq
parse_bool-bool_text true = refl
parse_bool-bool_text false = refl
