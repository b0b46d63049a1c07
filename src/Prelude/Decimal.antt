-- ===== src/Prelude/Decimal.antt =====
-- The decimal text of a number: the fuel of its digits is enough.
use Prim.Native.Nat.{ℕ, zero, suc, ◌+◌, ◌-◌, ◌*◌, ◌/◌, ◌%◌, ◌<◌, ◌≤◌}
use mathlib.Core.Path.{◌≡◌, ap, ◌∙◌}
use mathlib.Core.Logic.{inl, inr}
use mathlib.Core.List.{[], ◌∷◌}
use native.Mathlib.Omega.{arith}
use cdk_log_to_s.Prelude.Tests.{◌==◌, Bool-cases}
use cdk_log_to_s.Prelude.Strings.{Text, digits_fuel, number_text}

-- The number that decimal digits stand for, behind those that were read.
abbrev decimal : ℕ → Text → ℕ
decimal n [] = n
decimal n (c ∷ s) = decimal (n * 10 + (c - 48)) s

decimal-digits_fuel :
    (f n : ℕ) (acc : Text) → n < f → decimal 0 (digits_fuel f n acc) ≡ decimal n acc
unfolding digits_fuel
decimal-digits_fuel zero n acc h = absurd (omega (arith, h))
decimal-digits_fuel (suc f) n acc h = elim (Bool-cases (n / 10 == 0)) [
  | inl e ↦ rw e (ap (λ m. decimal m acc) (ground (arith, e)))
  | inr e ↦ rw e (
      decimal-digits_fuel f (n / 10) ((48 + n % 10) ∷ acc) (ground (arith, e, h))
      ∙ ap (λ m. decimal m acc) (omega arith))
]

-- The digits of a number stand for it.
decimal-number_text : (n : ℕ) → decimal 0 (number_text n) ≡ n
unfolding number_text
decimal-number_text n = decimal-digits_fuel (suc n) n [] (omega arith)

-- The last digit, the first one that is written, ends the loop.
digits_fuel-last : (f n : ℕ) (acc : Text) → n < 10 → digits_fuel (suc f) n acc ≡ (48 + n) ∷ acc
unfolding digits_fuel
digits_fuel-last f n acc h =
    let small : n / 10 ≡ 0 = omega (arith, h) in
    let same : n % 10 ≡ n = omega (arith, h) in rw (small, same)

digits_fuel-more :
    (f n : ℕ) (acc : Text)
    → 10 ≤ n
    → digits_fuel (suc f) n acc ≡ digits_fuel f (n / 10) ((48 + n % 10) ∷ acc)
unfolding digits_fuel
digits_fuel-more f n acc h = ground (arith, h)

pub number_text-1 : (n : ℕ) → n < 10 → number_text n ≡ (48 + n) ∷ []
unfolding number_text
number_text-1 n h = digits_fuel-last n n [] h

pub number_text-2 : (n : ℕ) → 10 ≤ n → n < 100 → number_text n ≡ (48 + n / 10) ∷ (48 + n % 10) ∷ []
unfolding number_text
number_text-2 zero h k = absurd (omega (arith, h))
number_text-2 (suc n) h k =
    digits_fuel-more (suc n) (suc n) [] h ∙ digits_fuel-last n (suc n / 10) _ (omega (arith, k))

pub number_text-3 :
    (n : ℕ)
    → 100 ≤ n
    → n < 1000
    → number_text n ≡ (48 + n / 10 / 10) ∷ (48 + n / 10 % 10) ∷ (48 + n % 10) ∷ []
unfolding number_text
number_text-3 (suc (suc n)) h k =
    digits_fuel-more (suc (suc n)) (suc (suc n)) [] (omega (arith, h))
    ∙ digits_fuel-more (suc n) (suc (suc n) / 10) _ (omega (arith, h))
    ∙ digits_fuel-last n (suc (suc n) / 10 / 10) _ (omega (arith, k))
number_text-3 (suc zero) h k = absurd (omega (arith, h))
number_text-3 zero h k = absurd (omega (arith, h))

pub number_text-4 :
    (n : ℕ)
    → 1000 ≤ n
    → n < 10000
    → number_text n
      ≡ (48 + n / 10 / 10 / 10) ∷ (48 + n / 10 / 10 % 10) ∷ (48 + n / 10 % 10) ∷ (48 + n % 10) ∷ []
unfolding number_text
number_text-4 (suc (suc (suc n))) h k =
    digits_fuel-more (suc (suc (suc n))) (suc (suc (suc n))) [] (omega (arith, h))
    ∙ digits_fuel-more (suc (suc n)) (suc (suc (suc n)) / 10) _ (omega (arith, h))
    ∙ digits_fuel-more (suc n) (suc (suc (suc n)) / 10 / 10) _ (omega (arith, h))
    ∙ digits_fuel-last n (suc (suc (suc n)) / 10 / 10 / 10) _ (omega (arith, k))
number_text-4 (suc (suc zero)) h k = absurd (omega (arith, h))
number_text-4 (suc zero) h k = absurd (omega (arith, h))
number_text-4 zero h k = absurd (omega (arith, h))
