-- ===== src/Integ/Marker.antt =====
-- The marker of a run of scripts/verify-integ.ts.
use cdk_log_to_s.Prelude.{
  ℕ, zero, suc, ◌+◌, ◌-◌, ◌*◌, ◌/◌, ◌%◌, ◌<◌, ◌==◌, leb, Text, [], ◌∷◌, Bool-cases, inl, inr,
  if◌then◌else◌, ◌≡◌, ◌≢◌, sym, ap, ◌∙◌, arith,
}
use cdk_log_to_s.Integ.Program.{digit_36, digits_36, marker_at}

-- The number that a digit stands for.
abbrev value_36 : ℕ → ℕ
value_36 c = if leb 97 c then c - 87 else c - 48

-- The number that digits stand for, behind those that were read.
abbrev number_36 : ℕ → Text → ℕ
number_36 n [] = n
number_36 n (c ∷ s) = number_36 (n * 36 + value_36 c) s

value_36-digit_36 : (d : ℕ) → d < 36 → value_36 (digit_36 d) ≡ d
unfolding digit_36
value_36-digit_36 d h = ground (arith, h)

number_36-digits_36 :
    (f n : ℕ) (acc : Text) → n < f → number_36 0 (digits_36 f n acc) ≡ number_36 n acc
unfolding digits_36
number_36-digits_36 zero n acc h = absurd (omega (arith, h))
number_36-digits_36 (suc f) n acc h =
    let last : value_36 (digit_36 (n % 36)) ≡ n % 36 = value_36-digit_36 (n % 36) (omega arith) in
    let whole : n / 36 * 36 + value_36 (digit_36 (n % 36)) ≡ n = omega (arith, last) in
    elim (Bool-cases (n / 36 == 0)) [
      | inl e ↦
          let small : 0 * 36 + value_36 (digit_36 (n % 36)) ≡ n = ground (arith, e, last) in
          rw e (ap (λ m. number_36 m acc) small)
      | inr e ↦ rw e (
          number_36-digits_36 f (n / 36) (digit_36 (n % 36) ∷ acc) (ground (arith, e, h))
          ∙ ap (λ m. number_36 m acc) whole)
    ]

drop_m : Text → Text
drop_m [] = []
drop_m (c ∷ s) = s

marker_at-injective : (a b : ℕ) → marker_at a ≡ marker_at b → a ≡ b
unfolding marker_at drop_m
marker_at-injective a b h =
    sym (number_36-digits_36 (suc a) a [] (omega arith))
    ∙ ap (λ s. number_36 0 (drop_m s)) h
    ∙ number_36-digits_36 (suc b) b [] (omega arith)

-- Runs that begin at different times have different markers.
pub marker_at_unique : (a b : ℕ) → a ≢ b → marker_at a ≢ marker_at b
marker_at_unique a b different h = different (marker_at-injective a b h)
