-- ===== src/Zip/Xor.antt =====
-- Laws of `^` on bit patterns, from the digit recursion that the native operation stands for.
use Prim.Native.Nat.{bit_xor, bit_and, digits, differ, bit_xor-bitwise, bit_and-bitwise, min}
use cdk_log_to_s.Prelude.{
  arith, Bool-cases, inl, inr, ◌==◌, ◌≡◌, refl, ap, ◌∙◌, ℕ, zero, suc, ◌+◌, ◌-◌, ◌*◌, ◌/◌, ◌%◌, ◌≤◌,
  ◌<◌,
}

module _ (z : ℕ → ℕ) (f : ℕ → ℕ → ℕ) where
  -- A digit more than there are changes nothing.
  one_more : (count x y : ℕ) → x ≤ count → digits z f (suc count) x y ≡ digits z f count x y
  one_more zero zero y h = refl
  one_more zero (suc x) y h = absurd (omega (arith, h))
  one_more (suc count) zero y h = refl
  one_more (suc count) (suc x) y h =
      ap (λ q. q * 2 + f (suc x % 2) (y % 2))
        (one_more count (suc x / 2) (y / 2) (omega (arith, h)))

  surplus :
      (extra total count x y : ℕ)
      → total ≡ extra + count
      → x ≤ count
      → digits z f total x y ≡ digits z f count x y
  surplus zero total count x y e h =
      let same : total ≡ count = omega (arith, e) in ap (λ k. digits z f k x y) same
  surplus (suc extra) zero count x y e h = absurd (omega (arith, e))
  surplus (suc extra) (suc total) count x y e h =
      one_more total x y (omega (arith, e, h)) ∙ surplus extra total count x y (omega (arith, e)) h

  -- The lowest digit, and the digits of the halves.
  lowest_digit :
      (x y : ℕ)
      → digits z f (suc x) (suc x) y
        ≡ 2 * digits z f (suc x / 2) (suc x / 2) (y / 2) + f (suc x % 2) (y % 2)
  lowest_digit x y =
      omega (
        arith,
        surplus (x - suc x / 2) x (suc x / 2) (suc x / 2) (y / 2) (omega arith) (omega arith),
      )

differ_bits : (x y : ℕ) → x < 2 → y < 2 → differ x y ≡ (x + y) % 2
differ_bits zero y p q = omega arith
differ_bits (suc zero) zero p q = refl
differ_bits (suc zero) (suc zero) p q = refl
differ_bits (suc zero) (suc (suc y)) p q = absurd (omega arith)
differ_bits (suc (suc x)) y p q = absurd (omega arith)

-- The lowest digit of an exclusive or.
pub bit_xor_step : (x y : ℕ) → bit_xor x y ≡ 2 * bit_xor (x / 2) (y / 2) + (x % 2 + y % 2) % 2
bit_xor_step zero y = simp bit_xor-bitwise (omega arith)
bit_xor_step (suc x) y = omega (
  arith,
  lowest_digit (λ b. b) differ x y,
  differ_bits (suc x % 2) (y % 2) (omega arith) (omega arith),
  bit_xor-bitwise (suc x / 2) (y / 2),
  bit_xor-bitwise (suc x) y,
)

pub bit_xor-zero : (n a : ℕ) → a ≤ n → bit_xor a 0 ≡ a
bit_xor-zero zero zero h = refl
bit_xor-zero (suc n) zero h = refl
bit_xor-zero zero (suc a) h = absurd (omega arith)
bit_xor-zero (suc n) (suc a) h =
    omega (arith, bit_xor_step (suc a) 0, bit_xor-zero n (suc a / 2) (omega arith))

pub bit_xor_half : (a b : ℕ) → bit_xor a b / 2 ≡ bit_xor (a / 2) (b / 2)
bit_xor_half a b = omega (arith, bit_xor_step a b)

pub bit_xor_parity : (a b : ℕ) → bit_xor a b % 2 ≡ (a % 2 + b % 2) % 2
bit_xor_parity a b = omega (arith, bit_xor_step a b)

bit_xor_assoc_within :
    (n a b c : ℕ) → a + b + c ≤ n → bit_xor (bit_xor a b) c ≡ bit_xor a (bit_xor b c)
bit_xor_assoc_within zero zero zero zero h = refl
bit_xor_assoc_within zero (suc a) b c h = absurd (omega arith)
bit_xor_assoc_within zero zero (suc b) c h = absurd (omega arith)
bit_xor_assoc_within zero zero zero (suc c) h = absurd (omega arith)
bit_xor_assoc_within (suc n) a b c h = elim (Bool-cases (a + b + c == 0)) [
  | inl e ↦ bit_xor_assoc_within n a b c (ground (arith, e))
  | inr e ↦
      let rest : bit_xor (bit_xor a b / 2) (c / 2) ≡ bit_xor (a / 2) (bit_xor b c / 2) =
        rw (bit_xor_half a b, bit_xor_half b c)
          (bit_xor_assoc_within n (a / 2) (b / 2) (c / 2) (ground (arith, e))) in
      omega (
        arith,
        bit_xor_step (bit_xor a b) c,
        bit_xor_step a (bit_xor b c),
        bit_xor_parity a b,
        bit_xor_parity b c,
        rest,
      )
]

pub bit_xor_assoc : (a b c : ℕ) → bit_xor (bit_xor a b) c ≡ bit_xor a (bit_xor b c)
bit_xor_assoc a b c = bit_xor_assoc_within (a + b + c) a b c (omega arith)

-- `h << k`.
abbrev pub doubles : ℕ → ℕ → ℕ
doubles zero h = h
doubles (suc k) h = 2 * doubles k h

-- `x >> k`.
abbrev pub halves : ℕ → ℕ → ℕ
halves zero x = x
halves (suc k) x = halves k (x / 2)

bit_xor_zero_left : (b : ℕ) → bit_xor 0 b ≡ b
bit_xor_zero_left b = bit_xor-bitwise 0 b

half_of : (n : ℕ) → 2 * n / 2 ≡ n
half_of n = omega arith

-- Fields that do not overlap add up.
pub bit_xor_fields :
    (k low high : ℕ) → low < doubles k 1 → bit_xor low (doubles k high) ≡ low + doubles k high
bit_xor_fields zero zero high h = omega (arith, bit_xor_zero_left high)
bit_xor_fields zero (suc low) high h = absurd (omega arith)
bit_xor_fields (suc k) low high h =
    let rest : bit_xor (low / 2) (2 * doubles k high / 2) ≡ low / 2 + doubles k high =
      rw (half_of (doubles k high)) (bit_xor_fields k (low / 2) high (omega arith)) in
    omega (arith, bit_xor_step low (doubles (suc k) high), rest)

-- A field above is not changed.
pub halves-bit_xor : (k a b : ℕ) → b < doubles k 1 → halves k (bit_xor a b) ≡ halves k a
halves-bit_xor zero a zero h = bit_xor-zero a a (omega arith)
halves-bit_xor zero a (suc b) h = absurd (omega arith)
halves-bit_xor (suc k) a b h =
    rw (bit_xor_half a b) (halves-bit_xor k (a / 2) (b / 2) (omega arith))

bit_and_step : (x y : ℕ) → bit_and x y ≡ 2 * bit_and (x / 2) (y / 2) + min (x % 2) (y % 2)
bit_and_step zero y = simp bit_and-bitwise (omega arith)
bit_and_step (suc x) y = omega (
  arith,
  lowest_digit (λ b. 0) min x y,
  bit_and-bitwise (suc x / 2) (y / 2),
  bit_and-bitwise (suc x) y,
)

bit_and-zero : (n a : ℕ) → a ≤ n → bit_and a 0 ≡ 0
bit_and-zero zero zero h = refl
bit_and-zero (suc n) zero h = refl
bit_and-zero zero (suc a) h = absurd (omega arith)
bit_and-zero (suc n) (suc a) h =
    omega (arith, bit_and_step (suc a) 0, bit_and-zero n (suc a / 2) (omega arith))

-- A mask of low ones is a remainder.
pub bit_and_one : (a : ℕ) → bit_and a 1 ≡ a % 2
bit_and_one a = omega (arith, bit_and_step a 1, bit_and-zero (a / 2) (a / 2) (omega arith))

bit_and_fifteen : (a : ℕ) → bit_and a 15 ≡ a % 16
bit_and_fifteen a = omega (
  arith,
  bit_and_step a 15,
  bit_and_step (a / 2) 7,
  bit_and_step (a / 2 / 2) 3,
  bit_and_one (a / 2 / 2 / 2),
)

pub bit_and_byte : (a : ℕ) → bit_and a 255 ≡ a % 256
bit_and_byte a = omega (
  arith,
  bit_and_step a 255,
  bit_and_step (a / 2) 127,
  bit_and_step (a / 2 / 2) 63,
  bit_and_step (a / 2 / 2 / 2) 31,
  bit_and_fifteen (a / 2 / 2 / 2 / 2),
)
