-- ===== src/Zip/Checksum.antt =====
-- `crc32` of scripts/zip.ts and the checksum that takes one bit at a time, with no table.
use Prim.Native.Nat.{bit_and, bit_xor}
use cdk_log_to_s.Prelude.{
  ℕ, zero, suc, ◌+◌, ◌-◌, ◌*◌, ◌^◌, if◌then◌else◌, ◌/◌, ◌%◌, ◌<◌, ◌==◌, List, [], ◌∷◌, All,
  Bool-cases, inl, inr, get_or, ◌≡◌, refl, sym, ap, ◌∙◌, arith,
}
use cdk_log_to_s.Zip.Xor.{
  doubles, bit_xor-zero, bit_xor_half, bit_xor_parity, bit_xor_assoc, bit_xor_fields,
  halves-bit_xor, bit_and_one, bit_and_byte,
}
use cdk_log_to_s.Zip.Crc.{crc_step, crc_rounds, crc_entries, crc_table, crc_bytes, crc32}

-- The terms of the generator of CRC-32 below x^32, by their exponents.
abbrev generator : List ℕ
generator = 26 ∷ 23 ∷ 22 ∷ 16 ∷ 12 ∷ 11 ∷ 10 ∷ 8 ∷ 7 ∷ 5 ∷ 4 ∷ 2 ∷ 1 ∷ 0 ∷ []

-- Reflected: the coefficient of x^31 is the lowest bit.
abbrev reflected : List ℕ → ℕ
reflected [] = 0
reflected (e ∷ terms) = 2 ^ (31 - e) + reflected terms

-- The register takes the next bit of the message: where it is not the lowest bit of the register,
-- the generator is added behind the shift.
abbrev pub take_bit : ℕ → ℕ → ℕ
take_bit c bit = if (c + bit) % 2 == 0 then c / 2 else bit_xor (reflected generator) (c / 2)

-- `k` bits of a number, the lowest first.
abbrev pub take_bits : ℕ → ℕ → ℕ → ℕ
take_bits zero c b = c
take_bits (suc k) c b = take_bits k (take_bit c (b % 2)) (b / 2)

-- The bytes of the message, eight bits each.
unfoldable pub bitwise_bytes : ℕ → List ℕ → ℕ
bitwise_bytes c [] = c
bitwise_bytes c (b ∷ buf) = bitwise_bytes (take_bits 8 c b) buf

-- The register begins and ends inverted.
abbrev pub bitwise_crc32 : List ℕ → ℕ
bitwise_crc32 buf = bit_xor (bitwise_bytes 0xffffffff buf) 0xffffffff % 4294967296

-- A step shifts a field above the lowest bit, and only the bits below decide what is added.
crc_step-field : (a h : ℕ) → crc_step (bit_xor a (2 * h)) ≡ bit_xor (crc_step a) h
unfolding crc_step
crc_step-field a h =
    let odd : bit_and (bit_xor a (2 * h)) 1 ≡ bit_and a 1 =
      omega (arith, bit_and_one (bit_xor a (2 * h)), bit_and_one a, bit_xor_parity a (2 * h)) in
    let half : bit_xor a (2 * h) / 2 ≡ bit_xor (a / 2) h =
      bit_xor_half a (2 * h) ∙ ap (bit_xor (a / 2)) (omega arith) in
    elim (Bool-cases (bit_and a 1 == 0)) [
      | inl e ↦ rw (odd, e) half
      | inr e ↦ rw (odd, e, half) (sym (bit_xor_assoc 0xedb88320 (a / 2) h))
    ]

crc_rounds-field : (k a h : ℕ) → crc_rounds k (bit_xor a (doubles k h)) ≡ bit_xor (crc_rounds k a) h
unfolding crc_rounds
crc_rounds-field zero a h = refl
crc_rounds-field (suc k) a h =
    ap (crc_rounds k) (crc_step-field a (doubles k h)) ∙ crc_rounds-field k (crc_step a) h

-- A step of the code on a register to which bits are added takes the lowest of them.
crc_step-take_bit : (c b : ℕ) → crc_step (bit_xor c b) ≡ bit_xor (take_bit c (b % 2)) (b / 2)
unfolding crc_step
crc_step-take_bit c b =
    let low : bit_and (bit_xor c b) 1 ≡ (c + b % 2) % 2 =
      omega (arith, bit_and_one (bit_xor c b), bit_xor_parity c b) in
    elim (Bool-cases ((c + b % 2) % 2 == 0)) [
      | inl e ↦ rw (low, e) (bit_xor_half c b)
      | inr e ↦
          rw (low, e, bit_xor_half c b) (sym (bit_xor_assoc (reflected generator) (c / 2) (b / 2)))
    ]

crc_rounds-take_bits : (k c b : ℕ) → b < doubles k 1 → crc_rounds k (bit_xor c b) ≡ take_bits k c b
unfolding crc_rounds
crc_rounds-take_bits zero c zero h = bit_xor-zero c c (omega arith)
crc_rounds-take_bits zero c (suc b) h = absurd (omega (arith, h))
crc_rounds-take_bits (suc k) c b h =
    ap (crc_rounds k) (crc_step-take_bit c b)
    ∙ crc_rounds-take_bits k (take_bit c (b % 2)) (b / 2) (omega (arith, h))

get_or-crc_entries :
    (left n i : ℕ) → i < left → get_or (crc_entries left n) i 0 ≡ crc_rounds 8 (n + i)
unfolding crc_entries
get_or-crc_entries zero n i h = absurd (omega arith)
get_or-crc_entries (suc left) n zero h = ap (crc_rounds 8) (omega arith)
get_or-crc_entries (suc left) n (suc i) h =
    get_or-crc_entries left (n + 1) i (omega arith) ∙ ap (crc_rounds 8) (omega arith)

-- The table has the eight rounds of each byte.
crc_table-rounds : (i : ℕ) → i < 256 → get_or crc_table i 0 ≡ crc_rounds 8 i
unfolding crc_table
crc_table-rounds i h = get_or-crc_entries 256 0 i h ∙ ap (crc_rounds 8) (omega arith)

byte-rounds :
    (c b : ℕ)
    → b < 256
    → bit_xor (get_or crc_table (bit_and (bit_xor c b) 0xff) 0) (c / 256)
      ≡ crc_rounds 8 (bit_xor c b)
byte-rounds c b small =
    let x = bit_xor c b in
    let above : x / 256 ≡ c / 256 = omega (arith, halves-bit_xor 8 c b (omega arith)) in
    let split : bit_xor (x % 256) (doubles 8 (c / 256)) ≡ x =
      omega (arith, bit_xor_fields 8 (x % 256) (c / 256) (omega arith), above) in
    rw (bit_and_byte x, crc_table-rounds (x % 256) (omega arith))
      (sym (crc_rounds-field 8 (x % 256) (c / 256)) ∙ ap (crc_rounds 8) split)

crc_bytes-bitwise :
    (c : ℕ) (buf : List ℕ) → All (λ b. b < 256) buf → crc_bytes c buf ≡ bitwise_bytes c buf
unfolding crc_bytes bitwise_bytes
crc_bytes-bitwise c [] h = refl
crc_bytes-bitwise c (b ∷ buf) h =
    rw (byte-rounds c b h.0, crc_rounds-take_bits 8 c b (omega (arith, h.0)))
      (crc_bytes-bitwise (take_bits 8 c b) buf h.1)

-- On bytes, the checksum by the table of 256 entries is the CRC-32 that takes one bit at a time,
-- with no table and none of the steps of the code: the generator is given by the exponents of its
-- terms and reflected, each byte is taken from its lowest bit, and the register begins and ends
-- inverted.
pub crc32-bitwise : (buf : List ℕ) → All (λ b. b < 256) buf → crc32 buf ≡ bitwise_crc32 buf
unfolding crc32
crc32-bitwise buf h = rw (crc_bytes-bitwise 0xffffffff buf h) refl
