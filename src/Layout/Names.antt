-- ===== src/Layout/Names.antt =====
-- The file names that `BuildKey` makes: their units and their length.
use cdk_log_to_s.Prelude.{
  ◌==◌, ℕ, suc, zero, ◌+◌, ◌-◌, ◌/◌, ◌%◌, ◌≤◌, ◌<◌, Text, [], ◌∷◌, ◌≡◌, ◌≢◌, refl, true, false, All,
  All-append, arith, length, text_eq, text_eq_iff, Bool-cases, inl, inr, List, replicate, Option,
  some, none, leb, if◌then◌else◌,
}
use cdk_log_to_s.Go.Strings.{trim_space}
use cdk_log_to_s.Layout.{
  is_kept, sanitized, sanitize, hex_digit, hex_encode, hex_fuel, padded_hex, random_suffix,
  suffix_of, Entropy,
}

abbrev pub IsKept : ℕ → Type 0
IsKept c = is_kept c ≡ true

-- Between 1 and 64 runes, each of which may stand in a name.
abbrev pub IsName : Text → Type 0
IsName t = (1 ≤ length t) × (length t ≤ 64) × All IsKept t

IsKept-underscore : (r : ℕ) → IsKept (if is_kept r then r else b'_')
IsKept-underscore r = elim (Bool-cases (is_kept r)) [
  | inl t ↦ rw t t
  | inr f ↦ rw f (unfold is_kept in refl)
]

sanitized-All : (n : ℕ) (s : Text) → All IsKept (sanitized n s)
unfolding sanitized
sanitized-All n [] = tt
sanitized-All n (r ∷ s) = elim (Bool-cases (leb 64 (n + 1))) [
  | inl t ↦ rw t (IsKept-underscore r, tt)
  | inr f ↦ rw f (IsKept-underscore r, sanitized-All (n + 1) s)
]

length-sanitized : (n : ℕ) (s : Text) → n < 64 → n + length (sanitized n s) ≤ 64
unfolding sanitized
length-sanitized n [] h = omega arith
length-sanitized n (r ∷ s) h = elim (Bool-cases (leb 64 (n + 1))) [
  | inl t ↦ rw t (omega (arith, h))
  | inr f ↦ rw f (omega (arith, length-sanitized (n + 1) s (ground (arith, f))))
]

sanitized-some : (s : Text) → s ≢ [] → sanitized 0 s ≢ []
unfolding sanitized
sanitized-some [] h = absurd (h refl)
sanitized-some (r ∷ s) h = λ e. cc

nonempty : (t : Text) → t ≢ [] → 1 ≤ length t
nonempty [] h = absurd (h refl)
nonempty (c ∷ t) h = omega arith

sanitized-IsName : (s : Text) → s ≢ [] → IsName (sanitized 0 s)
sanitized-IsName s h =
    let bound : length (sanitized 0 s) ≤ 64 = omega (arith, length-sanitized 0 s (omega arith)) in
    (nonempty _ (sanitized-some s h), bound, sanitized-All 0 s)

pub sanitize-IsName : (s fallback : Text) → IsName fallback → IsName (sanitize s fallback)
unfolding sanitize
sanitize-IsName s fallback h = elim (Bool-cases (text_eq (trim_space s) [])) [
  | inl t ↦ rw t h
  | inr f ↦
      let some_left : trim_space s ≢ [] = λ e. cc (f, (text_eq_iff _ _).1 e) in
      let empty : text_eq (sanitized 0 (trim_space s)) [] ≡ false =
        elim (Bool-cases (text_eq (sanitized 0 (trim_space s)) [])) [
          | inl t ↦ absurd (sanitized-some _ some_left ((text_eq_iff _ _).0 t))
          | inr n ↦ n
        ] in
      rw (f, empty) (sanitized-IsName (trim_space s) some_left)
]

hex_digit-IsKept : (n : ℕ) → n < 16 → IsKept (hex_digit n)
unfolding hex_digit is_kept
hex_digit-IsKept n h = ground arith

abbrev pub AreBytes : List ℕ → Type 0
AreBytes = All (λ b. b < 256)

hex_encode-All : (bytes : List ℕ) → AreBytes bytes → All IsKept (hex_encode bytes)
unfolding hex_encode
hex_encode-All [] h = tt
hex_encode-All (b ∷ bytes) h = (
  hex_digit-IsKept (b / 16) (omega (arith, h.0)),
  (hex_digit-IsKept (b % 16) (omega arith), hex_encode-All bytes h.1),
)

hex_fuel-All : (f n : ℕ) (acc : Text) → All IsKept acc → All IsKept (hex_fuel f n acc)
unfolding hex_fuel
hex_fuel-All zero n acc h = h
hex_fuel-All (suc f) n acc h =
    let first = hex_digit-IsKept (n % 16) (omega arith) in
    elim (Bool-cases (n / 16 == 0)) [
      | inl t ↦ rw t (first, h)
      | inr m ↦ rw m (hex_fuel-All f (n / 16) (hex_digit (n % 16) ∷ acc) (first, h))
    ]

All-replicate : (n : ℕ) (c : ℕ) → IsKept c → All IsKept (replicate n c)
All-replicate zero c h = tt
All-replicate (suc n) c h = (h, All-replicate n c h)

IsKept-zero : IsKept b'0'
unfolding is_kept
IsKept-zero = refl

-- What `rand.Read` promises of the bytes that it fills.
abbrev pub IsRandom : Entropy → Type 0
IsRandom e = (buf : List ℕ) → e.random ≡ some buf → AreBytes buf

suffix_of-All :
    (random : Option (List ℕ)) (nanos : ℕ)
    → ((buf : List ℕ) → random ≡ some buf → AreBytes buf)
    → All IsKept (suffix_of random nanos)
unfolding suffix_of padded_hex
suffix_of-All none nanos h =
    All-append IsKept (replicate (12 - length (hex_fuel 16 nanos [])) b'0') _
      (All-replicate _ _ IsKept-zero) (hex_fuel-All 16 nanos [] tt)
suffix_of-All (some buf) nanos h = hex_encode-All buf (h buf refl)

pub random_suffix-All : (e : Entropy) → IsRandom e → All IsKept (random_suffix e)
unfolding random_suffix
random_suffix-All e h = suffix_of-All e.random e.unix_nano h
