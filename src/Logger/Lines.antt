-- ===== src/Logger/Lines.antt =====
-- The units below U+0020 in what `JSON.stringify` gives for a record: there are none.
use cdk_log_to_s.Prelude.{
  ℕ, zero, suc, ◌+◌, ◌/◌, ◌%◌, ◌≤◌, ◌==◌, Text, number_text, digits_fuel, bool_text, Bool, true,
  false, ◌&&◌, ◌||◌, [], ◌∷◌, ◌++◌, All, All-append, Bool-cases, inl, inr, arith, if◌then◌else◌,
  ◌≡◌,
}
use cdk_log_to_s.Logger.Stringify.{
  Json, null, boolean, number, text, array, object, Elements, no_elements, element, Members,
  no_members, member, hex_digit, hex_escape, is_high, is_low, escape, starts_low, quoted, quote,
  stringify, elements_text, more_elements, members_text, more_members,
}

-- No unit is below U+0020, as a line feed and a carriage return are.
abbrev pub IsPlain : Text → Type 0
IsPlain s = All (λ c. 32 ≤ c) s

hex_digit-plain : (n : ℕ) → 32 ≤ hex_digit n
unfolding hex_digit
hex_digit-plain n = ground arith

hex_escape-IsPlain : (c : ℕ) → IsPlain (hex_escape c)
unfolding hex_escape
hex_escape-IsPlain c = (
  omega arith,
  (
    omega arith,
    (
      hex_digit-plain (c / 4096 % 16),
      (
        hex_digit-plain (c / 256 % 16),
        (hex_digit-plain (c / 16 % 16), (hex_digit-plain (c % 16), tt)),
      ),
    ),
  ),
)

escape-IsPlain : (c : ℕ) → IsPlain (escape c)
unfolding escape
escape-IsPlain c = ground (arith, hex_escape-IsPlain c)

unit-IsPlain :
    (c : ℕ) (after pairs : Bool)
    → (pairs ≡ true → is_high c ≡ true)
    → IsPlain (if (after && is_low c) || pairs then c ∷ [] else escape c)
unit-IsPlain c after pairs h = ground (arith, escape-IsPlain c)

quoted-IsPlain : (after : Bool) (s : Text) → IsPlain (quoted after s)
unfolding quoted
quoted-IsPlain after [] = tt
quoted-IsPlain after (c ∷ s) =
    All-append (λ u. 32 ≤ u)
      (if (after && is_low c) || (is_high c && starts_low s) then c ∷ [] else escape c) _
      (unit-IsPlain c after (is_high c && starts_low s) (λ e. ground arith))
      (quoted-IsPlain (is_high c && starts_low s) s)

quote-IsPlain : (s : Text) → IsPlain (quote s)
quote-IsPlain s = (
  omega arith,
  All-append (λ u. 32 ≤ u) (quoted false s) _ (quoted-IsPlain false s) (omega arith, tt),
)

digits_fuel-IsPlain : (f n : ℕ) (acc : Text) → IsPlain acc → IsPlain (digits_fuel f n acc)
unfolding digits_fuel
digits_fuel-IsPlain zero n acc h = h
digits_fuel-IsPlain (suc f) n acc h = elim (Bool-cases (n / 10 == 0)) [
  | inl e ↦ rw e (omega arith, h)
  | inr e ↦ rw e (digits_fuel-IsPlain f (n / 10) ((48 + n % 10) ∷ acc) (omega arith, h))
]

number_text-IsPlain : (n : ℕ) → IsPlain (number_text n)
unfolding number_text
number_text-IsPlain n = digits_fuel-IsPlain (suc n) n [] tt

bool_text-IsPlain : (b : Bool) → IsPlain (bool_text b)
unfolding bool_text
bool_text-IsPlain true = omega arith
bool_text-IsPlain false = omega arith

mutual
  unfolding stringify elements_text more_elements members_text more_members

  pub stringify-IsPlain : (j : Json) → IsPlain (stringify j)
  stringify-IsPlain null = omega arith
  stringify-IsPlain (boolean b) = bool_text-IsPlain b
  stringify-IsPlain (number n) = number_text-IsPlain n
  stringify-IsPlain (text s) = quote-IsPlain s
  stringify-IsPlain (array elements) = (
    omega arith,
    All-append (λ u. 32 ≤ u) (elements_text elements) _ (elements_text-IsPlain elements)
        (omega arith, tt),
  )
  stringify-IsPlain (object members) = (
    omega arith,
    All-append (λ u. 32 ≤ u) (members_text members) _ (members_text-IsPlain members)
        (omega arith, tt),
  )

  elements_text-IsPlain : (es : Elements) → IsPlain (elements_text es)
  elements_text-IsPlain no_elements = tt
  elements_text-IsPlain (element j es) =
      All-append (λ u. 32 ≤ u) (stringify j) _ (stringify-IsPlain j) (more_elements-IsPlain es)

  more_elements-IsPlain : (es : Elements) → IsPlain (more_elements es)
  more_elements-IsPlain no_elements = tt
  more_elements-IsPlain (element j es) = (
    omega arith,
    All-append (λ u. 32 ≤ u) (stringify j) _ (stringify-IsPlain j) (more_elements-IsPlain es),
  )

  members_text-IsPlain : (ms : Members) → IsPlain (members_text ms)
  members_text-IsPlain no_members = tt
  members_text-IsPlain (member key j ms) =
      All-append (λ u. 32 ≤ u) (quote key ++ b':' ∷ stringify j) _
        (All-append (λ u. 32 ≤ u) (quote key) _ (quote-IsPlain key)
          (omega arith, stringify-IsPlain j))
        (more_members-IsPlain ms)

  more_members-IsPlain : (ms : Members) → IsPlain (more_members ms)
  more_members-IsPlain no_members = tt
  more_members-IsPlain (member key j ms) =
      All-append (λ u. 32 ≤ u) (b',' ∷ quote key ++ b':' ∷ stringify j) _
        (All-append (λ u. 32 ≤ u) (b',' ∷ quote key) _ (omega arith, quote-IsPlain key)
          (omega arith, stringify-IsPlain j))
        (more_members-IsPlain ms)
