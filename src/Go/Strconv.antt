-- ===== src/Go/Strconv.antt =====
-- `strconv` of Go: `Atoi` on a 64-bit machine, `ParseInt(s, 10, 64)`, which is the same, and
-- `ParseBool`; and products of `time.Duration`, which wrap at 64 bits.
pub mod Laws
use cdk_log_to_s.Prelude.{
  ℕ, suc, ◌+◌, ◌-◌, ◌*◌, ◌%◌, ◌^◌, Text, codes, [], ◌∷◌, Bool, true, false, ◌||◌, ◌&&◌, ◌==◌, leb,
  ltb, if◌then◌else◌, text_eq, Option, none, some, List, any,
}

-- `negsuc n` is -(n + 1).
pub data ℤ : Type 0 where
  pos : ℕ → ℤ
  negsuc : ℕ → ℤ

unfoldable pub is_digit : ℕ → Bool
is_digit c = leb b'0' c && leb c b'9'

-- The number of decimal digits, behind those that were read.
unfoldable pub digits_value : ℕ → Text → Option ℕ
digits_value n [] = some n
digits_value n (c ∷ s) = if is_digit c then digits_value (n * 10 + (c - 48)) s else none

unfoldable pub unsigned : Text → Option ℕ
unsigned [] = none
unsigned (c ∷ s) = digits_value 0 (c ∷ s)

-- 2^63
abbrev pub int_limit : ℕ
int_limit = 9223372036854775808

unfoldable pub positive : Option ℕ → Option ℤ
positive none = none
positive (some n) = if ltb n int_limit then some (ℤ.pos n) else none

unfoldable pub negated : Option ℕ → Option ℤ
negated none = none
negated (some n) =
    if n == 0 then some (ℤ.pos 0) else if leb n int_limit then some (ℤ.negsuc (n - 1)) else none

-- strconv.Atoi(s): `none` for an error.
unfoldable pub atoi : Text → Option ℤ
unfolding positive negated unsigned
atoi [] = none
atoi (c ∷ s) =
    if c == b'-'
    then negated (unsigned s)
    else if c == b'+'
    then positive (unsigned s)
    else positive (unsigned (c ∷ s))

-- int64(n), for a product `n` of natural numbers.
unfoldable pub to_int64 : ℕ → ℤ
to_int64 n =
    let low = n % 18446744073709551616 in
    if ltb low int_limit then ℤ.pos low else ℤ.negsuc (18446744073709551616 - low - 1)

-- strconv.ParseBool(s)
unfoldable pub parse_bool : Text → Option Bool
parse_bool s =
    if any (text_eq s)
      (codes "1" ∷ codes "t" ∷ codes "T" ∷ codes "TRUE" ∷ codes "true" ∷ codes "True" ∷ [])
    then some true
    else if any (text_eq s)
        (codes "0" ∷ codes "f" ∷ codes "F" ∷ codes "FALSE" ∷ codes "false" ∷ codes "False" ∷ [])
    then some false
    else none
