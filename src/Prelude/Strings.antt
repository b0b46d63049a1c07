-- ===== src/Prelude/Strings.antt =====
-- Text as a list of UTF-16 code units, and the methods of strings that the source calls.
use Prim.Native.Nat.{ℕ, zero, suc, ◌+◌, ◌-◌, ◌/◌, ◌%◌}
use Prim.Native.Char.{code}
use Prim.Native.String.{String}
use mathlib.Core.Path.{◌≡◌}
use mathlib.Core.Logic.{◌↔◌}
use mathlib.Core.Bool.{Bool, true, false, ◌&&◌, ◌||◌}
use mathlib.Core.List.{List, [], ◌∷◌}
use native.Mathlib.Omega.{arith}
use cdk_log_to_s.Prelude.Tests.{◌==◌, leb, if◌then◌else◌}

abbrev pub Text : Type 0
Text = List ℕ

-- The code units of a literal, all of them ASCII.
abbrev pub codes : String → Text
codes String.[] = []
codes (String.◌∷◌ c s) = code c ∷ codes s

unfoldable pub text_eq : Text → Text → Bool
text_eq [] [] = true
text_eq (a ∷ s) (b ∷ t) = a == b && text_eq s t
text_eq _ _ = false

pub text_eq_iff : (s t : Text) → (text_eq s t ≡ true) ↔ (s ≡ t)
unfolding text_eq
text_eq_iff [] [] = ground arith
text_eq_iff [] (b ∷ t) = ground arith
text_eq_iff (a ∷ s) [] = ground arith
text_eq_iff (a ∷ s) (b ∷ t) = ground (arith, text_eq_iff s t)

-- s.startsWith(prefix)
unfoldable pub starts_with : Text → Text → Bool
starts_with [] s = true
starts_with (c ∷ p) [] = false
starts_with (c ∷ p) (d ∷ s) = c == d && starts_with p s

-- WhiteSpace and LineTerminator of ECMAScript, which `trim` removes.
unfoldable pub is_space : ℕ → Bool
is_space c =
    (leb 9 c && leb c 13)
    || c == 32
    || c == 160
    || c == 0x1680
    || (leb 0x2000 c && leb c 0x200a)
    || c == 0x2028
    || c == 0x2029
    || c == 0x202f
    || c == 0x205f
    || c == 0x3000
    || c == 0xfeff

-- Drops the units at the front that pass the test.
unfoldable pub drop_while : (ℕ → Bool) → Text → Text
drop_while p [] = []
drop_while p (c ∷ s) = if p c then drop_while p s else c ∷ s

-- Drops the units at the end that pass the test.
unfoldable pub drop_while_end : (ℕ → Bool) → Text → Text
drop_while_end p [] = []
drop_while_end p (c ∷ s) = elim (drop_while_end p s) [
  | [] ↦ if p c then [] else c ∷ []
  | d ∷ r ↦ c ∷ d ∷ r
]

-- s.trim()
unfoldable pub trim : Text → Text
unfolding is_space drop_while drop_while_end
trim s = drop_while_end is_space (drop_while is_space s)

-- One unit under `toUpperCase`: of all letters, these and dotless i and long s go to ASCII capitals
-- one to one. Other letters outside ASCII, which no architecture and no level has, are left.
unfoldable pub upper_unit : ℕ → ℕ
upper_unit c =
    if leb b'a' c && leb c b'z'
    then c - 32
    else if c == 0x131
    then b'I'
    else if c == 0x17f
    then b'S'
    else c

-- s.toUpperCase()
unfoldable pub to_upper_case : Text → Text
unfolding upper_unit
to_upper_case [] = []
to_upper_case (c ∷ s) = upper_unit c ∷ to_upper_case s

unfoldable pub digits_fuel : ℕ → ℕ → Text → Text
digits_fuel zero n acc = acc
digits_fuel (suc f) n acc =
    let acc' = (48 + n % 10) ∷ acc in
    let more = digits_fuel f (n / 10) acc' in if n / 10 == 0 then acc' else more

-- `${n}` for a natural number; a number has no more digits than its value plus one.
unfoldable pub number_text : ℕ → Text
unfolding digits_fuel
number_text n = digits_fuel (suc n) n []

unfoldable pub bool_text : Bool → Text
bool_text true = codes "true"
bool_text false = codes "false"
