-- ===== src/Go/Strings.antt =====
-- `strings` and `unicode` of Go, as extension-go/ calls them.
use cdk_log_to_s.Prelude.{
  ℕ, ◌+◌, Text, [], ◌∷◌, Bool, false, ◌||◌, ◌&&◌, ◌==◌, leb, if◌then◌else◌, to_upper_case,
  drop_while, drop_while_end, starts_with, text_eq, drop, Option, none, some, length, ◌-◌, ltb,
}

-- unicode.IsSpace
unfoldable pub is_space : ℕ → Bool
is_space c =
    (leb 9 c && leb c 13)
    || c == 32
    || c == 0x85
    || c == 160
    || c == 0x1680
    || (leb 0x2000 c && leb c 0x200a)
    || c == 0x2028
    || c == 0x2029
    || c == 0x202f
    || c == 0x205f
    || c == 0x3000

-- strings.TrimSpace(s)
unfoldable pub trim_space : Text → Text
trim_space s = drop_while_end is_space (drop_while is_space s)

-- strings.TrimLeft(s, cutset) and strings.TrimRight(s, cutset), for a cutset of one rune.
unfoldable pub trim_left : Text → ℕ → Text
trim_left s cut = drop_while (λ c. c == cut) s

unfoldable pub trim_right : Text → ℕ → Text
trim_right s cut = drop_while_end (λ c. c == cut) s

-- strings.ToUpper(s): the letters that have an ASCII capital, as in JavaScript.
abbrev pub to_upper : Text → Text
to_upper = to_upper_case

-- One rune under unicode.ToLower: of all letters, these go to ASCII.
unfoldable pub lower_rune : ℕ → ℕ
lower_rune c =
    if leb b'A' c && leb c b'Z'
    then c + 32
    else if c == 0x130
    then b'i'
    else if c == 0x212a
    then b'k'
    else c

-- strings.ToLower(s)
unfoldable pub to_lower : Text → Text
unfolding lower_rune
to_lower [] = []
to_lower (c ∷ s) = lower_rune c ∷ to_lower s

-- strings.HasPrefix(s, prefix) and strings.HasSuffix(s, suffix)
abbrev pub has_prefix : Text → Text → Bool
has_prefix s prefix = starts_with prefix s

unfoldable pub has_suffix : Text → Text → Bool
has_suffix s suffix =
    if ltb (length s) (length suffix)
    then false
    else text_eq (drop (length s - length suffix) s) suffix

-- s[i:] behind the first place of `part`; `none` if there is none.
unfoldable pub from_index : Text → Text → Option Text
from_index [] part = if starts_with part [] then some [] else none
from_index (c ∷ s) part = if starts_with part (c ∷ s) then some (c ∷ s) else from_index s part

-- strings.Contains(s, part)
unfoldable pub contains : Text → Text → Bool
contains [] part = starts_with part []
contains (c ∷ s) part = starts_with part (c ∷ s) || contains s part
