-- ===== src/Logger/Stringify.antt =====
-- `JSON.stringify` for the values that a log record holds. Numbers are natural numbers; values
-- without a JSON text (functions, `undefined`, cycles) and `toJSON` do not occur.
use cdk_log_to_s.Prelude.{
  ℕ, ◌+◌, ◌/◌, ◌%◌, ◌==◌, ltb, leb, Text, codes, number_text, bool_text, Bool, false, ◌&&◌, ◌||◌,
  [], ◌∷◌, ◌++◌, if◌then◌else◌,
}

mutual
  pub data Json : Type 0 where
    null : Json
    boolean : Bool → Json
    number : ℕ → Json
    text : Text → Json
    array : Elements → Json
    object : Members → Json

  pub data Elements : Type 0 where
    no_elements : Elements
    element : Json → Elements → Elements

  pub data Members : Type 0 where
    no_members : Members
    member : Text → Json → Members → Members

unfoldable pub hex_digit : ℕ → ℕ
hex_digit n = if ltb n 10 then 48 + n else 87 + n

-- `\u` and four lower-case hexadecimal digits.
unfoldable pub hex_escape : ℕ → Text
hex_escape c =
    b'\\'
    ∷ b'u'
    ∷ hex_digit (c / 4096 % 16)
    ∷ hex_digit (c / 256 % 16)
    ∷ hex_digit (c / 16 % 16)
    ∷ hex_digit (c % 16)
    ∷ []

abbrev pub is_high : ℕ → Bool
is_high c = leb 0xd800 c && ltb c 0xdc00

abbrev pub is_low : ℕ → Bool
is_low c = leb 0xdc00 c && ltb c 0xe000

-- One unit that is no half of a surrogate pair.
unfoldable pub escape : ℕ → Text
escape c =
    if c == 8
    then codes "\\b"
    else if c == 9
    then codes "\\t"
    else if c == 10
    then codes "\\n"
    else if c == 12
    then codes "\\f"
    else if c == 13
    then codes "\\r"
    else if c == 34
    then codes "\\\""
    else if c == 92
    then codes "\\\\"
    else if ltb c 32 || is_high c || is_low c
    then hex_escape c
    else c ∷ []

unfoldable pub starts_low : Text → Bool
starts_low [] = false
starts_low (c ∷ s) = is_low c

-- The units of a string between its quotes; the flag says that the unit before began a pair.
unfoldable pub quoted : Bool → Text → Text
quoted after [] = []
quoted after (c ∷ s) =
    let pairs = is_high c && starts_low s in
    (if (after && is_low c) || pairs then c ∷ [] else escape c) ++ quoted pairs s

abbrev pub quote : Text → Text
quote s = b'"' ∷ quoted false s ++ b'"' ∷ []

unfoldable mutual
  pub stringify : Json → Text
  stringify null = codes "null"
  stringify (boolean b) = bool_text b
  stringify (number n) = number_text n
  stringify (text s) = quote s
  stringify (array elements) = b'[' ∷ elements_text elements ++ b']' ∷ []
  stringify (object members) = b'{' ∷ members_text members ++ b'}' ∷ []

  pub elements_text : Elements → Text
  elements_text no_elements = []
  elements_text (element j elements) = stringify j ++ more_elements elements

  pub more_elements : Elements → Text
  more_elements no_elements = []
  more_elements (element j elements) = b',' ∷ stringify j ++ more_elements elements

  pub members_text : Members → Text
  members_text no_members = []
  members_text (member key j members) = quote key ++ b':' ∷ stringify j ++ more_members members

  pub more_members : Members → Text
  more_members no_members = []
  more_members (member key j members) =
      b',' ∷ quote key ++ b':' ∷ stringify j ++ more_members members
