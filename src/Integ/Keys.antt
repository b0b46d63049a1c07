-- ===== src/Integ/Keys.antt =====
-- The object keys of scripts/verify-integ.ts: the regular expression `KEY_PATTERN`, the name of a
-- seeded copy, and the methods of strings that it calls on them.
pub mod Pattern
pub mod Seeds
pub mod Written
use cdk_log_to_s.Prelude.{
  ℕ, Text, codes, number_text, text_eq, Bool, true, false, ◌&&◌, ◌||◌, List, [], ◌∷◌, ◌++◌, map,
  leb, ◌==◌, starts_with, replicate, if◌then◌else◌,
}

-- A regular expression between `^` and `$`: single units of a class, and one or more of them.
pub data Piece : Type 0 where
  one : (ℕ → Bool) → Piece
  plus : (ℕ → Bool) → Piece

unfoldable pub matches : List Piece → Text → Bool
matches [] [] = true
matches [] (c ∷ s) = false
matches (one p ∷ pieces) [] = false
matches (one p ∷ pieces) (c ∷ s) = p c && matches pieces s
matches (plus p ∷ pieces) [] = false
matches (plus p ∷ pieces) (c ∷ s) = p c && (matches pieces s || matches (plus p ∷ pieces) s)

abbrev pub literal : Text → List Piece
literal text = map (λ c. one (◌==◌ c)) text

-- `\d`
unfoldable pub is_digit : ℕ → Bool
is_digit c = leb b'0' c && leb c b'9'

-- `[A-Za-z0-9._-]`
unfoldable pub is_name_unit : ℕ → Bool
is_name_unit c =
    (leb b'A' c && leb c b'Z')
    || (leb b'a' c && leb c b'z')
    || is_digit c
    || c == b'.'
    || c == b'_'
    || c == b'-'

-- `\d{n}`
abbrev pub digits : ℕ → List Piece
digits n = replicate n (one is_digit)

unfoldable pub key_pattern : List Piece
key_pattern =
    literal (codes "logs/")
    ++ (digits 4
        ++ (literal (codes "/")
            ++ (digits 2
                ++ (literal (codes "/")
                    ++ (digits 2
                        ++ (literal (codes "/")
                            ++ (plus is_name_unit ∷ (literal (codes ".parquet") ++ []))))))))

-- `KEY_PATTERN.test(key)`
unfoldable pub key_test : Text → Bool
key_test key = matches key_pattern key

-- s.includes(part)
unfoldable pub includes : Text → Text → Bool
includes part [] = starts_with part []
includes part (c ∷ s) = starts_with part (c ∷ s) || includes part s

-- What is behind the last slash, `kept` if there is none.
unfoldable pub after_last_slash : Text → Text → Text
after_last_slash kept [] = kept
after_last_slash kept (c ∷ s) = if c == b'/' then after_last_slash s s else after_last_slash kept s

-- key.slice(key.lastIndexOf('/') + 1)
unfoldable pub base_name : Text → Text
base_name key = after_last_slash key key

-- s.replace(/suffix$/, replacement), for a suffix that is not empty.
unfoldable pub replace_suffix : Text → Text → Text → Text
replace_suffix suffix replacement [] = []
replace_suffix suffix replacement (c ∷ s) =
    if text_eq (c ∷ s) suffix then replacement else c ∷ replace_suffix suffix replacement s

-- The name of copy `i` of an object.
unfoldable pub seed_name : Text → ℕ → Text
seed_name source i =
    replace_suffix (codes ".parquet") (codes "-seed" ++ number_text i ++ codes ".parquet")
      (base_name source)

-- text.padStart(2, '0')
unfoldable pub pad_start_2 : Text → Text
pad_start_2 [] = codes "00"
pad_start_2 (c ∷ []) = b'0' ∷ c ∷ []
pad_start_2 (c ∷ d ∷ s) = c ∷ d ∷ s
