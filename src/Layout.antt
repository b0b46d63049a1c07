-- ===== src/Layout.antt =====
-- extension-go/internal/layout/layout.go: where a log object goes, and which partition it is in.
pub mod Agreement
pub mod Names
pub mod Tests
use cdk_log_to_s.Prelude.{
  ℕ, zero, suc, ◌+◌, ◌-◌, ◌/◌, ◌%◌, Text, codes, number_text, text_eq, Bool, true, false, ◌||◌,
  ◌&&◌, ◌==◌, leb, ltb, if◌then◌else◌, List, [], ◌∷◌, ◌++◌, Option, none, some, length, replicate,
}
use cdk_log_to_s.Go.Strings.{trim_space, trim_left, trim_right}

unfoldable pub normalize_prefix : Text → Text
normalize_prefix p =
    let body = trim_right (trim_left (trim_space p) b'/') b'/' in
    if text_eq body [] then [] else body ++ codes "/"

-- The date of a `time.Time` in UTC.
pub record Day : Type 0 where
  pub year : ℕ
  pub month : ℕ
  pub date : ℕ

-- `%0<width>d`
unfoldable pub padded : ℕ → ℕ → Text
padded width n = let text = number_text n in replicate (width - length text) b'0' ++ text

unfoldable pub partition_path : Text → Day → Text
partition_path prefix day =
    normalize_prefix prefix
    ++ (padded 4 day.year
        ++ (codes "/" ++ (padded 2 day.month ++ (codes "/" ++ (padded 2 day.date ++ codes "/")))))

-- The runes that `Sanitize` keeps.
unfoldable pub is_kept : ℕ → Bool
is_kept r =
    (leb b'a' r && leb r b'z')
    || (leb b'A' r && leb r b'Z')
    || (leb b'0' r && leb r b'9')
    || r == b'.'
    || r == b'_'
    || r == b'-'

-- The loop over the runes, with the number of bytes in the builder; each rune is written as one.
unfoldable pub sanitized : ℕ → Text → Text
unfolding is_kept
sanitized written [] = []
sanitized written (r ∷ s) =
    let rest = sanitized (written + 1) s in
    (if is_kept r then r else b'_') ∷ (if leb 64 (written + 1) then [] else rest)

unfoldable pub sanitize : Text → Text → Text
unfolding sanitized
sanitize s fallback =
    let trimmed = trim_space s in
    if text_eq trimmed []
    then fallback
    else let out = sanitized 0 trimmed in if text_eq out [] then fallback else out

unfoldable pub hex_digit : ℕ → ℕ
hex_digit n = if ltb n 10 then 48 + n else 87 + n

-- hex.EncodeToString(bytes)
unfoldable pub hex_encode : List ℕ → Text
unfolding hex_digit
hex_encode [] = []
hex_encode (b ∷ bytes) = hex_digit (b / 16) ∷ hex_digit (b % 16) ∷ hex_encode bytes

unfoldable pub hex_fuel : ℕ → ℕ → Text → Text
unfolding hex_digit
hex_fuel zero n acc = acc
hex_fuel (suc f) n acc =
    let acc' = hex_digit (n % 16) ∷ acc in
    let more = hex_fuel f (n / 16) acc' in if n / 16 == 0 then acc' else more

-- `%012x`, for a number of at most 16 digits.
unfoldable pub padded_hex : ℕ → Text
unfolding hex_fuel
padded_hex n = let text = hex_fuel 16 n [] in replicate (12 - length text) b'0' ++ text

-- The six bytes of `rand.Read`, `none` if it fails; and the clock in nanoseconds.
pub record Entropy : Type 0 where
  pub random : Option (List ℕ)
  pub unix_nano : ℕ

-- The branches of `randomSuffix`.
unfoldable pub suffix_of : Option (List ℕ) → ℕ → Text
suffix_of none nanos = padded_hex nanos
suffix_of (some buf) nanos = hex_encode buf

unfoldable pub random_suffix : Entropy → Text
random_suffix e = suffix_of e.random e.unix_nano

unfoldable pub build_key : Text → Day → Text → Text → Entropy → Text
build_key prefix now function_name correlation_id e =
    partition_path prefix now
    ++ (sanitize function_name (codes "unknown")
        ++ (codes "-"
            ++ (sanitize correlation_id (codes "none")
                ++ (codes "-" ++ (random_suffix e ++ codes ".parquet")))))
