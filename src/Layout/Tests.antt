-- ===== src/Layout/Tests.antt =====
-- Tests of Layout, and its theorems at concrete inputs.
use cdk_log_to_s.Prelude.{
  codes, ◌≡◌, refl, drop_while, drop_while_end, text_eq, arith, number_text, digits_fuel, some, [],
  ◌∷◌, true,
}
use cdk_log_to_s.Go.Strings.{trim_space, trim_left, trim_right}
use cdk_log_to_s.Go.Strings as Go
use cdk_log_to_s.Env
use cdk_log_to_s.Layout.{
  normalize_prefix, Day, Entropy, sanitize, sanitized, is_kept, padded, partition_path, build_key,
  random_suffix, suffix_of, hex_encode, hex_digit,
}
use cdk_log_to_s.Layout.Agreement.{normalize_prefix-agree}
use cdk_log_to_s.Layout.Names.{IsRandom}
use cdk_log_to_s.Integ.Keys.{key_test}
use cdk_log_to_s.Integ.Keys.Written.{build_key-key_test}

abbrev day : Day
day = record { year = 2026; month = 8; date = 31 }

abbrev entropy : Entropy
entropy = record { random = some (0 ∷ 1 ∷ 171 ∷ 16 ∷ 255 ∷ 9 ∷ []); unix_nano = 0 }

key_text :
    build_key (codes "/logs") day (codes "my/function") [] entropy
    ≡ codes "logs/2026/08/31/my_function-none-0001ab10ff09.parquet"
unfolding build_key partition_path normalize_prefix trim_space trim_left trim_right drop_while
    drop_while_end Go.is_space text_eq padded number_text digits_fuel sanitize sanitized is_kept
    random_suffix suffix_of hex_encode hex_digit
key_text = refl

normalize_prefix-agree_example :
    Env.normalize_prefix (codes " /a/b// ") ≡ normalize_prefix (codes " /a/b// ")
normalize_prefix-agree_example = normalize_prefix-agree (codes " /a/b// ") (omega arith)

logs : normalize_prefix (codes "/logs") ≡ codes "logs/"
unfolding normalize_prefix trim_space trim_left trim_right drop_while drop_while_end Go.is_space
    text_eq
logs = refl

entropy-IsRandom : IsRandom entropy
entropy-IsRandom buf h =
    let same : buf ≡ 0 ∷ 1 ∷ 171 ∷ 16 ∷ 255 ∷ 9 ∷ [] = cc h in rw same (omega arith)

build_key-key_test_example :
    key_test (build_key (codes "/logs") day (codes "my/function") [] entropy) ≡ true
build_key-key_test_example =
    build_key-key_test (codes "/logs") day (codes "my/function") [] entropy logs (omega arith)
      (omega arith) (omega arith) entropy-IsRandom
