-- ===== src/Compactor/Written/Tests.antt =====
-- The objects of a function whose name begins with `part-`, at a concrete day.
use cdk_log_to_s.Prelude.{
  ℕ, Text, codes, text_eq, starts_with, drop_while, drop_while_end, true, false, ◌&&◌, ◌||◌, not,
  [], ◌++◌, none, ◌≡◌, refl, arith,
}
use cdk_log_to_s.Go.Strings.{trim_space, is_space}
use cdk_log_to_s.Layout.{Day, Entropy, sanitize, sanitized, is_kept, build_key}
use cdk_log_to_s.Layout.Names.{IsRandom}
use cdk_log_to_s.Compactor.{Config, is_candidate}
use cdk_log_to_s.Compactor.Bucket.{mem}
use cdk_log_to_s.Compactor.Bucket.Rows.{is_visible}
use cdk_log_to_s.Compactor.Settings.{partitions}
use cdk_log_to_s.Compactor.Written.{build_key-is_candidate, build_key-in_window}

abbrev function_name : Text
function_name = codes "part-sync"

abbrev prefix : Text
prefix = codes "logs/"

abbrev correlation_id : Text
correlation_id = codes "c1"

abbrev clock : Entropy
clock = record { random = none; unix_nano = 1788220800000000000 }

abbrev days_ago : ℕ → Day
days_ago i = record { year = 2026; month = 8; date = i }

abbrev key : Text
key = build_key prefix (days_ago 1) function_name correlation_id clock

random : IsRandom clock
random buf h = absurd (cc h)

build_key-is_candidate_example :
    (is_visible key
      ≡ not (
          starts_with (codes "_") (sanitize function_name (codes "unknown"))
          || starts_with (codes ".") (sanitize function_name (codes "unknown"))))
    × (is_candidate key ≡ (
        is_visible key
        && not
            (starts_with (codes "part-") (sanitize function_name (codes "unknown") ++ codes "-"))))
build_key-is_candidate_example =
    build_key-is_candidate prefix (days_ago 1) function_name correlation_id clock random

kept_as_it_is : sanitize function_name (codes "unknown") ≡ function_name
unfolding sanitize sanitized is_kept trim_space is_space drop_while drop_while_end text_eq
kept_as_it_is = refl

-- It is visible, and never merged.
part_sync : (is_visible key ≡ true) × (is_candidate key ≡ false)
unfolding starts_with
part_sync =
    let both =
      build_key-is_candidate prefix (days_ago 1) function_name correlation_id clock random in
    let visible : is_visible key ≡ true = rw (both.0, kept_as_it_is) refl in
    (visible, rw (both.1, visible, kept_as_it_is) refl)

abbrev cfg : Config
cfg = record {
  bucket = codes "b";
  prefix = codes "logs/";
  compression = codes "snappy";
  min_files = 8;
  max_files = 2000;
  max_bytes = 268435456;
  lookback_days = 7;
  region = [];
  debug = false;
}

build_key-in_window_example :
    (p : Text) × (mem p (partitions cfg days_ago) ≡ true) × (starts_with p key ≡ true)
build_key-in_window_example =
    build_key-in_window cfg days_ago 1 prefix function_name correlation_id clock (omega arith)
      (omega arith) refl
