-- ===== src/Agent/Config.antt =====
-- extension-go/config.go: the settings of the extension, read from its environment.
pub mod Laws
pub mod Contract
use cdk_log_to_s.Prelude.{
  ℕ, suc, ◌+◌, ◌*◌, Text, String, codes, text_eq, lookup, any, leb, ltb, Bool, true, false,
  if◌then◌else◌, List, [], ◌∷◌, ◌++◌, Option, none, some, ◌or_else◌,
}
use cdk_log_to_s.Env.Vars
use cdk_log_to_s.Go.Strings.{trim_space, to_upper, to_lower}
use cdk_log_to_s.Go.Strconv.{ℤ, atoi, to_int64, parse_bool}
use cdk_log_to_s.Layout.{normalize_prefix}

pub data Level : Type 0 where
  level_debug level_info level_warn level_error : Level

unfoldable pub level_number : Level → ℕ
level_number level_debug = 0
level_number level_info = 1
level_number level_warn = 2
level_number level_error = 3

-- The switch on the text in capitals, and whether a case names it.
unfoldable pub parse_level : Text → Level × Bool
parse_level s =
    let name = to_upper (trim_space s) in
    if any (text_eq name) (codes "DEBUG" ∷ codes "TRACE" ∷ [])
    then (level_debug, true)
    else if any (text_eq name) (codes "INFO" ∷ [])
    then (level_info, true)
    else if any (text_eq name) (codes "WARN" ∷ codes "WARNING" ∷ [])
    then (level_warn, true)
    else if any (text_eq name) (codes "ERROR" ∷ codes "FATAL" ∷ codes "CRITICAL" ∷ [])
    then (level_error, true)
    else (level_info, false)

-- `CodecFor` and `IsSupportedCompression` of extension-go/internal/logrecord/parquet.go.
pub data Codec : Type 0 where
  snappy zstd gzip uncompressed : Codec

unfoldable pub codec_for : Text → Option Codec
codec_for name =
    if text_eq name (codes "snappy")
    then some snappy
    else if text_eq name (codes "zstd")
    then some zstd
    else if text_eq name (codes "gzip")
    then some gzip
    else if any (text_eq name) (codes "uncompressed" ∷ codes "none" ∷ [])
    then some uncompressed
    else none

unfoldable pub is_supported_compression : Text → Bool
unfolding codec_for
is_supported_compression name = elim (codec_for name) [ none ↦ false | some c ↦ true ]

-- A process's environment: `os.Getenv` gives the empty text for a variable that is not set.
abbrev pub Environment : Type 0
Environment = List (String × Text)

unfoldable pub os_getenv : Environment → String → Text
unfolding lookup
os_getenv env key = lookup key env or_else []

unfoldable pub get_env : Environment → String → Text → Text
unfolding os_getenv
get_env env key fallback = let v = os_getenv env key in if text_eq v [] then fallback else v

unfoldable pub first_non_empty : List Text → Text
first_non_empty [] = []
first_non_empty (v ∷ values) = let rest = first_non_empty values in if text_eq v [] then rest else v

abbrev pub bucket_deprecated : String
bucket_deprecated = "APP_LOGS_BUCKET"

abbrev pub level_deprecated : String
level_deprecated = "LOG_LEVEL"

-- A warning: the variable, and the text that is not what it should be.
abbrev pub Warning : Type 0
Warning = String × Text

-- Durations in nanoseconds.
abbrev pub second : ℕ
second = 1000000000

abbrev pub millisecond : ℕ
millisecond = 1000000

-- The level, and a warning for a text that is no level.
unfoldable pub level_setting : Text → Level × List Warning
level_setting raw =
    if text_eq raw []
    then (level_info, [])
    else (let (level, known) = parse_level raw in
        if known then (level, []) else (level_info, (Vars.level, raw) ∷ []))

-- The shape of the other blocks: nothing for an empty text, else what the test accepts, or a warning.
unfoldable pub setting : {A : Type 0} → String → (Text → Option A) → A → Text → A × List Warning
setting name accept fallback raw =
    if text_eq raw []
    then (fallback, [])
    else elim (accept raw) [ none ↦ (fallback, (name, raw) ∷ []) | some a ↦ (a, []) ]

-- `n, err := strconv.Atoi(raw); err == nil && n > 0`, and with `n >= 0`.
unfoldable pub natural_of : Option ℤ → Option ℕ
natural_of none = none
natural_of (some (ℤ.pos n)) = some n
natural_of (some (ℤ.negsuc n)) = none

unfoldable pub positive_of : Option ℤ → Option ℕ
positive_of none = none
positive_of (some (ℤ.pos n)) = if leb n 0 then none else some n
positive_of (some (ℤ.negsuc n)) = none

unfoldable pub scaled : ℕ → Option ℕ → Option ℤ
scaled unit none = none
scaled unit (some n) = some (to_int64 (n * unit))

unfoldable pub flush_of : Text → Option ℤ
unfolding scaled positive_of
flush_of raw = scaled second (positive_of (atoi raw))

unfoldable pub wait_of : Text → Option ℤ
unfolding scaled natural_of
wait_of raw = scaled millisecond (natural_of (atoi raw))

unfoldable pub bytes_of : Text → Option ℕ
unfolding positive_of
bytes_of raw = positive_of (atoi raw)

unfoldable pub compression_of : Text → Option Text
compression_of raw =
    let codec = to_lower (trim_space raw) in
    if is_supported_compression codec then some codec else none

pub record Config : Type 0 where
  pub bucket : Text
  pub prefix : Text
  pub level : Level
  pub flush_interval : ℤ
  pub max_buffer_bytes : ℕ
  pub telemetry_port : Text
  pub compression : Text
  pub runtime_done_wait : ℤ
  pub include_platform_report : Bool
  pub debug : Bool
  pub function_name : Text
  pub region : Text
  pub extension_name : Text

unfoldable pub load_config : Environment → Config × List Warning
load_config env =
    let (level, w1) =
      level_setting
        (first_non_empty (os_getenv env Vars.level ∷ os_getenv env level_deprecated ∷ [])) in
    let (flush, w2) =
      setting Vars.flush_interval_seconds flush_of (ℤ.pos (15 * second))
        (os_getenv env Vars.flush_interval_seconds) in
    let (bytes, w3) =
      setting Vars.max_buffer_bytes bytes_of (10 * 1024 * 1024)
        (os_getenv env Vars.max_buffer_bytes) in
    let (codec, w4) =
      setting Vars.compression compression_of (codes "snappy") (os_getenv env Vars.compression) in
    let (report, w5) =
      setting Vars.include_platform_report parse_bool true
        (os_getenv env Vars.include_platform_report) in
    let (wait, w6) =
      setting Vars.runtime_done_wait_ms wait_of (ℤ.pos second)
        (os_getenv env Vars.runtime_done_wait_ms) in
    let (debug, w7) = setting Vars.debug parse_bool false (os_getenv env Vars.debug) in
    (
      record {
        bucket = first_non_empty (os_getenv env Vars.bucket ∷ os_getenv env bucket_deprecated ∷ []);
        prefix = normalize_prefix (get_env env Vars.prefix (codes "logs/"));
        level = level;
        flush_interval = flush;
        max_buffer_bytes = bytes;
        telemetry_port = get_env env Vars.telemetry_port (codes "2020");
        compression = codec;
        runtime_done_wait = wait;
        include_platform_report = report;
        debug = debug;
        function_name = os_getenv env "AWS_LAMBDA_FUNCTION_NAME";
        region = os_getenv env "AWS_REGION";
        extension_name = codes "log-to-s3";
      },
      w1 ++ (w2 ++ (w3 ++ (w4 ++ (w5 ++ (w6 ++ w7))))),
    )
