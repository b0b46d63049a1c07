-- ===== src/Agent/Config/Contract.antt =====
-- The environment that the construct sets, as the extension reads it.
use mathlib.Core.Option
use cdk_log_to_s.Prelude.{
  text_eq, drop_while, drop_while_end, ◌↔◌, ℕ, ◌*◌, ◌/◌, ◌<◌, ◌≤◌, ◌≡◌, ◌≢◌, Text, String, codes,
  lookup, number_text, bool_text, All, refl, ap, sym, ◌∙◌, Option, none, some, ◌or_else◌, [], ◌∷◌,
  Bool, true, false, ok,
}
use cdk_log_to_s.Aws.{Cdk, Lawful}
use cdk_log_to_s.Env.Vars
use cdk_log_to_s.Extension.{level_text, compression_text}
use cdk_log_to_s.Extension.Environment.{EnvironmentOptions, build_environment}
use cdk_log_to_s.Extension.Environment.Laws.{Holds, build_environment-Holds}
use cdk_log_to_s.Go.Strconv.{ℤ, int_limit, parse_bool}
use cdk_log_to_s.Layout.{normalize_prefix}
use cdk_log_to_s.Layout.Agreement.{normalize_prefix-kept_iff}
use cdk_log_to_s.Env.Strip.{IsNormal}
use cdk_log_to_s.Go.Strings.{is_space, trim_space, trim_left, trim_right}
use cdk_log_to_s.Agent.Config.{
  Config, Environment, os_getenv, get_env, first_non_empty, setting, level_setting, load_config,
  flush_of, wait_of, bytes_of, compression_of, second, millisecond, level_deprecated,
}
use cdk_log_to_s.Agent.Config.Laws.{
  level_of, level_setting-read, level_text-some, compression_of-text, flush_of-number_text,
  wait_of-number_text, bytes_of-number_text, bool_text-read, get_env-some, first_non_empty-some,
  get_env-port, setting-read,
}
use cdk_log_to_s.Go.Strconv.Laws.{number_text-some}

module _ (cdk : Cdk) (laws : Lawful cdk) where
  -- What the extension asks of the options, beyond what the construct does: a bucket, a prefix that
  -- is not empty and that normalising keeps, and numbers that a 64-bit integer holds, in
  -- nanoseconds where they are durations.
  pub record IsReadable (o : EnvironmentOptions cdk) : Type 0 where
    pub bucket : o.bucket_name ≢ []
    pub prefix : o.key_prefix ≢ []
    pub normal : normalize_prefix o.key_prefix ≡ o.key_prefix
    pub flush :
        (d : cdk.Duration)
        → o.flush_interval ≡ some d
        → (1 ≤ cdk.to_milliseconds d / 1000) × (cdk.to_milliseconds d / 1000 ≤ 9223372036)
    pub buffer :
        (s : cdk.Size)
        → o.max_buffer_size ≡ some s
        → (1 ≤ cdk.to_bytes s) × (cdk.to_bytes s < int_limit)
    pub wait :
        (d : cdk.Duration) → o.runtime_done_wait ≡ some d → cdk.to_milliseconds d ≤ 9223372036854

  -- The configuration that the options ask for, with the defaults of the extension.
  pub record Reads (o : EnvironmentOptions cdk) (c : Config) : Type 0 where
    pub bucket : c.bucket ≡ o.bucket_name
    pub prefix : c.prefix ≡ o.key_prefix
    pub level : c.level ≡ level_of o.log_level
    pub compression : c.compression ≡ compression_text o.compression
    pub port : c.telemetry_port ≡ (Option.map number_text o.telemetry_port or_else codes "2020")
    pub flush : c.flush_interval ≡ (
        Option.map (λ d. ℤ.pos (cdk.to_milliseconds d / 1000 * second)) o.flush_interval
        or_else ℤ.pos (15 * second))
    pub buffer : c.max_buffer_bytes ≡ (Option.map cdk.to_bytes o.max_buffer_size or_else 10485760)
    pub wait : c.runtime_done_wait ≡ (
        Option.map (λ d. ℤ.pos (cdk.to_milliseconds d * millisecond)) o.runtime_done_wait
        or_else ℤ.pos second)
    pub report : c.include_platform_report ≡ (o.include_platform_report or_else true)
    pub debug : c.debug ≡ (o.extension_debug or_else false)

-- `process` has the variables of `env`, and may have others.
abbrev pub Passes : Environment → Environment → Type 0
Passes env process =
    All (λ key. lookup key process ≡ lookup key env)
      (Vars.bucket ∷ Vars.prefix ∷ Vars.level ∷ Vars.compression ∷ Vars.telemetry_port
        ∷ Vars.flush_interval_seconds ∷ Vars.max_buffer_bytes ∷ Vars.include_platform_report
        ∷ Vars.runtime_done_wait_ms ∷ Vars.debug ∷ [])

module _ (cdk : Cdk) (laws : Lawful cdk) (o : EnvironmentOptions cdk) (env process : Environment)
    (h : Holds cdk laws o env) (r : IsReadable cdk laws o) (same : Passes env process) where
  level_read :
      level_setting
        (first_non_empty (os_getenv process Vars.level ∷ os_getenv process level_deprecated ∷ []))
      ≡ (level_of o.log_level, [])
  level_read =
      ap level_setting (
        first_non_empty-some process Vars.level (level_text o.log_level)
          (os_getenv process level_deprecated ∷ []) (same.1.1.0 ∙ h.level)
          (level_text-some o.log_level))
      ∙ level_setting-read o.log_level

  compression_read :
      setting Vars.compression compression_of (codes "snappy") (os_getenv process Vars.compression)
      ≡ (compression_text o.compression, [])
  compression_read =
      setting-read process Vars.compression compression_of (codes "snappy") compression_text
        compression_text (some o.compression) (same.1.1.1.0 ∙ h.compression)
        (λ c e. compression_of-text c)

  flush_read :
      setting Vars.flush_interval_seconds flush_of
        (ℤ.pos (15 * second))
        (os_getenv process Vars.flush_interval_seconds)
      ≡ (
        Option.map (λ d. ℤ.pos (cdk.to_milliseconds d / 1000 * second)) o.flush_interval
            or_else ℤ.pos (15 * second),
        [],
      )
  flush_read =
      setting-read process Vars.flush_interval_seconds flush_of (ℤ.pos (15 * second)) _ _
        o.flush_interval (same.1.1.1.1.1.0 ∙ h.flush)
        (λ d e. (number_text-some _, flush_of-number_text _ (r.flush d e).0 (r.flush d e).1))

  bytes_read :
      setting Vars.max_buffer_bytes bytes_of
        (10 * 1024 * 1024)
        (os_getenv process Vars.max_buffer_bytes)
      ≡ (Option.map cdk.to_bytes o.max_buffer_size or_else 10485760, [])
  bytes_read =
      setting-read process Vars.max_buffer_bytes bytes_of (10 * 1024 * 1024) _ _ o.max_buffer_size
        (same.1.1.1.1.1.1.0 ∙ h.buffer)
        (λ s e. (number_text-some _, bytes_of-number_text _ (r.buffer s e).0 (r.buffer s e).1))

  report_read :
      setting Vars.include_platform_report parse_bool true
        (os_getenv process Vars.include_platform_report)
      ≡ (Option.map (λ b. b) o.include_platform_report or_else true, [])
  report_read =
      setting-read process Vars.include_platform_report parse_bool true bool_text (λ b. b)
        o.include_platform_report (same.1.1.1.1.1.1.1.0 ∙ h.report) (λ b e. bool_text-read b)

  wait_read :
      setting Vars.runtime_done_wait_ms wait_of
        (ℤ.pos second)
        (os_getenv process Vars.runtime_done_wait_ms)
      ≡ (
        Option.map (λ d. ℤ.pos (cdk.to_milliseconds d * millisecond)) o.runtime_done_wait
            or_else ℤ.pos second,
        [],
      )
  wait_read =
      setting-read process Vars.runtime_done_wait_ms wait_of (ℤ.pos second) _ _ o.runtime_done_wait
        (same.1.1.1.1.1.1.1.1.0 ∙ h.wait)
        (λ d e. (number_text-some _, wait_of-number_text _ (r.wait d e)))

  debug_read :
      setting Vars.debug parse_bool false (os_getenv process Vars.debug)
      ≡ (Option.map (λ b. b) o.extension_debug or_else false, [])
  debug_read =
      setting-read process Vars.debug parse_bool false bool_text (λ b. b) o.extension_debug
        (same.1.1.1.1.1.1.1.1.1.0 ∙ h.debug) (λ b e. bool_text-read b)

  map_id : (b : Option Bool) (d : Bool) → (Option.map (λ x. x) b or_else d) ≡ (b or_else d)
  map_id none d = refl
  map_id (some x) d = refl

  Reads-Holds : Reads cdk laws o (load_config process).0 × ((load_config process).1 ≡ [])
  unfolding load_config
  Reads-Holds = (
    record {
      bucket =
          first_non_empty-some process Vars.bucket o.bucket_name _ (same.0 ∙ h.bucket) r.bucket;
      prefix =
          ap normalize_prefix
            (get_env-some process Vars.prefix o.key_prefix _ (same.1.0 ∙ h.prefix) r.prefix)
          ∙ r.normal;
      level = ap (λ p. p.0) level_read;
      compression = ap (λ p. p.0) compression_read;
      port = get_env-port process Vars.telemetry_port o.telemetry_port (same.1.1.1.1.0 ∙ h.port);
      flush = ap (λ p. p.0) flush_read;
      buffer = ap (λ p. p.0) bytes_read;
      wait = ap (λ p. p.0) wait_read;
      report = ap (λ p. p.0) report_read ∙ map_id o.include_platform_report true;
      debug = ap (λ p. p.0) debug_read ∙ map_id o.extension_debug false;
    },
    rw (level_read, compression_read, flush_read, bytes_read, report_read, wait_read, debug_read),
  )

-- For durations that obey their laws: where `buildEnvironment` returns an environment for options
-- that the extension can read (a bucket, a prefix that is not empty and that the extension keeps,
-- and numbers that fit 64 bits, in nanoseconds where they are durations), `loadConfig` finds in a
-- process that passes these variables on, whatever others it has, exactly the settings of the
-- options, its own defaults for the rest, and gives no warning.
pub build_environment-load_config :
    (cdk : Cdk) (laws : Lawful cdk) (o : EnvironmentOptions cdk) (env process : Environment)
    → build_environment cdk o ≡ ok env
    → IsReadable cdk laws o
    → Passes env process
    → Reads cdk laws o (load_config process).0 × ((load_config process).1 ≡ [])
build_environment-load_config cdk laws o env process built r same =
    Reads-Holds cdk laws o env process (build_environment-Holds cdk laws o env built) r same

get_env-default :
    (env : Environment) (key : String)
    → lookup key env ≡ some []
    → normalize_prefix (get_env env key (codes "logs/")) ≡ codes "logs/"
unfolding get_env os_getenv text_eq normalize_prefix trim_space trim_left trim_right drop_while
    drop_while_end is_space
get_env-default env key h = rw h

logs-some : codes "logs/" ≢ []
logs-some h = cc

-- For durations that obey their laws, an environment that `buildEnvironment` returned for a normal
-- prefix, and a process that passes it on: the prefix under which the extension writes is that of
-- its construct exactly if that is not empty and does not begin with white space of Go.
pub load_config-prefix_iff :
    (cdk : Cdk) (laws : Lawful cdk) (o : EnvironmentOptions cdk) (env process : Environment)
    → build_environment cdk o ≡ ok env
    → IsNormal o.key_prefix
    → Passes env process
    → ((load_config process).0.prefix ≡ o.key_prefix)
      ↔ ((o.key_prefix ≢ []) × ((c : ℕ) (s : Text) → o.key_prefix ≡ c ∷ s → is_space c ≡ false))
unfolding load_config
load_config-prefix_iff cdk laws o env process built normal same =
    let set = same.1.0 ∙ (build_environment-Holds cdk laws o env built).prefix in
    let kept = normalize_prefix-kept_iff o.key_prefix normal in
    (
      λ h.
          let some_left : o.key_prefix ≢ [] =
            λ e. logs-some (sym (get_env-default process Vars.prefix (set ∙ ap some e)) ∙ h ∙ e) in
          (
            some_left,
            kept.0 (
                sym (
                  ap normalize_prefix
                    (get_env-some process Vars.prefix o.key_prefix _ set some_left))
                ∙ h),
          ),
      λ h.
          ap normalize_prefix (get_env-some process Vars.prefix o.key_prefix _ set h.0)
          ∙ kept.1 h.1,
    )
