-- ===== src/Extension/Environment.antt =====
-- `buildEnvironment` of src/log-to-s3-extension.ts.
pub mod Laws
use cdk_log_to_s.Prelude.{
  ℕ, String, Text, codes, number_text, bool_text, Bool, List, [], ◌∷◌, Option, none, some,
  assign_some, assign, Result, ok, ◌>>=◌, ◌>>◌, throw_if, ltb,
}
use cdk_log_to_s.Aws.{Cdk}
use cdk_log_to_s.Env.Vars
use cdk_log_to_s.Extension.{LogLevel, LogCompression, level_text, compression_text}
use mathlib.Core.Option

module _ (cdk : Cdk) where
  pub record EnvironmentOptions : Type 0 where
    pub bucket_name : Text
    pub key_prefix : Text
    pub log_level : LogLevel
    pub compression : LogCompression
    pub telemetry_port : Option ℕ
    pub flush_interval : Option cdk.Duration
    pub max_buffer_size : Option cdk.Size
    pub include_platform_report : Option Bool
    pub runtime_done_wait : Option cdk.Duration
    pub extension_debug : Option Bool

  unfoldable pub flush_interval_message : Text
  flush_interval_message = codes "LogToS3Extension: flushInterval must be at least one second."

  -- The guard and the value of the flush interval.
  unfoldable pub flush_seconds : Option cdk.Duration → Result (Option Text)
  flush_seconds none = ok none
  flush_seconds (some interval) = do
    throw_if (ltb (cdk.to_milliseconds interval) 1000) flush_interval_message
    seconds ← cdk.to_seconds interval
    ok (some (number_text seconds))

  -- The object after all assignments; `seconds` is the value for the flush interval.
  unfoldable pub environment_entries : EnvironmentOptions → Option Text → List (String × Text)
  environment_entries o seconds = assign_some Vars.debug (Option.map bool_text o.extension_debug) (
      assign_some Vars.runtime_done_wait_ms
        (Option.map (λ d. number_text (cdk.to_milliseconds d)) o.runtime_done_wait)
        (assign_some Vars.include_platform_report (Option.map bool_text o.include_platform_report) (
          assign_some Vars.max_buffer_bytes
            (Option.map (λ s. number_text (cdk.to_bytes s)) o.max_buffer_size)
            (assign_some Vars.flush_interval_seconds seconds (
              assign_some Vars.telemetry_port (Option.map number_text o.telemetry_port) (
                (Vars.bucket, o.bucket_name)
                ∷ (Vars.prefix, o.key_prefix)
                ∷ (Vars.level, level_text o.log_level)
                ∷ (Vars.compression, compression_text o.compression)
                ∷ []))))))

  unfoldable pub build_environment : EnvironmentOptions → Result (List (String × Text))
  build_environment o = do
    seconds ← flush_seconds o.flush_interval
    ok (environment_entries o seconds)
