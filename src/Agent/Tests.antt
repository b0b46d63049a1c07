-- ===== src/Agent/Tests.antt =====
-- Tests of Agent, and its theorems at concrete inputs.
use cdk_log_to_s.Prelude.{
  ℕ, Text, codes, [], ◌∷◌, none, some, ok, false, ◌≡◌, ◌≢◌, ◌↔◌, refl, arith, text_eq, drop_while,
  drop_while_end, lookup, assign_some, assign, number_text, bool_text,
}
use cdk_log_to_s.Aws.Sample.{sample, sample-Lawful}
use cdk_log_to_s.Env.Vars
use cdk_log_to_s.Env.Tests.{logs-IsNormal}
use cdk_log_to_s.Extension.{LogLevel, LogCompression, level_text, compression_text}
use cdk_log_to_s.Extension.Environment.{
  EnvironmentOptions, build_environment, flush_seconds, environment_entries,
}
use cdk_log_to_s.Go.Strings.{is_space, trim_space, trim_left, trim_right}
use cdk_log_to_s.Layout.{normalize_prefix}
use cdk_log_to_s.Agent.Config.{Environment, load_config}
use cdk_log_to_s.Agent.Config.Contract.{
  IsReadable, Reads, Passes, build_environment-load_config, load_config-prefix_iff,
}

abbrev options : EnvironmentOptions sample
options = record {
  bucket_name = codes "bucket";
  key_prefix = codes "logs/";
  log_level = LogLevel.warn;
  compression = LogCompression.zstd;
  telemetry_port = some 4000;
  flush_interval = some 30000;
  max_buffer_size = some 4;
  include_platform_report = some false;
  runtime_done_wait = some 500;
  extension_debug = none;
}

abbrev env : Environment
env =
    (Vars.bucket, codes "bucket")
    ∷ (Vars.prefix, codes "logs/")
    ∷ (Vars.level, codes "WARN")
    ∷ (Vars.compression, codes "zstd")
    ∷ (Vars.telemetry_port, codes "4000")
    ∷ (Vars.flush_interval_seconds, codes "30")
    ∷ (Vars.max_buffer_bytes, codes "4194304")
    ∷ (Vars.include_platform_report, codes "false")
    ∷ (Vars.runtime_done_wait_ms, codes "500")
    ∷ []

abbrev process : Environment
process = ("LOG_LEVEL", codes "ERROR") ∷ ("AWS_REGION", codes "eu-central-1") ∷ env

built : build_environment sample options ≡ ok env
unfolding build_environment flush_seconds environment_entries assign_some assign level_text
    compression_text number_text bool_text
built = refl

passes : Passes env process
unfolding lookup
passes = (refl, (refl, (refl, (refl, (refl, (refl, (refl, (refl, (refl, (refl, tt))))))))))

readable : IsReadable sample sample-Lawful options
unfolding normalize_prefix trim_space trim_left trim_right drop_while drop_while_end is_space
    text_eq
readable = record {
  bucket = λ h. cc;
  prefix = λ h. cc;
  normal = refl;
  flush = λ d h. ground (arith, h);
  buffer = λ s h. ground (arith, h);
  wait = λ d h. ground (arith, h);
}

build_environment-load_config_example :
    Reads sample sample-Lawful options (load_config process).0 × ((load_config process).1 ≡ [])
build_environment-load_config_example =
    build_environment-load_config sample sample-Lawful options env process built readable passes

load_config-prefix_iff_example :
    ((load_config process).0.prefix ≡ codes "logs/")
    ↔ ((codes "logs/" ≢ []) × ((c : ℕ) (s : Text) → codes "logs/" ≡ c ∷ s → is_space c ≡ false))
load_config-prefix_iff_example =
    load_config-prefix_iff sample sample-Lawful options env process built logs-IsNormal passes
