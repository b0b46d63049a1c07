-- ===== src/Extension/Construct.antt =====
-- The constructor of `LogToS3Extension` and `LogToS3Extension.fromAttributes`.
pub mod Laws
use cdk_log_to_s.Prelude.{Text, codes, List, [], ◌∷◌, none, some, Result, ok, ◌>>=◌, ◌or_else◌}
use cdk_log_to_s.Aws.{Cdk}
use cdk_log_to_s.Env.{default_key_prefix, normalize_prefix}
use cdk_log_to_s.Assets.{Machine, resolve_layer_asset}
use cdk_log_to_s.Extension.{
  LogToS3ExtensionProps, LogToS3ExtensionAttributes, LogToS3Extension, created, imported, info,
  snappy,
}
use cdk_log_to_s.Extension.Environment.{EnvironmentOptions, build_environment}

module _ (cdk : Cdk) where
  -- What the constructor passes to `buildEnvironment`.
  unfoldable pub environment_options : LogToS3ExtensionProps cdk → Text → EnvironmentOptions cdk
  environment_options props key_prefix = record {
    bucket_name = props.logs_bucket.bucket_name;
    key_prefix = key_prefix;
    log_level = props.log_level or_else info;
    compression = props.compression or_else snappy;
    telemetry_port = props.telemetry_port;
    flush_interval = props.flush_interval;
    max_buffer_size = props.max_buffer_size;
    include_platform_report = props.include_platform_report;
    runtime_done_wait = props.runtime_done_wait;
    extension_debug = props.extension_debug;
  }

  unfoldable pub new_extension : Machine → LogToS3ExtensionProps cdk → Result (LogToS3Extension cdk)
  new_extension machine props = do
    let architecture = props.architecture or_else cdk.arm_64
    let key_prefix = normalize_prefix (props.key_prefix or_else default_key_prefix)
    asset ← resolve_layer_asset cdk machine architecture
    let layer =
        created asset (architecture ∷ []) props.compatible_runtimes props.layer_version_name
          (props.description
            or_else codes "log-to-s3: captures Lambda telemetry and writes it to S3 as Parquet")
          props.removal_policy
    environment ← build_environment cdk (environment_options props key_prefix)
    ok (record {
      layer = layer;
      logs_bucket = props.logs_bucket;
      key_prefix = key_prefix;
      architecture = architecture;
      environment = environment;
    })

  -- The options that an imported extension does not have are left undefined.
  unfoldable pub imported_options : LogToS3ExtensionAttributes cdk → Text → EnvironmentOptions cdk
  imported_options attrs key_prefix = record {
    bucket_name = attrs.logs_bucket.bucket_name;
    key_prefix = key_prefix;
    log_level = attrs.log_level or_else info;
    compression = attrs.compression or_else snappy;
    telemetry_port = attrs.telemetry_port;
    flush_interval = none;
    max_buffer_size = none;
    include_platform_report = none;
    runtime_done_wait = none;
    extension_debug = none;
  }

  unfoldable pub from_attributes : LogToS3ExtensionAttributes cdk → Result (LogToS3Extension cdk)
  from_attributes attrs = do
    let key_prefix = normalize_prefix (attrs.key_prefix or_else default_key_prefix)
    environment ← build_environment cdk (imported_options attrs key_prefix)
    ok (record {
      layer = imported attrs.layer_version_arn;
      logs_bucket = attrs.logs_bucket;
      key_prefix = key_prefix;
      architecture = attrs.architecture or_else cdk.arm_64;
      environment = environment;
    })
