-- ===== src/LogCompaction.antt =====
-- src/log-compaction.ts: the daily compaction job, as what its constructor creates.
pub mod Laws
pub mod Tests
use mathlib.Core.Option
use cdk_log_to_s.Prelude.{
  ℕ, String, Text, codes, number_text, bool_text, ltb, Bool, true, List, [], ◌∷◌, ◌++◌, Option,
  none, some, assign_some, Result, ok, ◌>>=◌, ◌>>◌, throw_if, ◌or_else◌, if◌then◌else◌,
}
use cdk_log_to_s.Aws.{Cdk, Bucket}
use cdk_log_to_s.Aws.Days.{at_least_one_day}
use cdk_log_to_s.Env.Vars
use cdk_log_to_s.Env.{default_key_prefix, normalize_prefix}
use cdk_log_to_s.Assets.{Machine, resolve_compactor_asset}
use cdk_log_to_s.Extension.{LogToS3Extension, LogCompression, snappy, compression_text, below}

module _ (cdk : Cdk) where
  pub record LogCompactionFromExtensionOptions : Type 0 where
    pub schedule : Option cdk.Schedule
    pub enabled : Option Bool
    pub lookback : Option cdk.Duration
    pub min_files_per_partition : Option ℕ
    pub max_files_per_run : Option ℕ
    pub max_bytes_per_run : Option cdk.Size
    pub compression : Option LogCompression
    pub memory_size : Option cdk.Size
    pub timeout : Option cdk.Duration
    pub log_retention : Option cdk.RetentionDays
    pub debug : Option Bool
    pub removal_policy : Option cdk.RemovalPolicy

  -- The options above and the three that `fromExtension` fills in.
  pub record LogCompactionProps : Type 0 where
    pub options : LogCompactionFromExtensionOptions
    pub open options use *
    pub logs_bucket : Bucket
    pub key_prefix : Option Text
    pub architecture : Option cdk.Architecture

  -- `new lambda.Function(…)`, by the properties that the code gives it.
  pub record Handler : Type 0 where
    pub runtime : cdk.Runtime
    pub handler : Text
    pub architecture : cdk.Architecture
    pub code : Text
    pub memory_size : ℕ
    pub timeout : cdk.Duration
    pub environment : List (String × Text)
    pub log_retention : cdk.RetentionDays
    pub log_removal_policy : cdk.RemovalPolicy
    pub description : Text

-- `new events.Rule(…)`, whose one target is the handler.
pub record Rule (cdk : Cdk) : Type 0 where
  pub schedule : cdk.Schedule
  pub description : Text

pub data Access : Type 0 where
  read put delete : Access

-- `bucket.grantRead(handler, pattern)` and so on.
pub record BucketGrant : Type 0 where
  pub access : Access
  pub bucket : Bucket
  pub pattern : Text

module _ (cdk : Cdk) where
  -- The construct: its fields, and the grants that its constructor makes to the handler.
  pub record LogCompaction : Type 0 where
    pub handler : Handler cdk
    pub rule : Option (Rule cdk)
    pub key_prefix : Text
    pub grants : List BucketGrant

  unfoldable pub lookback_message : Text
  lookback_message = codes "LogCompaction: lookback must be at least one day."

  -- The object after all assignments.
  unfoldable pub environment_entries : LogCompactionProps cdk → Text → ℕ → List (String × Text)
  environment_entries props key_prefix lookback_days =
      assign_some Vars.debug (Option.map bool_text props.debug) (
        assign_some Vars.compaction_max_bytes
          (Option.map (λ s. number_text (cdk.to_bytes s)) props.max_bytes_per_run)
          (assign_some Vars.compaction_max_files (Option.map number_text props.max_files_per_run) (
            assign_some Vars.compaction_min_files
              (Option.map number_text props.min_files_per_partition)
              ((Vars.bucket, props.logs_bucket.bucket_name)
                ∷ (Vars.prefix, key_prefix)
                ∷ (Vars.compression, compression_text (props.compression or_else snappy))
                ∷ (Vars.compaction_lookback_days, number_text lookback_days)
                ∷ []))))

  unfoldable pub new_compaction : Machine → LogCompactionProps cdk → Result LogCompaction
  new_compaction machine props = do
    let architecture = props.architecture or_else cdk.arm_64
    let key_prefix = normalize_prefix (props.key_prefix or_else default_key_prefix)
    lookback_days ← at_least_one_day cdk lookback_message (props.lookback or_else cdk.days 7)
    code ← resolve_compactor_asset cdk machine architecture
    memory_size ← cdk.to_mebibytes (props.memory_size or_else cdk.mebibytes 1024)
    let handler : Handler cdk = record {
      runtime = cdk.provided_al2023;
      handler = codes "bootstrap";
      architecture = architecture;
      code = code;
      memory_size = memory_size;
      timeout = props.timeout or_else cdk.minutes 5;
      environment = environment_entries props key_prefix lookback_days;
      log_retention = props.log_retention or_else cdk.one_month;
      log_removal_policy = props.removal_policy or_else cdk.destroy;
      description = codes "log-to-s3: merges small Parquet log files into larger ones";
    }
    let grant : Access → BucketGrant =
        λ access. record { access = access; bucket = props.logs_bucket; pattern = below key_prefix }
    let rule : Rule cdk = record {
      schedule = props.schedule or_else cdk.cron (codes "0") (codes "3");
      description = codes "Daily compaction of log-to-s3 Parquet files";
    }
    ok (record {
      handler = handler;
      rule = if props.enabled or_else true then some rule else none;
      key_prefix = key_prefix;
      grants = grant read ∷ grant put ∷ grant delete ∷ [];
    })

  -- The properties that `fromExtension` passes to the constructor.
  unfoldable pub props_from_extension :
      LogToS3Extension cdk → LogCompactionFromExtensionOptions cdk → LogCompactionProps cdk
  props_from_extension extension options = record {
    options = options;
    logs_bucket = extension.logs_bucket;
    key_prefix = some extension.key_prefix;
    architecture = some extension.architecture;
  }

  unfoldable pub from_extension :
      Machine → LogToS3Extension cdk → LogCompactionFromExtensionOptions cdk → Result LogCompaction
  from_extension machine extension options =
      new_compaction machine (props_from_extension extension options)
