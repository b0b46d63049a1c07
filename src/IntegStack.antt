-- ===== src/IntegStack.antt =====
-- examples/integ/app.ts: the stack that scripts/verify-integ.ts checks, as a composition of the
-- constructs. `autoDeleteObjects`, the log group of the emitter and the code of its handler are
-- passed on to aws-cdk-lib and left out.
pub mod Laws
pub mod Outputs
pub mod Synth
pub mod Handler
pub mod Tests
use cdk_log_to_s.Prelude.{
  Text, codes, Bool, true, false, List, [], ◌∷◌, Option, none, some, Result, ok, throws, ◌>>=◌,
}
use cdk_log_to_s.Aws.{Cdk, Bucket, LambdaFunction}
use cdk_log_to_s.Assets.{Machine}
use cdk_log_to_s.LogBucket as Bucketed
use cdk_log_to_s.LogBucket.{LogBucketProps, LogBucket, new_log_bucket, absent, given}
use cdk_log_to_s.Extension.{
  LogToS3ExtensionProps, LogToS3Extension, LogToS3AttachOptions, Wiring, attach, debug,
}
use cdk_log_to_s.Extension.Construct.{new_extension}
use cdk_log_to_s.LogAnalytics as Analytics
use cdk_log_to_s.LogAnalytics.{Stack, LogAnalytics, LogAnalyticsFromExtensionOptions, Workgroup}
use cdk_log_to_s.LogCompaction as Compaction
use cdk_log_to_s.LogCompaction.{LogCompaction, LogCompactionFromExtensionOptions}
use cdk_log_to_s.Integ.Services.{Output}

-- The names that CloudFormation gives: of the two buckets and the two functions; and the path of
-- the emitter.
pub record Deployed : Type 0 where
  pub logs_bucket : Bucket
  pub results_bucket : Bucket
  pub function_name : Text
  pub compaction_function_name : Text
  pub emitter_path : Text

module _ (cdk : Cdk) where
  unfoldable pub throwaway_bucket : LogBucketProps cdk
  throwaway_bucket = record {
    encryption = absent;
    block_public_access = absent;
    enforce_ssl = absent;
    versioned = absent;
    removal_policy = given (some cdk.destroy);
    lifecycle_rules = none;
    key_prefix = none;
    infrequent_access_after = some (cdk.days 0);
    glacier_after = some (cdk.days 0);
    expire_after = some (cdk.days 1);
    abort_incomplete_uploads_after = none;
  }

  unfoldable pub extension_props : Bucket → LogToS3ExtensionProps cdk
  extension_props logs_bucket = record {
    logs_bucket = logs_bucket;
    architecture = none;
    key_prefix = none;
    log_level = some debug;
    flush_interval = some (cdk.seconds 5);
    max_buffer_size = none;
    compression = none;
    telemetry_port = none;
    include_platform_report = none;
    runtime_done_wait = none;
    extension_debug = some true;
    layer_version_name = none;
    description = none;
    compatible_runtimes = none;
    removal_policy = some cdk.destroy;
  }

  unfoldable pub analytics_options : Bucket → LogAnalyticsFromExtensionOptions cdk
  analytics_options results_bucket = record {
    database_name = codes "log_to_s3_integ";
    table_name = some (codes "app_logs");
    create_database = none;
    projection_window = some (cdk.days 7);
    create_workgroup = none;
    workgroup_name = none;
    results_bucket = some results_bucket;
    results_expiration = none;
    removal_policy = some cdk.destroy;
  }

  unfoldable pub compaction_options : LogCompactionFromExtensionOptions cdk
  compaction_options = record {
    schedule = none;
    enabled = some false;
    lookback = some (cdk.days 2);
    min_files_per_partition = some 2;
    max_files_per_run = none;
    max_bytes_per_run = none;
    compression = none;
    memory_size = none;
    timeout = none;
    log_retention = none;
    debug = none;
    removal_policy = some cdk.destroy;
  }

  -- `new lambda.Function(this, 'Emitter', …)`, by what an attachment reads of it.
  abbrev pub emitter : Deployed → LambdaFunction cdk
  emitter deployed = record { architecture = cdk.arm_64; path = deployed.emitter_path }

  abbrev pub no_options : LogToS3AttachOptions
  no_options = record { log_level = none; grant_write = none }

  pub record IntegStack : Type 0 where
    pub logs : LogBucket cdk
    pub extension : LogToS3Extension cdk
    pub wiring : Wiring cdk
    pub results : LogBucket cdk
    pub analytics : LogAnalytics cdk
    pub compaction : LogCompaction cdk
    pub outputs : List Output

  -- `new CfnOutput(this, id, { value })`.
  abbrev cfn_output : Text → Text → Output
  cfn_output id value = record { output_key = some id; output_value = some value }

  unfoldable pub outputs_of :
      Deployed → LogToS3Extension cdk → LogAnalytics cdk → (workgroup_name : Text) → List Output
  outputs_of deployed extension analytics workgroup_name =
      cfn_output (codes "FunctionName") deployed.function_name
      ∷ cfn_output (codes "CompactionFunctionName") deployed.compaction_function_name
      ∷ cfn_output (codes "LogsBucketName") deployed.logs_bucket.bucket_name
      ∷ cfn_output (codes "KeyPrefix") extension.key_prefix
      ∷ cfn_output (codes "DatabaseName") analytics.database_name
      ∷ cfn_output (codes "TableName") analytics.table_name
      ∷ cfn_output (codes "WorkgroupName") workgroup_name
      ∷ []

  -- `analytics.workgroup!.name`.
  unfoldable pub name_of : Option Workgroup → Result Text
  name_of none = throws (codes "Cannot read properties of undefined (reading 'name')")
  name_of (some workgroup) = ok workgroup.name

  unfoldable pub new_integ_stack : Machine → Stack → Deployed → Result IntegStack
  new_integ_stack machine stack deployed = do
    logs ← new_log_bucket cdk throwaway_bucket
    extension ← new_extension cdk machine (extension_props deployed.logs_bucket)
    wiring ←
        attach cdk extension (emitter deployed) no_options (record { attached = []; calls = [] })
    results ← new_log_bucket cdk throwaway_bucket
    analytics ←
        Analytics.from_extension cdk stack extension (analytics_options deployed.results_bucket)
    compaction ← Compaction.from_extension cdk machine extension compaction_options
    workgroup_name ← name_of analytics.workgroup
    ok (record {
      logs = logs;
      extension = extension;
      wiring = wiring;
      results = results;
      analytics = analytics;
      compaction = compaction;
      outputs = outputs_of deployed extension analytics workgroup_name;
    })
