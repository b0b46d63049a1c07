-- ===== src/LogAnalytics.antt =====
-- src/log-analytics.ts: the Glue table and the Athena workgroup, as what the constructor creates.
-- `grantQuery` is in LogAnalytics/Query.
pub mod Query
pub mod Laws
pub mod Tests
use cdk_log_to_s.Prelude.{
  ℕ, String, Text, codes, number_text, Bool, true, false, List, [], ◌∷◌, ◌++◌, Option, none, some,
  is_some, Result, ok, ◌>>=◌, ◌or_else◌, if◌then◌else◌,
}
use cdk_log_to_s.Aws.{Cdk, Bucket}
use cdk_log_to_s.Aws.Days.{at_least_one_day}
use cdk_log_to_s.Env.{default_key_prefix, normalize_prefix}
use cdk_log_to_s.Schema.{LogColumn, log_columns, partition_columns}
use cdk_log_to_s.Extension.{LogToS3Extension, below}

-- What the code asks of `Stack.of(this)`, and the name that CloudFormation gives a bucket that
-- the construct creates.
pub record Stack : Type 0 where
  pub account : Text
  pub format_arn : Text → Text → Option Text → Text
  pub created_bucket : Text

module _ (cdk : Cdk) where
  pub record LogAnalyticsFromExtensionOptions : Type 0 where
    pub database_name : Text
    pub table_name : Option Text
    pub create_database : Option Bool
    pub projection_window : Option cdk.Duration
    pub create_workgroup : Option Bool
    pub workgroup_name : Option Text
    pub results_bucket : Option Bucket
    pub results_expiration : Option cdk.Duration
    pub removal_policy : Option cdk.RemovalPolicy

  pub record LogAnalyticsProps : Type 0 where
    pub options : LogAnalyticsFromExtensionOptions
    pub open options use *
    pub logs_bucket : Bucket
    pub key_prefix : Option Text

  -- `new s3.Bucket(…)`, by the properties that the code gives it; the last three are those of its
  -- one lifecycle rule.
  pub record CreatedBucket : Type 0 where
    pub bucket : Bucket
    pub encryption : cdk.BucketEncryption
    pub block_public_access : cdk.BlockPublicAccess
    pub enforce_ssl : Bool
    pub removal_policy : cdk.RemovalPolicy
    pub id : Text
    pub enabled : Bool
    pub expiration : cdk.Duration

  -- The bucket for results: the caller's, or one that is created.
  pub data ResultsBucket : Type 0 where
    existing : Bucket → ResultsBucket
    created : CreatedBucket → ResultsBucket

pub record Database : Type 0 where
  pub catalog_id : Text
  pub name : Text
  pub description : Text

pub record StorageDescriptor : Type 0 where
  pub location : Text
  pub input_format : Text
  pub output_format : Text
  pub compressed : Bool
  pub serialization_library : Text
  pub serde_parameters : List (String × Text)
  pub columns : List LogColumn

pub record Table : Type 0 where
  pub catalog_id : Text
  pub database_name : Text
  pub name : Text
  pub table_type : Text
  pub parameters : List (String × Text)
  pub partition_keys : List LogColumn
  pub storage_descriptor : StorageDescriptor
  pub depends_on_database : Bool

pub record Workgroup : Type 0 where
  pub name : Text
  pub state : Text
  pub recursive_delete_option : Bool
  pub enforce_work_group_configuration : Bool
  pub publish_cloud_watch_metrics_enabled : Bool
  pub selected_engine_version : Text
  pub output_location : Text
  pub encryption_option : Text

module _ (cdk : Cdk) where
  pub record LogAnalytics : Type 0 where
    pub database_name : Text
    pub table_name : Text
    pub key_prefix : Text
    pub logs_bucket : Bucket
    pub database : Option Database
    pub table : Table
    pub workgroup : Option Workgroup
    pub results_bucket : ResultsBucket cdk

  unfoldable pub window_message : Text
  window_message = codes "LogAnalytics: projectionWindow must be at least one day."

unfoldable pub location_of : Bucket → Text → Text
location_of bucket key_prefix = codes "s3://" ++ bucket.bucket_name ++ codes "/" ++ key_prefix

-- `location + "${dt}/"`, where the braces are Athena's.
unfoldable pub location_template : Bucket → Text → Text
location_template bucket key_prefix = location_of bucket key_prefix ++ codes "${dt}/"

unfoldable pub table_parameters : Text → ℕ → List (String × Text)
table_parameters template window_days =
    ("EXTERNAL", codes "TRUE")
    ∷ ("classification", codes "parquet")
    ∷ ("typeOfData", codes "file")
    ∷ ("parquet.compression", codes "SNAPPY")
    ∷ ("projection.enabled", codes "true")
    ∷ ("projection.dt.type", codes "date")
    ∷ ("projection.dt.format", codes "yyyy/MM/dd")
    ∷ ("projection.dt.range", codes "NOW-" ++ number_text window_days ++ codes "DAYS,NOW")
    ∷ ("projection.dt.interval", codes "1")
    ∷ ("projection.dt.interval.unit", codes "DAYS")
    ∷ ("storage.location.template", template)
    ∷ []

abbrev pub bucket_of : {cdk : Cdk} → ResultsBucket cdk → Bucket
bucket_of (existing bucket) = bucket
bucket_of (created c) = c.bucket

module _ (cdk : Cdk) where
  unfoldable pub table_of : Stack → LogAnalyticsProps cdk → Text → Text → ℕ → Table
  table_of stack props key_prefix table_name window_days = record {
    catalog_id = stack.account;
    database_name = props.database_name;
    name = table_name;
    table_type = codes "EXTERNAL_TABLE";
    parameters = table_parameters (location_template props.logs_bucket key_prefix) window_days;
    partition_keys = partition_columns;
    storage_descriptor = record {
      location = location_of props.logs_bucket key_prefix;
      input_format = codes "org.apache.hadoop.hive.ql.io.parquet.MapredParquetInputFormat";
      output_format = codes "org.apache.hadoop.hive.ql.io.parquet.MapredParquetOutputFormat";
      compressed = false;
      serialization_library = codes "org.apache.hadoop.hive.ql.io.parquet.serde.ParquetHiveSerDe";
      serde_parameters = ("serialization.format", codes "1") ∷ [];
      columns = log_columns;
    };
    depends_on_database = props.create_database or_else true;
  }

  unfoldable pub database_of : Stack → LogAnalyticsProps cdk → Text → Database
  database_of stack props table_name = record {
    catalog_id = stack.account;
    name = props.database_name;
    description =
        codes "Logs written by the log-to-s3 Lambda extension (" ++ table_name ++ codes ")";
  }

  unfoldable pub results_bucket_of : Stack → LogAnalyticsProps cdk → ResultsBucket cdk
  results_bucket_of stack props = elim props.results_bucket [
    | some bucket ↦ existing bucket
    | none ↦ created (record {
      bucket = record { bucket_name = stack.created_bucket };
      encryption = cdk.s3_managed;
      block_public_access = cdk.block_all;
      enforce_ssl = true;
      removal_policy = props.removal_policy or_else cdk.retain;
      id = codes "expire-athena-results";
      enabled = true;
      expiration = props.results_expiration or_else cdk.days 30;
    })
  ]

  unfoldable pub workgroup_of : LogAnalyticsProps cdk → Bucket → Workgroup
  workgroup_of props results = record {
    name = props.workgroup_name or_else (props.database_name ++ codes "-wg");
    state = codes "ENABLED";
    recursive_delete_option = true;
    enforce_work_group_configuration = true;
    publish_cloud_watch_metrics_enabled = true;
    selected_engine_version = codes "AUTO";
    output_location = codes "s3://" ++ results.bucket_name ++ codes "/athena-results/";
    encryption_option = codes "SSE_S3";
  }

  unfoldable pub new_analytics : Stack → LogAnalyticsProps cdk → Result (LogAnalytics cdk)
  new_analytics stack props = do
    let table_name = props.table_name or_else codes "app_logs"
    let key_prefix = normalize_prefix (props.key_prefix or_else default_key_prefix)
    window_days ←
        at_least_one_day cdk (window_message cdk) (props.projection_window or_else cdk.days 730)
    let results = results_bucket_of stack props
    ok (record {
      database_name = props.database_name;
      table_name = table_name;
      key_prefix = key_prefix;
      logs_bucket = props.logs_bucket;
      database =
          if props.create_database or_else true
          then some (database_of stack props table_name)
          else none;
      table = table_of stack props key_prefix table_name window_days;
      workgroup =
          if props.create_workgroup or_else true
          then some (workgroup_of props (bucket_of results))
          else none;
      results_bucket = results;
    })

  -- `LogAnalytics.fromExtension`.
  unfoldable pub from_extension :
      Stack
      → LogToS3Extension cdk
      → LogAnalyticsFromExtensionOptions cdk
      → Result (LogAnalytics cdk)
  from_extension stack extension options = new_analytics stack (record {
    options = options;
    logs_bucket = extension.logs_bucket;
    key_prefix = some extension.key_prefix;
  })
