-- ===== src/LogAnalytics/Tests.antt =====
-- The table, the workgroup and the grants at concrete inputs.
use cdk_log_to_s.Prelude.{
  ℕ, Text, codes, text_eq, trim, is_space, [], ◌∷◌, none, some, true, false, ok, ◌≡◌, ◌↔◌, refl,
}
use cdk_log_to_s.Aws.{Bucket}
use cdk_log_to_s.Aws.Sample.{sample, sample-Lawful}
use cdk_log_to_s.Aws.Days.{at_least_one_day}
use cdk_log_to_s.Env.{normalize_prefix, trimmed_prefix}
use cdk_log_to_s.Env.Tests.{logs-IsNormal}
use cdk_log_to_s.Extension.{LogToS3Extension, imported}
use cdk_log_to_s.LogAnalytics.{
  Stack, LogAnalyticsFromExtensionOptions, LogAnalyticsProps, LogAnalytics, Workgroup, created,
  table_of, results_bucket_of, workgroup_of, new_analytics, from_extension,
}
use cdk_log_to_s.LogAnalytics.Laws.{from_extension-table_prefix_iff}

abbrev stack : Stack
stack = record {
  account = codes "1";
  format_arn = λ service resource name. codes "arn:aws:";
  created_bucket = codes "r";
}

abbrev options : LogAnalyticsFromExtensionOptions sample
options = record {
  database_name = codes "d";
  table_name = none;
  create_database = some false;
  projection_window = some 172800000;
  create_workgroup = none;
  workgroup_name = none;
  results_bucket = none;
  results_expiration = none;
  removal_policy = none;
}

abbrev logs_bucket : Bucket
logs_bucket = record { bucket_name = codes "b" }

abbrev extension : LogToS3Extension sample
extension = record {
  layer = imported (codes "arn");
  logs_bucket = logs_bucket;
  key_prefix = codes "logs/";
  architecture = true;
  environment = [];
}

abbrev props : LogAnalyticsProps sample
props = record { options = options; logs_bucket = logs_bucket; key_prefix = some (codes "logs/") }

abbrev workgroup : Workgroup
workgroup = record {
  name = codes "d-wg";
  state = codes "ENABLED";
  recursive_delete_option = true;
  enforce_work_group_configuration = true;
  publish_cloud_watch_metrics_enabled = true;
  selected_engine_version = codes "AUTO";
  output_location = codes "s3://r/athena-results/";
  encryption_option = codes "SSE_S3";
}

abbrev analytics : LogAnalytics sample
analytics = record {
  database_name = codes "d";
  table_name = codes "app_logs";
  key_prefix = codes "logs/";
  logs_bucket = logs_bucket;
  database = none;
  table = table_of sample stack props (codes "logs/") (codes "app_logs") 2;
  workgroup = some workgroup;
  results_bucket = created (record {
    bucket = record { bucket_name = codes "r" };
    encryption = true;
    block_public_access = true;
    enforce_ssl = true;
    removal_policy = true;
    id = codes "expire-athena-results";
    enabled = true;
    expiration = 2592000000;
  });
}

runs : new_analytics sample stack props ≡ ok analytics
unfolding new_analytics at_least_one_day normalize_prefix trimmed_prefix trim text_eq
    results_bucket_of workgroup_of
runs = refl

from_runs : from_extension sample stack extension options ≡ ok analytics
unfolding from_extension
from_runs = runs

from_extension-table_prefix_iff_example :
    (codes "logs/" ≡ codes "logs/")
    ↔ ((c : ℕ) (s : Text) → codes "logs/" ≡ c ∷ s → is_space c ≡ false)
from_extension-table_prefix_iff_example =
    from_extension-table_prefix_iff sample sample-Lawful stack extension options analytics
      logs-IsNormal from_runs
