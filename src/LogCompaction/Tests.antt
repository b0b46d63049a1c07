-- ===== src/LogCompaction/Tests.antt =====
-- The compaction job at concrete inputs.
use cdk_log_to_s.Prelude.{
  ℕ, Text, codes, text_eq, trim, number_text, is_space, drop_while, drop_while_end, [], ◌∷◌, none,
  some, lookup, assign, assign_some, true, false, ok, ◌≡◌, ◌↔◌, refl, arith,
}
use cdk_log_to_s.Aws.{Bucket}
use cdk_log_to_s.Aws.Sample.{sample, sample-Lawful}
use cdk_log_to_s.Aws.Days.{at_least_one_day}
use cdk_log_to_s.Env.Vars
use cdk_log_to_s.Env.{normalize_prefix, trimmed_prefix}
use cdk_log_to_s.Env.Tests.{logs-IsNormal}
use cdk_log_to_s.Assets.{Machine, property, resolve_artifact_asset, resolve_compactor_asset}
use cdk_log_to_s.Extension.{LogToS3Extension, imported, compression_text}
use cdk_log_to_s.LogCompaction.{
  LogCompactionFromExtensionOptions, LogCompactionProps, LogCompaction, read, put, delete,
  environment_entries, new_compaction, props_from_extension, from_extension,
}
use cdk_log_to_s.LogCompaction.Laws.{from_extension-job_prefix_iff}
use cdk_log_to_s.Agent.Config.{Environment}
use cdk_log_to_s.Compactor.Settings.{load_config}
use cdk_log_to_s.Compactor.Settings.Contract.{IsReadable, Reads, Passes, new_compaction-load_config}
use cdk_log_to_s.Go.Strings.{trim_space, trim_left, trim_right}
use cdk_log_to_s.Go.Strings as Strings
use cdk_log_to_s.Layout as Go

abbrev machine : Machine
machine = record { root = codes "/pkg"; exists_sync = λ path. true }

abbrev options : LogCompactionFromExtensionOptions sample
options = record {
  schedule = none;
  enabled = some false;
  lookback = some 172800000;
  min_files_per_partition = some 3;
  max_files_per_run = none;
  max_bytes_per_run = none;
  compression = none;
  memory_size = none;
  timeout = none;
  log_retention = none;
  debug = none;
  removal_policy = none;
}

abbrev bucket : Bucket
bucket = record { bucket_name = codes "b" }

abbrev extension : LogToS3Extension sample
extension = record {
  layer = imported (codes "arn");
  logs_bucket = bucket;
  key_prefix = codes "logs/";
  architecture = true;
  environment = [];
}

-- The same with another codec in its environment.
abbrev zstd_extension : LogToS3Extension sample
zstd_extension = record {
  layer = imported (codes "arn");
  logs_bucket = bucket;
  key_prefix = codes "logs/";
  architecture = true;
  environment = (Vars.compression, codes "zstd") ∷ [];
}

abbrev job : LogCompaction sample
job = record {
  handler = record {
    runtime = tt;
    handler = codes "bootstrap";
    architecture = true;
    code = codes "/pkg/assets/compactor-arm64.zip";
    memory_size = 1024;
    timeout = 300000;
    environment =
        (Vars.bucket, codes "b")
        ∷ (Vars.prefix, codes "logs/")
        ∷ (Vars.compression, codes "snappy")
        ∷ (Vars.compaction_lookback_days, codes "2")
        ∷ (Vars.compaction_min_files, codes "3")
        ∷ [];
    log_retention = 30;
    log_removal_policy = false;
    description = codes "log-to-s3: merges small Parquet log files into larger ones";
  };
  rule = none;
  key_prefix = codes "logs/";
  grants =
      record { access = read; bucket = bucket; pattern = codes "logs/*" }
      ∷ record { access = put; bucket = bucket; pattern = codes "logs/*" }
      ∷ record { access = delete; bucket = bucket; pattern = codes "logs/*" }
      ∷ [];
}

runs : new_compaction sample machine (props_from_extension sample extension options) ≡ ok job
unfolding props_from_extension new_compaction at_least_one_day environment_entries
    resolve_compactor_asset resolve_artifact_asset property text_eq normalize_prefix trimmed_prefix
    trim assign_some assign compression_text number_text
runs = refl

from_runs : from_extension sample machine extension options ≡ ok job
unfolding from_extension
from_runs = runs

zstd_runs : from_extension sample machine zstd_extension options ≡ ok job
unfolding from_extension props_from_extension
zstd_runs = unfold props_from_extension in runs

from_extension-job_prefix_iff_example :
    (codes "logs/" ≡ codes "logs/")
    ↔ ((d : ℕ) (s : Text) → codes "logs/" ≡ d ∷ s → is_space d ≡ false)
from_extension-job_prefix_iff_example =
    from_extension-job_prefix_iff sample sample-Lawful machine extension options job logs-IsNormal
      from_runs

abbrev props : LogCompactionProps sample
props = props_from_extension sample extension options

abbrev process : Environment
process = ("AWS_REGION", codes "eu-central-1") ∷ job.handler.environment

passes : Passes job.handler.environment process
unfolding lookup
passes = (refl, (refl, (refl, (refl, (refl, (refl, (refl, (refl, tt))))))))

readable : IsReadable sample props job
unfolding props_from_extension Go.normalize_prefix trim_space trim_left trim_right drop_while
    drop_while_end Strings.is_space text_eq
readable = record {
  prefix = λ h. cc;
  normal = refl;
  lookback = λ n h. omega (arith, h);
  min_files = λ n h. ground (arith, h);
  max_files = λ n h. ground (arith, h);
  max_bytes = λ s h. ground (arith, h);
}

new_compaction-load_config_example :
    Reads sample props job (load_config process).0 × ((load_config process).1 ≡ [])
new_compaction-load_config_example =
    new_compaction-load_config sample sample-Lawful machine props job process runs readable passes
