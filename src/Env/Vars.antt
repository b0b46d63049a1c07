-- ===== src/Env/Vars.antt =====
-- The table `ENV` of src/private/env.ts. Each constant is the name of a variable that the Go extension reads.
use cdk_log_to_s.Prelude.{String}

abbrev pub bucket : String
bucket = "LOG_TO_S3_BUCKET"

abbrev pub prefix : String
prefix = "LOG_TO_S3_PREFIX"

abbrev pub level : String
level = "LOG_TO_S3_LEVEL"

abbrev pub flush_interval_seconds : String
flush_interval_seconds = "LOG_TO_S3_FLUSH_INTERVAL_SECONDS"

abbrev pub max_buffer_bytes : String
max_buffer_bytes = "LOG_TO_S3_MAX_BUFFER_BYTES"

abbrev pub telemetry_port : String
telemetry_port = "LOG_TO_S3_TELEMETRY_PORT"

abbrev pub compression : String
compression = "LOG_TO_S3_COMPRESSION"

abbrev pub include_platform_report : String
include_platform_report = "LOG_TO_S3_INCLUDE_PLATFORM_REPORT"

abbrev pub debug : String
debug = "LOG_TO_S3_DEBUG"

abbrev pub runtime_done_wait_ms : String
runtime_done_wait_ms = "LOG_TO_S3_RUNTIME_DONE_WAIT_MS"

abbrev pub compaction_min_files : String
compaction_min_files = "LOG_TO_S3_COMPACTION_MIN_FILES"

abbrev pub compaction_max_files : String
compaction_max_files = "LOG_TO_S3_COMPACTION_MAX_FILES"

abbrev pub compaction_max_bytes : String
compaction_max_bytes = "LOG_TO_S3_COMPACTION_MAX_BYTES"

abbrev pub compaction_lookback_days : String
compaction_lookback_days = "LOG_TO_S3_COMPACTION_LOOKBACK_DAYS"
