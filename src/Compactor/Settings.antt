-- ===== src/Compactor/Settings.antt =====
-- extension-go/compactor/config.go: the settings of the compactor, read from its environment.
pub mod Contract
use cdk_log_to_s.Prelude.{ℕ, zero, suc, ◌+◌, ◌*◌, Text, String, codes, false, List, [], ◌∷◌, ◌++◌}
use cdk_log_to_s.Env.Vars
use cdk_log_to_s.Go.Strconv.{parse_bool}
use cdk_log_to_s.Layout.{Day, normalize_prefix, partition_path}
use cdk_log_to_s.Agent.Config.{
  Environment, Warning, os_getenv, get_env, setting, bytes_of, compression_of,
}
use cdk_log_to_s.Compactor.{Config}

-- `envInt`. The test on the text is the one that the extension makes of its size of the buffer.
unfoldable pub env_int : Environment → String → ℕ → ℕ × List Warning
env_int env key fallback = setting key bytes_of fallback (os_getenv env key)

unfoldable pub load_config : Environment → Config × List Warning
load_config env =
    let (codec, w1) =
      setting Vars.compression compression_of (codes "snappy") (os_getenv env Vars.compression) in
    let (min_files, w2) = env_int env Vars.compaction_min_files 8 in
    let (max_files, w3) = env_int env Vars.compaction_max_files 2000 in
    let (lookback_days, w4) = env_int env Vars.compaction_lookback_days 7 in
    let (max_bytes, w5) = env_int env Vars.compaction_max_bytes (256 * 1024 * 1024) in
    let (debug, w6) = setting Vars.debug parse_bool false (os_getenv env Vars.debug) in
    (
      record {
        bucket = os_getenv env Vars.bucket;
        prefix = normalize_prefix (get_env env Vars.prefix (codes "logs/"));
        compression = codec;
        min_files = min_files;
        max_files = max_files;
        max_bytes = max_bytes;
        lookback_days = lookback_days;
        region = os_getenv env "AWS_REGION";
        debug = debug;
      },
      w1 ++ (w2 ++ (w3 ++ (w4 ++ (w5 ++ w6)))),
    )

-- The loop of `Partitions` from the day `i` on, `n` turns. `days_ago i` is the date i days before
-- that of the clock, in UTC.
unfoldable pub partitions_from : Text → (ℕ → Day) → ℕ → ℕ → List Text
partitions_from prefix days_ago i zero = []
partitions_from prefix days_ago i (suc n) =
    partition_path prefix (days_ago i) ∷ partitions_from prefix days_ago (i + 1) n

unfoldable pub partitions : Config → (ℕ → Day) → List Text
unfolding partitions_from
partitions cfg days_ago = partitions_from cfg.prefix days_ago 1 cfg.lookback_days
