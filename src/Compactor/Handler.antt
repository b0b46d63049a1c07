-- ===== src/Compactor/Handler.antt =====
-- extension-go/compactor/main.go: one invocation of the compactor, over the calls of S3.
pub mod Laws
pub mod Tests
use cdk_log_to_s.Prelude.{
  ℕ, suc, ◌+◌, Text, codes, text_eq, number_text, length, not, ◌||◌, if◌then◌else◌, List, [], ◌∷◌,
  ◌++◌, Option, none, some,
}
use cdk_log_to_s.Layout.{Day}
use cdk_log_to_s.Agent.Config.{Environment}
use cdk_log_to_s.Compactor.{Config, Tools}
use cdk_log_to_s.Compactor.Run.{PartitionResult, compact_partition}
use cdk_log_to_s.Compactor.Settings.{load_config, partitions}
use cdk_log_to_s.Compactor.Store.{S3}

-- The errors by their partitions: what an error says is not modelled.
pub record Report : Type 0 where
  pub partitions : List PartitionResult
  pub compacted : ℕ
  pub files_in : ℕ
  pub errors : List Text

abbrev pub no_report : Report
no_report = record { partitions = []; compacted = 0; files_in = 0; errors = [] }

-- The body of the loop, behind `CompactPartition`.
unfoldable pub add_result : Config → Text → Option PartitionResult → Report → Report
add_result cfg partition none r = record r { errors = r.errors ++ partition ∷ [] }
add_result cfg partition (some result) r = record r {
  files_in = r.files_in + result.source_files;
  compacted = if result.skipped then r.compacted else r.compacted + 1;
  partitions =
      if cfg.debug || not result.skipped then r.partitions ++ result ∷ [] else r.partitions;
}

-- What the handler returns: the report, and the text of its error if it has one.
abbrev pub Response : Type 0
Response = Report × Option Text

unfoldable pub failure_of : List Text → Option Text
failure_of [] = none
failure_of (e ∷ errors) =
    some (number_text (length (e ∷ errors)) ++ codes " partition(s) failed to compact")

module _ (s3 : S3) (tools : Tools) where
  unfoldable pub compact_all : Config → List Text → Report → s3.World → Report × s3.World
  unfolding add_result
  compact_all cfg [] r w = (r, w)
  compact_all cfg (partition ∷ rest) r w =
      let (result, w') = compact_partition s3 tools cfg partition w in
      compact_all cfg rest (add_result cfg partition result r) w'

  unfoldable pub run_all : Config → (ℕ → Day) → s3.World → Response × s3.World
  unfolding failure_of
  run_all cfg days_ago w =
      let (r, w') = compact_all cfg (partitions cfg days_ago) no_report w in
      ((r, failure_of r.errors), w')

  -- `NewS3Store`, with the text of the error that loading the configuration for a region gives.
  unfoldable pub run_connected : Config → (ℕ → Day) → Option Text → s3.World → Response × s3.World
  run_connected cfg days_ago none w = run_all cfg days_ago w
  run_connected cfg days_ago (some e) w = ((no_report, some (codes "load AWS config: " ++ e)), w)

  unfoldable pub handler :
      Environment → (ℕ → Day) → (Text → Option Text) → s3.World → Response × s3.World
  handler env days_ago load_aws_config w =
      let cfg = (load_config env).0 in
      if text_eq cfg.bucket []
      then ((no_report, some (codes "LOG_TO_S3_BUCKET is not set")), w)
      else run_connected cfg days_ago (load_aws_config cfg.region) w
