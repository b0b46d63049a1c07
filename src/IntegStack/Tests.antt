-- ===== src/IntegStack/Tests.antt =====
-- The integ stack at concrete names.
use cdk_log_to_s.Logger.Stringify.{text, member, no_members, stringify, quoted, escape, starts_low}
use cdk_log_to_s.Integ.Script.{log}
use cdk_log_to_s.IntegStack.Handler.{emit, record_of, optional_members, stack_member}
use cdk_log_to_s.Prelude.{some, none, codes, text_eq, true, ok, ◌≡◌, refl, arith}
use cdk_log_to_s.Aws.Sample.{sample, sample-Lawful}
use cdk_log_to_s.Assets.{
  Machine, resolve_layer_asset, resolve_compactor_asset, resolve_artifact_asset, property,
}
use cdk_log_to_s.LogAnalytics.{Stack}
use cdk_log_to_s.IntegStack.{Deployed, IntegStack, new_integ_stack}
use cdk_log_to_s.IntegStack.Laws.{Checkable, new_integ_stack-checks}

abbrev machine : Machine
machine = record { root = codes "/app"; exists_sync = λ path. true }

abbrev stack : Stack
stack = record {
  account = codes "1";
  format_arn = λ service resource name. codes "arn:aws:";
  created_bucket = codes "r";
}

abbrev deployed : Deployed
deployed = record {
  logs_bucket = record { bucket_name = codes "logs" };
  results_bucket = record { bucket_name = codes "results" };
  function_name = codes "F";
  compaction_function_name = codes "C";
  emitter_path = codes "LogToS3Integ/Emitter";
}

layer_found : resolve_layer_asset sample machine true ≡ ok (codes "/app/assets/layer-arm64.zip")
unfolding resolve_layer_asset resolve_artifact_asset property text_eq
layer_found = refl

compactor_found :
    resolve_compactor_asset sample machine true ≡ ok (codes "/app/assets/compactor-arm64.zip")
unfolding resolve_compactor_asset resolve_artifact_asset property text_eq
compactor_found = refl

new_integ_stack-checks_example :
    (s : IntegStack sample) × (new_integ_stack sample machine stack deployed ≡ ok s)
    × Checkable sample sample-Lawful deployed s
new_integ_stack-checks_example =
    new_integ_stack-checks sample sample-Lawful machine stack deployed
      (codes "/app/assets/layer-arm64.zip") (codes "/app/assets/compactor-arm64.zip") layer_found
      compactor_found refl (λ e. cc e) (omega arith)

debug_line :
    emit
      (codes "DEBUG")
      (codes "S")
      (codes "integ-m")
      (codes "hello")
      (some (member (codes "marker") (text (codes "m")) no_members))
      none
    ≡ log (
        codes
          "{\"__log_level\":\"DEBUG\",\"__source\":\"S\",\"__correlation_id\":\"integ-m\",\"__caller\":\"examples/integ/handler/index.js\",\"message\":\"hello\",\"context\":{\"marker\":\"m\"}}")
unfolding emit record_of optional_members stack_member stringify quoted escape starts_low text_eq
debug_line = refl
