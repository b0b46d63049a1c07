-- ===== src/Extension/Tests.antt =====
-- Tests of Extension, and its theorems at concrete inputs.
use cdk_log_to_s.Prelude.{
  String, Text, codes, text_eq, trim, number_text, bool_text, true, false, List, [], ◌∷◌, none,
  some, some_or, lookup, assign, assign_some, HasUniqueKeys, ok, ◌≡◌, ◌≢◌, ◌↔◌, refl, if◌then◌else◌,
  All, eq_iff, arith,
}
use cdk_log_to_s.Aws.{LambdaFunction}
use cdk_log_to_s.Aws.Sample.{sample, sample-Lawful}
use cdk_log_to_s.Env.Vars
use cdk_log_to_s.Env.{normalize_prefix, trimmed_prefix}
use cdk_log_to_s.Assets.{Machine, property, resolve_artifact_asset, resolve_layer_asset}
use cdk_log_to_s.Extension.{
  LogToS3ExtensionProps, LogToS3ExtensionAttributes, LogToS3Extension, LogToS3AttachOptions,
  created, Wiring, add_layers, add_environment, grant_put, attach, attach_calls, environment_calls,
  level_calls, grant_calls, has, debug, level_text, compression_text,
}
use cdk_log_to_s.Extension.Environment.{build_environment, flush_seconds, environment_entries}
use cdk_log_to_s.Extension.Environment.Laws.{
  Holds, IsWholeSeconds, build_environment-Holds, build_environment-ok_iff,
}
use cdk_log_to_s.Extension.Attach.{variable, layers_added}
use cdk_log_to_s.Extension.Attach.Laws.{configured, attach-ok_iff, attach-variable}
use cdk_log_to_s.Extension.Attach.Sequence.{
  Reach, begin, attached, start, IsOwn, Reach-layers_added, Reach-variable,
}
use cdk_log_to_s.Extension.Construct.{new_extension, environment_options}
use cdk_log_to_s.Extension.Construct.Laws.{new_extension-writes_where_granted}

abbrev pub machine : Machine
machine = record { root = codes "/pkg"; exists_sync = λ path. true }

abbrev pub props : LogToS3ExtensionProps sample
props = record {
  logs_bucket = record { bucket_name = codes "b" };
  architecture = none;
  key_prefix = some (codes "/app");
  log_level = none;
  flush_interval = some 15000;
  max_buffer_size = none;
  compression = none;
  telemetry_port = some 2021;
  include_platform_report = some false;
  runtime_done_wait = none;
  extension_debug = none;
  layer_version_name = none;
  description = some (codes "d");
  compatible_runtimes = none;
  removal_policy = none;
}

abbrev env : List (String × Text)
env =
    (Vars.bucket, codes "b")
    ∷ (Vars.prefix, codes "app/")
    ∷ (Vars.level, codes "INFO")
    ∷ (Vars.compression, codes "snappy")
    ∷ (Vars.telemetry_port, codes "2021")
    ∷ (Vars.flush_interval_seconds, codes "15")
    ∷ (Vars.include_platform_report, codes "false")
    ∷ []

abbrev pub ext : LogToS3Extension sample
ext = record {
  layer = created (codes "/pkg/assets/layer-arm64.zip") (true ∷ []) none none (codes "d") none;
  logs_bucket = record { bucket_name = codes "b" };
  key_prefix = codes "app/";
  architecture = true;
  environment = env;
}

pub new_extension_runs : new_extension sample machine props ≡ ok ext
unfolding new_extension environment_options resolve_layer_asset resolve_artifact_asset property
    text_eq normalize_prefix trimmed_prefix trim build_environment flush_seconds environment_entries
    assign_some assign level_text compression_text number_text bool_text
new_extension_runs = refl

env_unique : HasUniqueKeys env
unfolding lookup
env_unique = (refl, (refl, (refl, (refl, (refl, (refl, (refl, tt)))))))

abbrev pub fn : LambdaFunction sample
fn = record { architecture = true; path = codes "Stack/Fn" }

abbrev pub options : LogToS3AttachOptions
options = record { log_level = some debug; grant_write = none }

abbrev pub wired : Wiring sample
wired = record {
  attached = codes "Stack/Fn" ∷ [];
  calls =
      add_layers (codes "Stack/Fn") ext.layer
      ∷ add_environment (codes "Stack/Fn") Vars.bucket (codes "b")
      ∷ add_environment (codes "Stack/Fn") Vars.prefix (codes "app/")
      ∷ add_environment (codes "Stack/Fn") Vars.level (codes "INFO")
      ∷ add_environment (codes "Stack/Fn") Vars.compression (codes "snappy")
      ∷ add_environment (codes "Stack/Fn") Vars.telemetry_port (codes "2021")
      ∷ add_environment (codes "Stack/Fn") Vars.flush_interval_seconds (codes "15")
      ∷ add_environment (codes "Stack/Fn") Vars.include_platform_report (codes "false")
      ∷ add_environment (codes "Stack/Fn") Vars.level (codes "DEBUG")
      ∷ grant_put ext.logs_bucket (codes "Stack/Fn") (codes "app/*")
      ∷ [];
}

pub attach_runs : attach sample ext fn options (start sample ext) ≡ ok wired
unfolding attach text_eq has attach_calls environment_calls level_calls grant_calls level_text
attach_runs = refl

wired-Reach : Reach sample ext wired
wired-Reach = attached fn options (start sample ext) wired begin attach_runs

new_extension-writes_where_granted_example :
    (variable (codes "Stack/Fn") Vars.bucket wired.calls ≡ some (codes "b"))
    × (variable (codes "Stack/Fn") Vars.prefix wired.calls ≡ some (codes "app/"))
    × All (IsOwn sample ext) wired.calls
new_extension-writes_where_granted_example =
    new_extension-writes_where_granted sample sample-Lawful machine props ext wired
      (codes "Stack/Fn") new_extension_runs wired-Reach (unfold has text_eq in refl)

Reach-layers_added_example :
    layers_added (codes "Stack/Fn") wired.calls
    ≡ (if has wired.attached (codes "Stack/Fn") then 1 else 0)
Reach-layers_added_example = Reach-layers_added sample ext wired wired-Reach (codes "Stack/Fn")

attach-variable_example : variable (codes "Stack/Fn") Vars.level wired.calls ≡ (
    if text_eq (codes "Stack/Fn") (codes "Stack/Fn")
    then some_or
        (configured sample ext options Vars.level)
        (variable (codes "Stack/Fn") Vars.level (start sample ext).calls)
    else variable (codes "Stack/Fn") Vars.level (start sample ext).calls)
attach-variable_example =
    attach-variable sample ext fn options (start sample ext) wired (codes "Stack/Fn") Vars.level
      env_unique (unfold has in refl) attach_runs

attach-ok_iff_example :
    ((w' : Wiring sample) × (attach sample ext fn options wired ≡ ok w'))
    ↔ (codes "arm64" ≡ codes "arm64")
attach-ok_iff_example = attach-ok_iff sample ext fn options wired

bucket_is_no_level : Vars.bucket ≢ Vars.level
bucket_is_no_level e = ground (arith, e, eq_iff Vars.bucket Vars.level)

Reach-variable_example :
    variable (codes "Stack/Fn") Vars.bucket wired.calls
    ≡ (if has wired.attached (codes "Stack/Fn") then lookup Vars.bucket env else none)
Reach-variable_example =
    Reach-variable sample ext wired env_unique wired-Reach (codes "Stack/Fn") Vars.bucket
      bucket_is_no_level

build_runs : build_environment sample (environment_options sample props (codes "app/")) ≡ ok env
unfolding build_environment flush_seconds environment_entries assign_some environment_options assign
    level_text compression_text number_text bool_text
build_runs = refl

build_environment-Holds_example :
    Holds sample sample-Lawful (environment_options sample props (codes "app/")) env
build_environment-Holds_example =
    build_environment-Holds sample sample-Lawful (environment_options sample props (codes "app/"))
      env build_runs

build_environment-ok_iff_example :
    ((built : List (String × Text)) × (build_environment sample
          (environment_options sample props (codes "app/"))
        ≡ ok built))
    ↔ IsWholeSeconds sample sample-Lawful (some 15000)
build_environment-ok_iff_example =
    unfold environment_options in
    build_environment-ok_iff sample sample-Lawful (environment_options sample props (codes "app/"))

abbrev attributes : LogToS3ExtensionAttributes sample
attributes = record {
  layer_version_arn = codes "arn";
  logs_bucket = record { bucket_name = codes "b" };
  architecture = none;
  key_prefix = some (codes "/app");
  log_level = none;
  compression = none;
  telemetry_port = none;
}
