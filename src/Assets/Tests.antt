-- ===== src/Assets/Tests.antt =====
-- The lookup of an artifact at concrete inputs.
use cdk_log_to_s.Prelude.{codes, text_eq, true, false, ◌≡◌, ok, refl}
use cdk_log_to_s.Aws.Sample.{sample}
use cdk_log_to_s.Assets.{Machine, property, resolve_artifact_asset}

abbrev machine : Machine
machine = record { root = codes "/pkg"; exists_sync = λ path. true }

found :
    resolve_artifact_asset sample machine (codes "layer") false
    ≡ ok (codes "/pkg/assets/layer-x86_64.zip")
unfolding resolve_artifact_asset property text_eq
found = refl
