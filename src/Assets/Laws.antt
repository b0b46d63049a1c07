-- ===== src/Assets/Laws.antt =====
-- When an asset is found.
use cdk_log_to_s.Prelude.{Text, codes, text_eq_iff, true, ◌≡◌, ◌⊎◌, ok, arith}
use cdk_log_to_s.Aws.{Cdk}
use cdk_log_to_s.Assets.{Machine, property, asset_path, resolve_artifact_asset}

-- An artifact that is found is a file that is there, and its path is the one for the name of the
-- architecture that was asked for, which is one of the two.
pub resolve_artifact_asset-found :
    (cdk : Cdk) (machine : Machine) (name : Text) (architecture : cdk.Architecture) (path : Text)
    → resolve_artifact_asset cdk machine name architecture ≡ ok path
    → (machine.exists_sync path ≡ true)
      × (((cdk.architecture_name architecture ≡ cdk.architecture_name cdk.arm_64)
            × (path ≡ asset_path machine name (codes "arm64")))
          ⊎ ((cdk.architecture_name architecture ≡ cdk.architecture_name cdk.x86_64)
              × (path ≡ asset_path machine name (codes "x86_64"))))
unfolding resolve_artifact_asset property
resolve_artifact_asset-found cdk machine name architecture path h = ground (
  arith,
  text_eq_iff (cdk.architecture_name cdk.arm_64) (cdk.architecture_name architecture),
  text_eq_iff (cdk.architecture_name cdk.x86_64) (cdk.architecture_name architecture),
)
