-- ===== src/Assets.antt =====
-- src/private/assets.ts: the path of a prebuilt artifact. `fs.existsSync` and the directory of
-- the module are parameters.
pub mod Laws
pub mod Tests
use cdk_log_to_s.Prelude.{
  Text, codes, text_eq, Bool, not, List, [], ◌∷◌, ◌++◌, Option, none, some, Result, ok, throws,
  ◌>>=◌, ◌>>◌, throw_if, if◌then◌else◌,
}
use cdk_log_to_s.Aws.{Cdk}

-- What the code asks of the machine: the root of the package, which `__dirname/../..` names, and
-- whether a file is there.
pub record Machine : Type 0 where
  pub root : Text
  pub exists_sync : Text → Bool

-- `SUFFIX_BY_ARCHITECTURE`: the entries in the order in which they are written.
abbrev pub suffix_by_architecture : Cdk → List (Text × Text)
suffix_by_architecture cdk =
    (cdk.architecture_name cdk.arm_64, codes "arm64")
    ∷ (cdk.architecture_name cdk.x86_64, codes "x86_64")
    ∷ []

-- A property of an object by its name; a later entry of a literal with the same name wins.
unfoldable pub property : Text → List (Text × Text) → Option Text
property name [] = none
property name ((key, value) ∷ entries) = elim (property name entries) [
  | some later ↦ some later
  | none ↦ if text_eq key name then some value else none
]

abbrev pub asset_path : Machine → Text → Text → Text
asset_path machine name suffix =
    machine.root ++ codes "/assets/" ++ name ++ codes "-" ++ suffix ++ codes ".zip"

unfoldable pub unsupported_message : Text → Text → Text → Text → Text
unsupported_message architecture name first second =
    codes "Unsupported architecture \""
    ++ architecture
    ++ codes "\" for the log-to-s3 "
    ++ name
    ++ codes ". Supported architectures are: "
    ++ first
    ++ codes ", "
    ++ second
    ++ codes "."

unfoldable pub missing_message : Text → Text → Text
missing_message name asset =
    codes "The log-to-s3 "
    ++ name
    ++ codes " asset is missing at "
    ++ asset
    ++ codes ". If you are working in a clone of the repository, run: npx projen build:layers"

unfoldable pub resolve_artifact_asset :
    (cdk : Cdk) → Machine → Text → cdk.Architecture → Result Text
resolve_artifact_asset cdk machine name architecture =
    elim (property (cdk.architecture_name architecture) (suffix_by_architecture cdk)) [
      | none ↦ throws (
          unsupported_message (cdk.architecture_name architecture) name
            (cdk.architecture_name cdk.arm_64) (cdk.architecture_name cdk.x86_64))
      | some suffix ↦ do
        let asset = asset_path machine name suffix
        throw_if (not (machine.exists_sync asset)) (missing_message name asset)
        ok asset
    ]

unfoldable pub resolve_layer_asset : (cdk : Cdk) → Machine → cdk.Architecture → Result Text
resolve_layer_asset cdk machine architecture =
    resolve_artifact_asset cdk machine (codes "layer") architecture

unfoldable pub resolve_compactor_asset : (cdk : Cdk) → Machine → cdk.Architecture → Result Text
resolve_compactor_asset cdk machine architecture =
    resolve_artifact_asset cdk machine (codes "compactor") architecture
