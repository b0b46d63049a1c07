-- ===== src/Layers.antt =====
-- scripts/layers.ts, and the packing and checking of the committed artifacts in
-- scripts/build-layers.ts and scripts/check-layers.ts.
pub mod Pack
pub mod Check
pub mod Build
pub mod Sources
pub mod Compile
pub mod Shipped
pub mod Laws
pub mod Whole
pub mod Tests
use cdk_log_to_s.Prelude.{
  Text, codes, List, [], ◌∷◌, ◌++◌, ℕ, Option, none, some, text_eq, if◌then◌else◌,
}

pub record Artifact : Type 0 where
  pub name : Text
  pub pkg : Text
  pub entry : Text

unfoldable pub artifacts : List Artifact
artifacts =
    record { name = codes "layer"; pkg = codes "."; entry = codes "extensions/log-to-s3" }
    ∷ record { name = codes "compactor"; pkg = codes "./compactor"; entry = codes "bootstrap" }
    ∷ []

pub record Target : Type 0 where
  pub layer : Text
  pub goarch : Text

unfoldable pub targets : List Target
targets =
    record { layer = codes "arm64"; goarch = codes "arm64" }
    ∷ record { layer = codes "x86_64"; goarch = codes "amd64" }
    ∷ []

-- The file system: the bytes of each file that is there.
abbrev pub Files : Type 0
Files = Text → Option (List ℕ)

-- fs.writeFileSync(path, bytes)
abbrev pub write_file : Text → List ℕ → Files → Files
write_file path bytes files q = if text_eq path q then some bytes else files q

abbrev pub zip_name : Artifact → Target → Text
zip_name artifact target = artifact.name ++ codes "-" ++ target.layer ++ codes ".zip"

-- `zipPath`, below the directory `ASSETS_DIR`.
unfoldable pub zip_path : Text → Artifact → Target → Text
zip_path assets_dir artifact target = assets_dir ++ codes "/" ++ zip_name artifact target

unfoldable pub sha256_path : Text → Artifact → Target → Text
sha256_path assets_dir artifact target = zip_path assets_dir artifact target ++ codes ".sha256"
