-- ===== src/Layers/Build.antt =====
-- `main` of scripts/build-layers.ts: every artifact for every target, and the build information.
-- What `compile` returns and the bytes of BUILDINFO.json are given.
use cdk_log_to_s.Prelude.{Text, codes, List, [], ◌∷◌, ◌++◌, ℕ, Result, ok, ◌>>=◌}
use cdk_log_to_s.Zip.Entry.{Coder}
use cdk_log_to_s.Layers.{Artifact, Target, Files, write_file, artifacts, targets}
use cdk_log_to_s.Layers.Pack.{pack}

module _ (coder : Coder) (sha256 : List ℕ → Text) (assets_dir : Text)
    (compile : Artifact → Target → List ℕ) where
  unfoldable pub build_targets : Artifact → List Target → Files → Result Files
  build_targets artifact [] files = ok files
  build_targets artifact (target ∷ rest) files = do
    packed ← pack coder sha256 assets_dir artifact target (compile artifact target) files
    build_targets artifact rest packed

  unfoldable pub build_artifacts : List Artifact → Files → Result Files
  build_artifacts [] files = ok files
  build_artifacts (artifact ∷ rest) files = do
    packed ← build_targets artifact targets files
    build_artifacts rest packed

  unfoldable pub build_layers : List ℕ → Files → Result Files
  build_layers build_info files = do
    packed ← build_artifacts artifacts files
    ok (write_file (assets_dir ++ codes "/BUILDINFO.json") build_info packed)
