-- ===== src/Layers/Pack.antt =====
-- `pack` of scripts/build-layers.ts: the archive with the binary, and its checksum beside it.
-- `sha256` is the hexadecimal digest that Node's crypto gives.
use cdk_log_to_s.Prelude.{Text, codes, List, [], ◌∷◌, ◌++◌, ℕ, Result, ok, ◌>>=◌}
use cdk_log_to_s.Zip.{build_zip}
use cdk_log_to_s.Zip.Entry.{Coder, ZipEntryInput}
use cdk_log_to_s.Layers.{Artifact, Target, Files, write_file, zip_path, sha256_path}

-- The one entry of an archive, executable by all.
unfoldable pub packed_entry : Artifact → List ℕ → ZipEntryInput
packed_entry artifact binary = record { name = artifact.entry; content = binary; mode = 0o755 }

module _ (coder : Coder) (sha256 : List ℕ → Text) (assets_dir : Text) where
  unfoldable pub pack : Artifact → Target → List ℕ → Files → Result Files
  pack artifact target binary files = do
    zip ← build_zip coder (packed_entry artifact binary ∷ [])
    let written = write_file (zip_path assets_dir artifact target) zip files
    ok (
        write_file (sha256_path assets_dir artifact target)
          (coder.encode (sha256 zip ++ codes "\n")) written)
