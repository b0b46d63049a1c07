-- ===== src/Layers/Compile.antt =====
-- `goVersion`, `compile` and BUILDINFO.json of scripts/build-layers.ts, and its `main` with them.
-- What the go command does is a parameter: its output for `go env GOVERSION`, and the binary that
-- it leaves at the path of `-o`.
use cdk_log_to_s.Prelude.{ℕ, Text, codes, trim, List, [], ◌∷◌, ◌++◌, map, Result}
use cdk_log_to_s.Zip.Entry.{Coder}
use cdk_log_to_s.Logger.Stringify.{quote}
use cdk_log_to_s.Integ.Keys.{base_name}
use cdk_log_to_s.Layers.{Artifact, Target, Files, artifacts, targets}
use cdk_log_to_s.Layers.Build.{build_layers}
use cdk_log_to_s.Layers.Sources.{Entries, extension_source_sha}

-- A call of `execFileSync('go', …)`: the arguments, the directory, and the variables that are set
-- over those of the process.
pub record Command : Type 0 where
  pub arguments : List Text
  pub cwd : Text
  pub variables : List (Text × Text)

pub record Go : Type 0 where
  pub version_output : Text
  -- The bytes of the file that `-o` names, after the call.
  pub build : Command → List ℕ

unfoldable pub go_version : Go → Text
go_version go = trim go.version_output

unfoldable pub bin_path : Text → Artifact → Target → Text
bin_path go_dir artifact target =
    go_dir
    ++ codes "/dist/"
    ++ artifact.name
    ++ codes "/"
    ++ target.layer
    ++ codes "/"
    ++ base_name artifact.entry

unfoldable pub build_command : Text → Artifact → Target → Command
build_command go_dir artifact target = record {
  arguments =
      codes "build"
      ∷ codes "-trimpath"
      ∷ codes "-buildvcs=false"
      ∷ codes "-ldflags"
      ∷ codes "-s -w -buildid="
      ∷ codes "-o"
      ∷ bin_path go_dir artifact target
      ∷ artifact.pkg
      ∷ [];
  cwd = go_dir;
  variables =
      (codes "GOOS", codes "linux")
      ∷ (codes "GOARCH", target.goarch)
      ∷ (codes "CGO_ENABLED", codes "0")
      ∷ (codes "GOFLAGS", codes "-mod=readonly")
      ∷ [];
}

unfoldable pub compile : Go → Text → Artifact → Target → List ℕ
compile go go_dir artifact target = go.build (build_command go_dir artifact target)

-- The elements of an array in the text that `JSON.stringify(value, null, 2)` gives, one on a line.
unfoldable pub element_lines : List Text → Text
element_lines [] = []
element_lines (s ∷ []) = codes "    " ++ quote s ++ codes "\n"
element_lines (s ∷ t ∷ texts) = codes "    " ++ quote s ++ codes ",\n" ++ element_lines (t ∷ texts)

unfoldable pub array_text : List Text → Text
array_text [] = codes "[]"
array_text (s ∷ texts) = codes "[\n" ++ element_lines (s ∷ texts) ++ codes "  ]"

unfoldable pub build_info : Text → Text → Text
build_info version source_sha =
    codes "{\n  \"goVersion\": "
    ++ quote version
    ++ codes ",\n  \"artifacts\": "
    ++ array_text (map (λ (a : Artifact). a.name) artifacts)
    ++ codes ",\n  \"targets\": "
    ++ array_text (map (λ (t : Target). t.layer) targets)
    ++ codes ",\n  \"extensionSourceSha\": "
    ++ quote source_sha
    ++ codes "\n}\n"

module _ (coder : Coder) (sha256 : List ℕ → Text) (go : Go) (go_dir assets_dir : Text) where
  unfoldable pub main : Entries → Files → Result Files
  main tree files =
      build_layers coder sha256 assets_dir (compile go go_dir)
        (coder.encode (build_info (go_version go) (extension_source_sha coder sha256 tree))) files
