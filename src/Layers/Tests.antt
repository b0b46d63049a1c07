-- ===== src/Layers/Tests.antt =====
-- The packing and checking of an artifact at concrete inputs.
use cdk_log_to_s.Prelude.{
  map, ◌↔◌, text_eq, ◌++◌, All, true, ◌<◌, length-append, ℕ, Text, codes, List, [], ◌∷◌, ok, none,
  ◌≡◌, refl, length, is_space, replicate, length-replicate, arith,
}
use cdk_log_to_s.Zip.Entry.{Coder}
use cdk_log_to_s.Zip.RoundTrip.Layout.{Fits}
use cdk_log_to_s.Layers.{Artifact, Target, Files, artifacts, targets}
use cdk_log_to_s.Layers.Build.{build_layers}
use cdk_log_to_s.Layers.Whole.{Packs, build_layers-check_layers}
use cdk_log_to_s.Layers.Sources.{
  Entries, nothing, entry, file, directory, extension_source_sha, walk, insert_some, insert,
  text_lt, joined, is_source, ends_with, below_path,
}
use cdk_log_to_s.Layers.Sources.Agreement.{extension_source_sha-Agrees, swapped}
use cdk_log_to_s.Layers.Compile.{build_info, array_text, element_lines}
use cdk_log_to_s.Logger.Stringify.{quoted, escape, starts_low}
use cdk_log_to_s.Layers.Shipped.{verify_pack, required, In, all_zips, verify_pack-zero_iff}
use cdk_log_to_s.Logger.CallSite.{forward_slashes}
use cdk_log_to_s.Layers.Pack.{packed_entry}
use cdk_log_to_s.Layers.Check.{check_layers}
use cdk_log_to_s.Layers.Laws.{IsDigest}

-- Some bytes, of which only the number is known.
padding : (n : ℕ) → (bytes : List ℕ) × (length bytes ≡ n)
padding n = (replicate n 0, length-replicate n 0)

abbrev pad : Coder
pad = record { deflate = λ c. (padding 1048576).0; encode = λ t. t; decode = λ b. b }

abbrev layer : Artifact
layer = record { name = codes "layer"; pkg = codes "."; entry = codes "e" }

abbrev arm : Target
arm = record { layer = codes "arm64"; goarch = codes "arm64" }

abbrev x86 : Target
x86 = record { layer = codes "x86_64"; goarch = codes "amd64" }

abbrev digest : List ℕ → Text
digest z = codes "ab"

abbrev compile : Artifact → Target → List ℕ
compile artifact target = 1 ∷ 2 ∷ []

packed-Fits : Fits pad (packed_entry layer (1 ∷ 2 ∷ []) ∷ [])
unfolding packed_entry
packed-Fits = record {
  each = (
    record {
      name = omega arith;
      deflated = omega (arith, (padding 1048576).1);
      content = omega arith;
      mode = omega arith;
      decoded = refl;
    },
    tt,
  );
  count = omega arith;
  locals = omega (arith, (padding 1048576).1);
  centrals = omega arith;
}

-- The same for an artifact of any short name.
short-Packs :
    (artifact : Artifact) (target : Target)
    → length artifact.entry < 1000
    → Packs pad digest (codes "assets") compile artifact target
unfolding packed_entry
short-Packs artifact target short = (
  record {
    each = (
      record {
        name = omega (arith, short);
        deflated = omega (arith, (padding 1048576).1);
        content = omega arith;
        mode = omega arith;
        decoded = refl;
      },
      tt,
    );
    count = omega arith;
    locals = omega (arith, (padding 1048576).1, short);
    centrals = omega (arith, short, length-append {0} artifact.entry []);
  },
  omega (arith, (padding 1048576).1),
)

every_artifact-Packs :
    All (λ a. All (λ t. Packs pad digest (codes "assets") compile a t) targets) artifacts
unfolding artifacts targets
every_artifact-Packs = (
  (short-Packs _ arm (omega arith), (short-Packs _ x86 (omega arith), tt)),
  ((short-Packs _ arm (omega arith), (short-Packs _ x86 (omega arith), tt)), tt),
)

digest-IsDigest : (z : List ℕ) → IsDigest pad digest (codes "assets") z
unfolding is_space
digest-IsDigest z = record { no_space = (refl, (refl, tt)); decoded = refl }

build_layers-check_layers_example :
    (after : Files) × (build_layers pad digest (codes "assets") compile (codes "{}") (λ path. none)
      ≡ ok after)
    × (check_layers pad digest (codes "assets") after ≡ ok true)
build_layers-check_layers_example =
    build_layers-check_layers pad digest (codes "assets") compile (codes "{}") (λ path. none)
      digest-IsDigest every_artifact-Packs

abbrev sources : Entries
sources = entry (codes "main.go") (file (1 ∷ [])) (
    entry (codes "main_test.go") (file (2 ∷ [])) (
      entry (codes "dist") (directory (entry (codes "a.go") (file (3 ∷ [])) nothing)) (
        entry (codes "go.mod") (file (4 ∷ [])) (
          entry (codes "compactor") (directory (entry (codes "b.go") (file (5 ∷ [])) nothing))
            nothing))))

-- The names are sorted, the directory comes first, and only sources are taken.
sources_sha :
    extension_source_sha pad (λ b. b) sources
    ≡ codes "compactor/b.go" ++ (5 ∷ codes "go.mod") ++ (4 ∷ codes "main.go") ++ (1 ∷ [])
unfolding extension_source_sha walk insert_some insert text_lt joined is_source ends_with below_path
    text_eq
sources_sha = refl

build_info_text :
    build_info (codes "go1.26.4") (codes "ab")
    ≡ codes
        "{\n  \"goVersion\": \"go1.26.4\",\n  \"artifacts\": [\n    \"layer\",\n    \"compactor\"\n  ],\n  \"targets\": [\n    \"arm64\",\n    \"x86_64\"\n  ],\n  \"extensionSourceSha\": \"ab\"\n}\n"
unfolding build_info array_text element_lines artifacts targets quoted escape starts_low
build_info_text = refl

abbrev tail : Entries
tail = entry (codes "go.mod") (file (4 ∷ [])) nothing

extension_source_sha-Agrees_example :
    extension_source_sha pad digest (entry (codes "a.go") (file (1 ∷ [])) tail)
    ≡ extension_source_sha pad digest
        (entry (codes "go.mod") (file (4 ∷ [])) (entry (codes "a.go") (file (1 ∷ [])) nothing))
extension_source_sha-Agrees_example =
    extension_source_sha-Agrees pad digest (entry (codes "a.go") (file (1 ∷ [])) tail)
      (entry (codes "go.mod") (file (4 ∷ [])) (entry (codes "a.go") (file (1 ∷ [])) nothing))
      (swapped (codes "a.go") (codes "go.mod") (file (1 ∷ [])) (file (4 ∷ [])) nothing (λ e. cc e))

verify_pack-zero_iff_example :
    ((verify_pack required).1 ≡ 0)
    ↔ All (λ r. In r (map forward_slashes required)) (all_zips artifacts)
verify_pack-zero_iff_example = verify_pack-zero_iff required
