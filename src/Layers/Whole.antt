-- ===== src/Layers/Whole.antt =====
-- scripts/check-layers.ts on the files that scripts/build-layers.ts leaves behind.
use cdk_log_to_s.Prelude.{
  ℕ, ◌≤◌, Text, codes, text_eq, true, List, [], ◌∷◌, ◌++◌, some, ok, ◌≡◌, refl, ap, ◌∙◌,
  append_assoc, All, length, ==_refl,
}
use cdk_log_to_s.Zip.Entry.{Coder}
use cdk_log_to_s.Zip.RoundTrip.Layout.{Fits}
use cdk_log_to_s.Zip.RoundTrip.Writes.{zip_bytes, build_zip-bytes}
use cdk_log_to_s.Layers.{
  Artifact, Target, Files, write_file, zip_name, zip_path, sha256_path, artifacts, targets,
}
use cdk_log_to_s.Layers.Pack.{packed_entry, pack}
use cdk_log_to_s.Layers.Check.{
  problems_of, min_size_bytes, target_problems, all_problems, check_layers,
}
use cdk_log_to_s.Layers.Laws.{IsDigest, after_pack, problems_of-packed}
use cdk_log_to_s.Layers.Build.{build_targets, build_artifacts, build_layers}

text_eq-append_left : (p a b : Text) → text_eq (p ++ a) (p ++ b) ≡ text_eq a b
unfolding text_eq
text_eq-append_left [] a b = refl
text_eq-append_left (c ∷ p) a b = rw (==_refl c) (text_eq-append_left p a b)

-- The paths below the directory of the assets.
abbrev zip_tail : Artifact → Target → Text
zip_tail artifact target = codes "/" ++ zip_name artifact target

abbrev sha256_tail : Artifact → Target → Text
sha256_tail artifact target = zip_tail artifact target ++ codes ".sha256"

zip_path-tail :
    (dir : Text) (artifact : Artifact) (target : Target)
    → zip_path dir artifact target ≡ dir ++ zip_tail artifact target
unfolding zip_path
zip_path-tail dir artifact target = append_assoc dir (codes "/") (zip_name artifact target)

sha256_path-tail :
    (dir : Text) (artifact : Artifact) (target : Target)
    → sha256_path dir artifact target ≡ dir ++ sha256_tail artifact target
unfolding sha256_path
sha256_path-tail dir artifact target =
    ap (λ p. p ++ codes ".sha256") (zip_path-tail dir artifact target)
    ∙ append_assoc dir (zip_tail artifact target) (codes ".sha256")

abbrev layer : Artifact
layer = record { name = codes "layer"; pkg = codes "."; entry = codes "extensions/log-to-s3" }

abbrev compactor : Artifact
compactor = record {
  name = codes "compactor";
  pkg = codes "./compactor";
  entry = codes "bootstrap";
}

abbrev arm64 : Target
arm64 = record { layer = codes "arm64"; goarch = codes "arm64" }

abbrev x86_64 : Target
x86_64 = record { layer = codes "x86_64"; goarch = codes "amd64" }

module _ (coder : Coder) (sha256 : List ℕ → Text) (assets_dir : Text)
    (compile : Artifact → Target → List ℕ) where
  abbrev archive : Artifact → Target → List ℕ
  archive artifact target = zip_bytes coder (packed_entry artifact (compile artifact target) ∷ [])

  abbrev line : Artifact → Target → List ℕ
  line artifact target = coder.encode (sha256 (archive artifact target) ++ codes "\n")

  abbrev put : Artifact → Target → Files → Files
  put artifact target files =
      after_pack coder sha256 assets_dir artifact target (archive artifact target) files

  abbrev built : List ℕ → Files → Files
  built build_info files =
      write_file (assets_dir ++ codes "/BUILDINFO.json") build_info
        (put compactor x86_64 (put compactor arm64 (put layer x86_64 (put layer arm64 files))))

  -- What the check relies on for one artifact.
  abbrev pub Packs : Artifact → Target → Type 0
  Packs artifact target =
      Fits coder (packed_entry artifact (compile artifact target) ∷ [])
      × (min_size_bytes ≤ length (coder.deflate (compile artifact target)))

  build_layers-built :
      (build_info : List ℕ) (files : Files)
      → All (λ a. All (λ t. Packs a t) targets) artifacts
      → build_layers coder sha256 assets_dir compile build_info files ≡ ok (built build_info files)
  unfolding build_layers build_artifacts build_targets pack artifacts targets
  build_layers-built build_info files h =
      rw
        (
          build_zip-bytes coder _ h.0.0.0,
          build_zip-bytes coder _ h.0.1.0.0,
          build_zip-bytes coder _ h.1.0.0.0,
          build_zip-bytes coder _ h.1.0.1.0.0,
        )
        refl

  Stored : Files → Artifact → Target → Type 0
  Stored files artifact target =
      (files (assets_dir ++ zip_tail artifact target) ≡ some (archive artifact target))
      × (files (assets_dir ++ sha256_tail artifact target) ≡ some (line artifact target))

  built-Stored :
      (build_info : List ℕ) (files : Files)
      → Stored (built build_info files) layer arm64
        × Stored (built build_info files) layer x86_64
        × Stored (built build_info files) compactor arm64
        × Stored (built build_info files) compactor x86_64
  unfolding Stored text_eq
  built-Stored build_info files = (
    (
      simp (sha256_path-tail, zip_path-tail, text_eq-append_left),
      simp (sha256_path-tail, zip_path-tail, text_eq-append_left),
    ),
    (
      simp (sha256_path-tail, zip_path-tail, text_eq-append_left),
      simp (sha256_path-tail, zip_path-tail, text_eq-append_left),
    ),
    (
      simp (sha256_path-tail, zip_path-tail, text_eq-append_left),
      simp (sha256_path-tail, zip_path-tail, text_eq-append_left),
    ),
    (
      simp (sha256_path-tail, zip_path-tail, text_eq-append_left),
      simp (sha256_path-tail, zip_path-tail, text_eq-append_left),
    ),
  )

  Stored-problems_of :
      (files : Files) (artifact : Artifact) (target : Target)
      → ((z : List ℕ) → IsDigest coder sha256 assets_dir z)
      → Packs artifact target
      → Stored files artifact target
      → problems_of coder sha256 assets_dir files artifact target ≡ ok []
  unfolding Stored
  Stored-problems_of files artifact target digests packs stored =
      problems_of-packed coder sha256 assets_dir files artifact target (compile artifact target)
        packs.0 digests packs.1
        (
          ap files (zip_path-tail assets_dir artifact target) ∙ stored.0,
          ap files (sha256_path-tail assets_dir artifact target) ∙ stored.1,
        )

  -- If for each artifact and target the sizes fit the zip format, the coder keeps the name of the
  -- entry, and the deflated binary is as large as the check asks for, and if no unit of a digest
  -- is white space and the coder keeps the line with it, then the build succeeds, and whatever the
  -- files were before, the check then finds no problem with any artifact for any target.
  pub build_layers-check_layers :
      (build_info : List ℕ) (files : Files)
      → ((z : List ℕ) → IsDigest coder sha256 assets_dir z)
      → All (λ a. All (λ t. Packs a t) targets) artifacts
      → (after : Files) × (build_layers coder sha256 assets_dir compile build_info files ≡ ok after)
        × (check_layers coder sha256 assets_dir after ≡ ok true)
  unfolding check_layers all_problems target_problems artifacts targets
  build_layers-check_layers build_info files digests h =
      let after = built build_info files in
      let (s1, s2, s3, s4) = built-Stored build_info files in
      (
        after,
        build_layers-built build_info files h,
        rw
            (
              Stored-problems_of after layer arm64 digests h.0.0 s1,
              Stored-problems_of after layer x86_64 digests h.0.1.0 s2,
              Stored-problems_of after compactor arm64 digests h.1.0.0 s3,
              Stored-problems_of after compactor x86_64 digests h.1.0.1.0 s4,
            )
            refl,
      )
