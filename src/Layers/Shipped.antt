-- ===== src/Layers/Shipped.antt =====
-- scripts/verify-pack.js: the npm tarball has the zip files. The paths that `npm pack` reports are
-- given.
use cdk_log_to_s.Prelude.{
  ℕ, Text, codes, number_text, text_eq, text_eq_iff, true, List, [], ◌∷◌, ◌++◌, map, any, length,
  All, Bool-cases, inl, inr, if◌then◌else◌, ◌⊎◌, ◌≡◌, ◌↔◌, refl, arith,
}
use cdk_log_to_s.Logger.CallSite.{forward_slashes}
use cdk_log_to_s.Integ.Script.{Line, log, error}
use cdk_log_to_s.Layers.{Artifact, Target, artifacts, targets, zip_path}

unfoldable pub required : List Text
required =
    codes "assets/layer-arm64.zip"
    ∷ codes "assets/layer-x86_64.zip"
    ∷ codes "assets/compactor-arm64.zip"
    ∷ codes "assets/compactor-x86_64.zip"
    ∷ []

-- `required.filter((r) => !files.includes(r))`
unfoldable pub missing_of : List Text → List Text → List Text
missing_of [] files = []
missing_of (r ∷ rest) files =
    let later = missing_of rest files in if any (text_eq r) files then later else r ∷ later

unfoldable pub missing_lines : List Text → List Line
missing_lines [] = []
missing_lines (m ∷ missing) = error (codes "  - " ++ m) ∷ missing_lines missing

-- What is printed, and the exit code.
unfoldable pub report : List Text → List Line × ℕ
report [] = (
  log (codes "npm tarball contains all " ++ number_text (length required) ++ codes " Go artifacts")
      ∷ [],
  0,
)
report (m ∷ missing) = (
  error (codes "The npm tarball is missing required layer assets:") ∷ missing_lines (m ∷ missing)
      ++ error (codes "\nCheck the .npmignore negations in .projenrc.ts.") ∷ [],
  1,
)

unfoldable pub verify_pack : List Text → List Line × ℕ
verify_pack paths = report (missing_of required (map forward_slashes paths))

-- The membership that `includes` tests.
abbrev pub In : Text → List Text → Type 0
In r [] = ⊥
In r (f ∷ files) = (r ≡ f) ⊎ In r files

includes_iff : (r : Text) (files : List Text) → (any (text_eq r) files ≡ true) ↔ In r files
includes_iff r [] = ((λ h. absurd (cc h)), (λ h. absurd h))
includes_iff r (f ∷ files) = ground (arith, text_eq_iff r f, includes_iff r files)

missing_of-nil_iff :
    (wanted files : List Text) → (missing_of wanted files ≡ []) ↔ All (λ r. In r files) wanted
unfolding missing_of
missing_of-nil_iff [] files = ((λ h. tt), (λ h. refl))
missing_of-nil_iff (r ∷ rest) files = elim (Bool-cases (any (text_eq r) files)) [
  | inl e ↦ rw e (
    (λ h. ((includes_iff r files).0 e, (missing_of-nil_iff rest files).0 h)),
    (λ h. (missing_of-nil_iff rest files).1 h.1),
  )
  | inr e ↦ rw e ((λ h. absurd (cc h)), (λ h. absurd (cc (e, (includes_iff r files).1 h.0))))
]

report-zero_iff : (missing : List Text) → ((report missing).1 ≡ 0) ↔ (missing ≡ [])
unfolding report
report-zero_iff [] = ((λ h. refl), (λ h. refl))
report-zero_iff (m ∷ missing) = ((λ h. absurd (omega (arith, h))), (λ h. absurd (cc h)))

-- The paths of the zip files of all artifacts for all targets, below the root of the package.
abbrev pub zips_of : Artifact → List Target → List Text
zips_of artifact [] = []
zips_of artifact (target ∷ rest) = zip_path (codes "assets") artifact target ∷ zips_of artifact rest

abbrev pub all_zips : List Artifact → List Text
all_zips [] = []
all_zips (artifact ∷ rest) = zips_of artifact targets ++ all_zips rest

required-zips : required ≡ all_zips artifacts
unfolding required artifacts targets zip_path
required-zips = refl

-- The check of the npm tarball ends with code 0 exactly if, up to the kind of slash, the tarball
-- has the zip file of every artifact for every target.
pub verify_pack-zero_iff :
    (paths : List Text)
    → ((verify_pack paths).1 ≡ 0) ↔ All (λ r. In r (map forward_slashes paths)) (all_zips artifacts)
unfolding verify_pack
verify_pack-zero_iff paths =
    let files = map forward_slashes paths in
    let nil = missing_of-nil_iff required files in
    let zero = report-zero_iff (missing_of required files) in
    rw (← required-zips) ((λ h. nil.0 (zero.0 h)), (λ h. zero.1 (nil.1 h)))
