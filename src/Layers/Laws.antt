-- ===== src/Layers/Laws.antt =====
-- The check of scripts/check-layers.ts on an artifact that `pack` of scripts/build-layers.ts packed.
use cdk_log_to_s.Prelude.{
  ℕ, ◌≤◌, ◌<◌, ltb, Text, codes, text_eq, text_eq_iff, trim, is_space, true, false, List, [], ◌∷◌,
  ◌++◌, some, ok, ◌≡◌, refl, sym, ap, ◌∙◌, All, length, length-append, arith, drop_while,
  drop_while_end, drop_while_end-concat_true, drop_while_end-kept, Bool-cases, inl, inr,
  ok-injective, drop_while-cons_false,
}
use mathlib.Core.Path.{subst}
use native.Mathlib.Nat.{le_trans}
use cdk_log_to_s.Zip.Entry.{Coder}
use cdk_log_to_s.Zip.Reader.{read_zip_entries}
use cdk_log_to_s.Zip.RoundTrip.Layout.{Fits, local_bytes}
use cdk_log_to_s.Zip.RoundTrip.Reads.{listed, read-build}
use cdk_log_to_s.Zip.RoundTrip.Writes.{zip_bytes, build_zip-bytes}
use cdk_log_to_s.Layers.{Artifact, Target, Files, write_file, zip_path, sha256_path}
use cdk_log_to_s.Layers.Pack.{packed_entry, pack}
use cdk_log_to_s.Layers.Check.{
  min_size_bytes, head_of, entry_problems, mode_problems, find_entry, size_problems,
  sidecar_problems, content_problems, problems_of,
}

-- A digest is not empty text with blanks at its ends: no unit of it is white space.
abbrev pub HasNoSpace : Text → Type 0
HasNoSpace s = All (λ c. is_space c ≡ false) s

HasNoSpace-last : (r : Text) (c : ℕ) → HasNoSpace (r ++ c ∷ []) → is_space c ≡ false
HasNoSpace-last [] c h = h.0
HasNoSpace-last (d ∷ r) c h = HasNoSpace-last r c h.1

trim-line : (s : Text) → HasNoSpace s → trim (s ++ codes "\n") ≡ s
unfolding trim
trim-line [] h = unfold is_space drop_while drop_while_end in refl
trim-line (c ∷ s) h =
    rw
      (
        drop_while-cons_false is_space c (s ++ 10 ∷ []) h.0,
        drop_while_end-concat_true is_space (c ∷ s) 10 (unfold is_space in refl),
      )
      (drop_while_end-kept is_space (c ∷ s) (λ r d e. HasNoSpace-last r d (subst HasNoSpace e h)))

text_eq-append_ne : (s t : Text) → 0 < length t → text_eq (s ++ t) s ≡ false
text_eq-append_ne s t h = elim (Bool-cases (text_eq (s ++ t) s)) [
  | inl e ↦ absurd (omega (arith, ap length ((text_eq_iff (s ++ t) s).0 e), length-append {0} s t))
  | inr f ↦ f
]

text_eq_self : (s : Text) → text_eq s s ≡ true
text_eq_self s = (text_eq_iff s s).1 refl

entry_problems-packed :
    (artifact : Artifact) (binary : List ℕ)
    → entry_problems artifact.entry (listed (packed_entry artifact binary) ∷ []) ≡ []
unfolding entry_problems find_entry mode_problems packed_entry text_eq
entry_problems-packed artifact binary = rw (text_eq_self artifact.entry) refl

length-middle : (a d r t : List ℕ) → length d ≤ length ((a ++ (d ++ r)) ++ t)
length-middle a d r t = omega (
  arith,
  length-append {0} (a ++ (d ++ r)) t,
  length-append {0} a (d ++ r),
  length-append {0} d r,
)

big_enough : (n : ℕ) → min_size_bytes ≤ n → ltb n min_size_bytes ≡ false
big_enough n h = ground arith

module _ (coder : Coder) (sha256 : List ℕ → Text) (assets_dir : Text) where
  -- What the check relies on: a digest has no white space, and its line is kept by the coder.
  pub record IsDigest (z : List ℕ) : Type 0 where
    pub no_space : HasNoSpace (sha256 z)
    pub decoded : coder.decode (coder.encode (sha256 z ++ codes "\n")) ≡ sha256 z ++ codes "\n"

  sidecar_problems-packed :
      (files : Files) (artifact : Artifact) (target : Target) (z : List ℕ)
      → IsDigest z
      → files (sha256_path assets_dir artifact target)
        ≡ some (coder.encode (sha256 z ++ codes "\n"))
      → sidecar_problems coder sha256 assets_dir files artifact target z ≡ []
  unfolding sidecar_problems
  sidecar_problems-packed files artifact target z digest e =
      rw
        (
          e,
          sidecar_problems,
          digest.decoded,
          trim-line (sha256 z) digest.no_space,
          text_eq_self (sha256 z),
        )
        refl

  pub content_problems-packed :
      (files : Files) (artifact : Artifact) (target : Target) (binary z : List ℕ)
      → IsDigest z
      → files (sha256_path assets_dir artifact target)
        ≡ some (coder.encode (sha256 z ++ codes "\n"))
      → head_of z ≡ codes "PK"
      → min_size_bytes ≤ length z
      → read_zip_entries coder.decode (zip_path assets_dir artifact target) z
        ≡ ok (listed (packed_entry artifact binary) ∷ [])
      → content_problems coder sha256 assets_dir files artifact target z ≡ ok []
  unfolding content_problems size_problems
  content_problems-packed files artifact target binary z digest e head big entries =
      rw
        (
          (text_eq_iff (head_of z) (codes "PK")).1 head,
          entries,
          big_enough (length z) big,
          sidecar_problems-packed files artifact target z digest e,
          entry_problems-packed artifact binary,
        )
        refl

  abbrev pub after_pack : Artifact → Target → List ℕ → Files → Files
  after_pack artifact target z files =
      write_file (sha256_path assets_dir artifact target) (coder.encode (sha256 z ++ codes "\n"))
        (write_file (zip_path assets_dir artifact target) z files)

  after_pack-zip :
      (artifact : Artifact) (target : Target) (z : List ℕ) (files : Files)
      → after_pack artifact target z files (zip_path assets_dir artifact target) ≡ some z
  unfolding sha256_path
  after_pack-zip artifact target z files =
      rw
        (
          text_eq-append_ne (zip_path assets_dir artifact target) (codes ".sha256") (omega arith),
          text_eq_self (zip_path assets_dir artifact target),
        )
        refl

  after_pack-sidecar :
      (artifact : Artifact) (target : Target) (z : List ℕ) (files : Files)
      → after_pack artifact target z files (sha256_path assets_dir artifact target)
        ≡ some (coder.encode (sha256 z ++ codes "\n"))
  after_pack-sidecar artifact target z files =
      rw (text_eq_self (sha256_path assets_dir artifact target)) refl

  pub zip_size :
      (artifact : Artifact) (binary : List ℕ)
      → length (coder.deflate binary) ≤ length (zip_bytes coder (packed_entry artifact binary ∷ []))
  unfolding packed_entry
  zip_size artifact binary =
      length-middle (local_bytes coder (packed_entry artifact binary)) (coder.deflate binary) [] _

  -- An archive of the artifact and its digest, wherever they came from, have no problem.
  pub problems_of-packed :
      (files : Files) (artifact : Artifact) (target : Target) (binary : List ℕ)
      → Fits coder (packed_entry artifact binary ∷ [])
      → ((z : List ℕ) → IsDigest z)
      → min_size_bytes ≤ length (coder.deflate binary)
      → (let z = zip_bytes coder (packed_entry artifact binary ∷ []) in
          (files (zip_path assets_dir artifact target) ≡ some z)
          × (files (sha256_path assets_dir artifact target)
              ≡ some (coder.encode (sha256 z ++ codes "\n"))))
      → problems_of coder sha256 assets_dir files artifact target ≡ ok []
  unfolding problems_of
  problems_of-packed files artifact target binary fits digests big (there, beside) =
      let es = packed_entry artifact binary ∷ [] in
      let z = zip_bytes coder es in
      let (y, built, entries) = read-build coder (zip_path assets_dir artifact target) es fits in
      let same : y ≡ z = ok-injective (sym built ∙ build_zip-bytes coder es fits) in
      rw (there, problems_of)
        (content_problems-packed files artifact target binary z (digests z) beside refl
          (le_trans big (zip_size artifact binary)) (rw same at entries))

  -- If the sizes fit the zip format, the coder keeps the name of the entry and the line with the
  -- digest, no unit of the digest is white space, and the deflated binary is as large as the check
  -- asks for, then `pack` succeeds, and whatever the files were before, the check then finds no
  -- problem with that artifact.
  pub pack-problems_of :
      (artifact : Artifact) (target : Target) (binary : List ℕ) (files : Files)
      → Fits coder (packed_entry artifact binary ∷ [])
      → ((z : List ℕ) → IsDigest z)
      → min_size_bytes ≤ length (coder.deflate binary)
      → (packed : Files) × (pack coder sha256 assets_dir artifact target binary files ≡ ok packed)
        × (problems_of coder sha256 assets_dir packed artifact target ≡ ok [])
  unfolding pack
  pack-problems_of artifact target binary files fits digests big =
      let es = packed_entry artifact binary ∷ [] in
      let z = zip_bytes coder es in
      (
        after_pack artifact target z files,
        rw (build_zip-bytes coder es fits) refl,
        problems_of-packed (after_pack artifact target z files) artifact target binary fits digests
            big
            (after_pack-zip artifact target z files, after_pack-sidecar artifact target z files),
      )
