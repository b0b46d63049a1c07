-- ===== src/Layers/Check.antt =====
-- The main program of scripts/check-layers.ts: the problems of the committed archives.
use Prim.Native.Nat.{bit_and}
use cdk_log_to_s.Prelude.{
  ℕ, ◌*◌, ◌==◌, ltb, Text, codes, text_eq, trim, Bool, true, false, not, List, [], ◌∷◌, ◌++◌,
  Option, none, some, Result, ok, ◌>>=◌, length, take, if◌then◌else◌,
}
use cdk_log_to_s.Zip.Entry.{Coder}
use cdk_log_to_s.Zip.Buffer.{overwrite, alloc}
use cdk_log_to_s.Zip.Reader.{ZipEntry, read_zip_entries}
use cdk_log_to_s.Layers.{Artifact, Target, Files, artifacts, targets, zip_path, sha256_path}

abbrev pub min_size_bytes : ℕ
min_size_bytes = 1024 * 1024

-- `entries.find((e) => e.name === wantName)`
unfoldable pub find_entry : Text → List ZipEntry → Option ZipEntry
find_entry want [] = none
find_entry want (e ∷ entries) = if text_eq e.name want then some e else find_entry want entries

-- The kinds of problems, each with what its message tells beside the archive's name.
pub data Problem : Type 0 where
  zip_missing : Problem
  too_small : ℕ → Problem
  no_magic : Problem
  sidecar_missing : Problem
  checksum_differs : Text → Text → Problem
  entry_missing : Text → List ZipEntry → Problem
  no_mode : Text → Problem
  not_executable : Text → ℕ → Problem

unfoldable pub mode_problems : Text → Option ℕ → List Problem
mode_problems want none = no_mode want ∷ []
mode_problems want (some mode) =
    if bit_and mode 0o111 == 0 then not_executable want mode ∷ [] else []

unfoldable pub entry_problems : Text → List ZipEntry → List Problem
entry_problems want entries = elim (find_entry want entries) [
  | none ↦ entry_missing want entries ∷ []
  | some entry ↦ mode_problems want entry.mode
]

-- Two bytes read into a buffer of zeros.
abbrev pub head_of : List ℕ → List ℕ
head_of content = overwrite (take 2 content) (alloc 2)

unfoldable pub size_problems : List ℕ → List Problem
size_problems content =
    if ltb (length content) min_size_bytes then too_small (length content) ∷ [] else []

module _ (coder : Coder) (sha256 : List ℕ → Text) (assets_dir : Text) (files : Files) where
  unfoldable pub sidecar_problems : Artifact → Target → List ℕ → List Problem
  sidecar_problems artifact target content = elim (files (sha256_path assets_dir artifact target)) [
    | none ↦ sidecar_missing ∷ []
    | some sidecar ↦
        let expected = trim (coder.decode sidecar) in
        let actual = sha256 content in
        if text_eq expected actual then [] else checksum_differs expected actual ∷ []
  ]

  unfoldable pub content_problems : Artifact → Target → List ℕ → Result (List Problem)
  content_problems artifact target content =
      if not (text_eq (head_of content) (codes "PK"))
      then ok (size_problems content ++ no_magic ∷ [])
      else do
        entries ← read_zip_entries coder.decode (zip_path assets_dir artifact target) content
        ok (
            size_problems content
            ++ (sidecar_problems artifact target content ++ entry_problems artifact.entry entries))

  -- One round of the two loops.
  unfoldable pub problems_of : Artifact → Target → Result (List Problem)
  problems_of artifact target = elim (files (zip_path assets_dir artifact target)) [
    | none ↦ ok (zip_missing ∷ [])
    | some content ↦ content_problems artifact target content
  ]

  unfoldable pub target_problems : Artifact → List Target → Result (List Problem)
  target_problems artifact [] = ok []
  target_problems artifact (target ∷ rest) = do
    here ← problems_of artifact target
    later ← target_problems artifact rest
    ok (here ++ later)

  unfoldable pub all_problems : List Artifact → Result (List Problem)
  all_problems [] = ok []
  all_problems (artifact ∷ rest) = do
    here ← target_problems artifact targets
    later ← all_problems rest
    ok (here ++ later)

  -- The exit of the process: no problem, or a failure.
  unfoldable pub check_layers : Result Bool
  check_layers = do
    problems ← all_problems artifacts
    ok (elim problems [ [] ↦ true | p ∷ rest ↦ false ])
