-- ===== src/Layers/Sources.antt =====
-- `extensionSourceSha` of scripts/build-layers.ts, on a tree of directories. Where the walk goes
-- through the sorted names, the model takes what each entry gives and sorts that by the names.
pub mod Agreement
use cdk_log_to_s.Prelude.{
  ℕ, Text, codes, text_eq, ltb, ◌==◌, Bool, true, false, not, ◌&&◌, ◌||◌, List, [], ◌∷◌, ◌++◌,
  Option, none, some, if◌then◌else◌,
}
use cdk_log_to_s.Zip.Entry.{Coder}

mutual
  -- What is at a path.
  pub data Node : Type 0 where
    file : List ℕ → Node
    directory : Entries → Node

  -- What a directory has, in the order of its listing.
  pub data Entries : Type 0 where
    nothing : Entries
    entry : Text → Node → Entries → Entries

-- The order of `sort()`, by UTF-16 units.
unfoldable pub text_lt : Text → Text → Bool
text_lt s [] = false
text_lt [] (d ∷ t) = true
text_lt (c ∷ s) (d ∷ t) = ltb c d || (c == d && text_lt s t)

unfoldable pub insert : Text → List ℕ → List (Text × List ℕ) → List (Text × List ℕ)
insert name bytes [] = (name, bytes) ∷ []
insert name bytes ((k, b) ∷ rest) =
    let later = insert name bytes rest in
    if text_lt k name then (k, b) ∷ later else (name, bytes) ∷ (k, b) ∷ rest

unfoldable pub joined : List (Text × List ℕ) → List ℕ
joined [] = []
joined ((k, b) ∷ rest) = b ++ joined rest

-- s.endsWith(suffix)
unfoldable pub ends_with : Text → Text → Bool
ends_with suffix [] = text_eq suffix []
ends_with suffix (c ∷ s) = text_eq suffix (c ∷ s) || ends_with suffix s

-- The files that are hashed, by their name.
unfoldable pub is_source : Text → Bool
is_source name =
    (ends_with (codes ".go") name || text_eq name (codes "go.mod") || text_eq name (codes "go.sum"))
    && not (ends_with (codes "_test.go") name)

-- The path of an entry relative to the root; that of the root itself is empty.
unfoldable pub below_path : Text → Text → Text
below_path [] name = name
below_path (c ∷ path) name = (c ∷ path) ++ codes "/" ++ name

-- An entry at which the loop goes on has nothing to sort.
unfoldable pub insert_some : Text → Option (List ℕ) → List (Text × List ℕ) → List (Text × List ℕ)
insert_some name none rest = rest
insert_some name (some bytes) rest = insert name bytes rest

-- What the loop hashes for an entry, if it does not `continue` at it, and for the entries of a
-- directory, each with its name.
unfoldable mutual
  pub visit : Coder → Text → Text → Node → Option (List ℕ)
  visit coder path name (file content) =
      if not (text_eq name (codes "dist")) && is_source name
      then some (coder.encode (below_path path name) ++ content)
      else none
  visit coder path name (directory entries) =
      let below = joined (walk coder (below_path path name) entries) in
      if text_eq name (codes "dist") then none else some below

  pub walk : Coder → Text → Entries → List (Text × List ℕ)
  walk coder path nothing = []
  walk coder path (entry name node entries) =
      insert_some name (visit coder path name node) (walk coder path entries)

unfoldable pub extension_source_sha : Coder → (sha256 : List ℕ → Text) → Entries → Text
extension_source_sha coder sha256 tree = sha256 (joined (walk coder [] tree))
