-- ===== src/Compactor.antt =====
-- The compaction job of extension-go/compactor: what it takes from outside, and the choice of the
-- files that one run merges.
pub mod Bucket
pub mod Store
pub mod Run
pub mod Settings
pub mod Handler
pub mod Written
pub mod Sample
pub mod Tests
use cdk_log_to_s.Prelude.{
  ℕ, suc, ◌+◌, Text, codes, text_eq, take, Bool, true, false, ◌||◌, ◌&&◌, not, if◌then◌else◌, List,
  [], ◌∷◌, ◌++◌, map, length, ◌≡◌, Option, none, some, ltb, leb, ◌==◌,
}
use cdk_log_to_s.Go.Strings.{has_prefix, has_suffix, trim_right}
use cdk_log_to_s.Integ.Keys.{after_last_slash}
use cdk_log_to_s.Layout.{hex_encode}

-- A row, of extension-go/internal/logrecord/entry.go.
pub record Entry : Type 0 where
  pub timestamp : Text
  pub level : Text
  pub source : Text
  pub correlation_id : Text
  pub request_id : Text
  pub message : Text
  pub function_name : Text
  pub context : Option Text
  pub stack_trace : Option Text
  pub caller : Option Text

pub record Manifest : Type 0 where
  pub sources : List Text
  pub outputs : List Text
  pub written : Text

-- The Parquet codec behind `logrecord.Write` and `logrecord.Read`, `crypto/sha256`, the JSON of a
-- manifest, and the time of the run as it is written.
pub record Tools : Type 0 where
  pub write : List Entry → Text → Option Text
  pub read : Text → Option (List Entry)
  pub sha256 : Text → List ℕ
  pub marshal : Manifest → Option Text
  pub unmarshal : Text → Option Manifest
  pub now : Text

pub record Lawful (tools : Tools) : Type 0 where
  pub read-write :
      (entries : List Entry) (compression body : Text)
      → tools.write entries compression ≡ some body
      → tools.read body ≡ some entries
  pub unmarshal-marshal :
      (m : Manifest) (body : Text) → tools.marshal m ≡ some body → tools.unmarshal body ≡ some m

-- The settings. The clock is a part of `Tools`, and of the calendar where days are counted.
pub record Config : Type 0 where
  pub bucket : Text
  pub prefix : Text
  pub compression : Text
  pub min_files : ℕ
  pub max_files : ℕ
  pub max_bytes : ℕ
  pub lookback_days : ℕ
  pub region : Text
  pub debug : Bool

pub record Object : Type 0 where
  pub key : Text
  pub size : ℕ

-- path.Base(p)
unfoldable pub path_base : Text → Text
path_base p =
    if text_eq p []
    then codes "."
    else let body = trim_right p b'/' in
      let name = after_last_slash body body in if text_eq name [] then codes "/" else name

abbrev pub compacted_prefix : Text
compacted_prefix = codes "part-"

abbrev pub manifest_prefix : Text
manifest_prefix = codes "_part-"

abbrev pub manifest_suffix : Text
manifest_suffix = codes ".manifest.json"

-- The tests of the switch in `selectSources`.
unfoldable pub is_candidate : Text → Bool
is_candidate key =
    let base = path_base key in
    has_suffix base (codes ".parquet")
    && not (has_prefix base compacted_prefix)
    && not (has_prefix base (codes "_") || has_prefix base (codes "."))

unfoldable pub candidates : List Object → List Object
candidates [] = []
candidates (o ∷ objects) =
    let rest = candidates objects in if is_candidate o.key then o ∷ rest else rest

-- `a < b` on strings: by runes, which is by bytes.
unfoldable pub text_lt : Text → Text → Bool
text_lt a [] = false
text_lt [] (d ∷ t) = true
text_lt (c ∷ s) (d ∷ t) = ltb c d || ((c == d) && text_lt s t)

-- sort.SliceStable, and sort.Slice where no two are equal.
module _ {A : Type 0} (less : A → A → Bool) where
  unfoldable pub insert : A → List A → List A
  insert a [] = a ∷ []
  insert a (b ∷ l) = if less b a then b ∷ insert a l else a ∷ b ∷ l

  unfoldable pub sort : List A → List A
  unfolding insert
  sort [] = []
  sort (a ∷ l) = insert a (sort l)

-- The loop with the caps: `n` and `bytes` are the files and the bytes that are taken.
unfoldable pub capped : Config → ℕ → ℕ → List Object → List Object
capped cfg n bytes [] = []
capped cfg n bytes (o ∷ objects) =
    let rest = o ∷ capped cfg (n + 1) (bytes + o.size) objects in
    if leb cfg.max_files n
    then []
    else if ltb 0 n && ltb cfg.max_bytes (bytes + o.size)
    then []
    else rest

unfoldable pub select_sources : List Object → Config → List Object
unfolding candidates capped sort
select_sources objects cfg = capped cfg 0 0 (sort (λ a b. text_lt a.key b.key) (candidates objects))

-- What the hash of `digest` is fed.
unfoldable pub digest_input : List Text → Text
digest_input [] = []
digest_input (k ∷ keys) = k ++ (0 ∷ digest_input keys)

unfoldable pub digest : Tools → List Text → Text
unfolding digest_input
digest tools keys = take 16 (hex_encode (tools.sha256 (digest_input keys)))

-- The order of the merged rows.
unfoldable pub entry_less : Entry → Entry → Bool
unfolding text_lt text_eq
entry_less a b =
    if text_eq a.timestamp b.timestamp
    then text_lt a.request_id b.request_id
    else text_lt a.timestamp b.timestamp
