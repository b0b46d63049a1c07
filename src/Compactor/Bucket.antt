-- ===== src/Compactor/Bucket.antt =====
-- The contents of a bucket, as S3 documents what its calls do to them.
pub mod Laws
pub mod Rows
use cdk_log_to_s.Prelude.{
  ℕ, Text, text_eq, Bool, true, false, ◌||◌, if◌then◌else◌, List, [], ◌∷◌, ◌++◌, Option, none, some,
  length,
}
use cdk_log_to_s.Go.Strings.{has_prefix}
use cdk_log_to_s.Compactor.{Object, sort, text_lt}

abbrev pub Bucket : Type 0
Bucket = List (Text × Text)

unfoldable pub mem : Text → List Text → Bool
mem k [] = false
mem k (j ∷ keys) = text_eq k j || mem k keys

unfoldable pub find : Text → Bucket → Option Text
find k [] = none
find k ((j, b) ∷ s) = if text_eq k j then some b else find k s

-- A key that is there gets the new body.
unfoldable pub assign : Text → Text → Bucket → Bucket
assign k b [] = (k, b) ∷ []
assign k b ((j, c) ∷ s) = if text_eq k j then (j, b) ∷ s else (j, c) ∷ assign k b s

unfoldable pub remove : List Text → Bucket → Bucket
unfolding mem
remove keys [] = []
remove keys ((j, b) ∷ s) = let rest = remove keys s in if mem j keys then rest else (j, b) ∷ rest

-- The objects below a prefix, in the order of the bucket.
unfoldable pub listing : Text → Bucket → List Object
listing prefix [] = []
listing prefix ((k, b) ∷ s) =
    let rest = listing prefix s in
    if has_prefix k prefix then record { key = k; size = length b } ∷ rest else rest

-- The order in which S3 lists them.
abbrev pub by_key : List Object → List Object
by_key objects = sort (λ a b. text_lt a.key b.key) objects
