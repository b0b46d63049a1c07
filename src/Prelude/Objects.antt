-- ===== src/Prelude/Objects.antt =====
-- A JavaScript object used as a map, `{ [key: string]: T }`: its entries in the order of
-- insertion, which `Object.entries` gives. (No key here is an array index.)
use Prim.Native.String.{String}
use mathlib.Core.Path.{◌≡◌, refl}
use mathlib.Core.Option.{Option, none, some}
use mathlib.Core.List.{List, [], ◌∷◌}
use native.Mathlib.Omega.{arith}
use text.Mathlib.Text.{◌==◌}
use text.Mathlib.TextEquality.{eq_iff}
use cdk_log_to_s.Prelude.Tests.{if◌then◌else◌}

module _ {ℓ} {V : Type ℓ} where
  unfoldable pub lookup : String → List (String × V) → Option V
  lookup k [] = none
  lookup k ((j, v) ∷ m) = if j == k then some v else lookup k m

  -- `m[k] = v`: a key that is there keeps its place.
  unfoldable pub assign : String → V → List (String × V) → List (String × V)
  assign k v [] = (k, v) ∷ []
  assign k v ((j, w) ∷ m) = if j == k then (j, v) ∷ m else (j, w) ∷ assign k v m

  -- `if (o !== undefined) m[k] = o`.
  unfoldable pub assign_some : String → Option V → List (String × V) → List (String × V)
  assign_some k none m = m
  assign_some k (some v) m = assign k v m

module _ {ℓ} {V : Type ℓ} where
  -- The first of the two that is defined.
  unfoldable pub some_or : Option V → Option V → Option V
  some_or none p = p
  some_or (some v) p = some v

  pub some_or-none : (o : Option V) → some_or o none ≡ o
  unfolding some_or
  some_or-none none = refl
  some_or-none (some v) = refl

  pub lookup-assign :
      (k j : String) (v : V) (m : List (String × V))
      → lookup j (assign k v m) ≡ (if k == j then some v else lookup j m)
  unfolding lookup assign
  lookup-assign k j v [] = refl
  lookup-assign k j v ((i, w) ∷ m) =
      ground (arith, eq_iff k j, eq_iff i k, eq_iff i j, lookup-assign k j v m)

  -- Exactly one entry has each key that is there.
  abbrev pub HasUniqueKeys : List (String × V) → Type ℓ
  HasUniqueKeys [] = Unit
  HasUniqueKeys ((k, v) ∷ m) = (lookup k m ≡ none) × HasUniqueKeys m

module _ {ℓ} {V : Type ℓ} where
  pub assign-HasUniqueKeys :
      (k : String) (v : V) (m : List (String × V)) → HasUniqueKeys m → HasUniqueKeys (assign k v m)
  unfolding assign lookup
  assign-HasUniqueKeys k v [] h = (refl, tt)
  assign-HasUniqueKeys k v ((i, w) ∷ m) h =
      ground (arith, eq_iff i k, eq_iff k i, lookup-assign k i v m, assign-HasUniqueKeys k v m h.1)

  pub lookup-assign_some :
      (k j : String) (o : Option V) (m : List (String × V))
      → lookup j (assign_some k o m) ≡ (if k == j then some_or o (lookup j m) else lookup j m)
  unfolding assign_some some_or
  lookup-assign_some k j none m = ground arith
  lookup-assign_some k j (some v) m = lookup-assign k j v m

  pub assign_some-HasUniqueKeys :
      (k : String) (o : Option V) (m : List (String × V))
      → HasUniqueKeys m
      → HasUniqueKeys (assign_some k o m)
  unfolding assign_some
  assign_some-HasUniqueKeys k none m h = h
  assign_some-HasUniqueKeys k (some v) m h = assign-HasUniqueKeys k v m h
