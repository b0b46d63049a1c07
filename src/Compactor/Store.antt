-- ===== src/Compactor/Store.antt =====
-- extension-go/compactor/store.go: the object store, over the calls of the S3 client.
pub mod Laws
use cdk_log_to_s.Prelude.{
  ℕ, zero, suc, Text, Bool, true, false, List, [], ◌∷◌, ◌++◌, take, drop, length, Option, none,
  some, ◌≡◌, ◌⊎◌,
}
use cdk_log_to_s.Compactor.{Object}
use cdk_log_to_s.Compactor.Bucket.{Bucket, mem, find, assign, remove, listing, by_key}

-- The client: each call changes the world, and is answered or fails, as it does when the run dies.
pub record S3 : Type 1 where
  pub World : Type 0
  pub list : Text → World → Option (List Object) × World
  pub get : Text → World → Option Text × World
  pub put : Text → Text → World → Bool × World
  pub delete_objects : List Text → World → Bool × World

-- What S3 documents: a listing is in the order of the keys, whatever that of the bucket is; a call that is answered has its effect; one that fails has its effect or none,
-- and a deletion that fails has deleted some of its keys.
pub record Lawful (s3 : S3) : Type 0 where
  pub contents : s3.World → Bucket
  pub list-keeps : (p : Text) (w : s3.World) → contents (s3.list p w).1 ≡ contents w
  pub list-answers :
      (p : Text) (w : s3.World) (l : List Object)
      → (s3.list p w).0 ≡ some l
      → l ≡ by_key (listing p (contents w))
  pub get-keeps : (k : Text) (w : s3.World) → contents (s3.get k w).1 ≡ contents w
  pub get-answers :
      (k : Text) (w : s3.World) (b : Text) → (s3.get k w).0 ≡ some b → find k (contents w) ≡ some b
  pub put-answers :
      (k b : Text) (w : s3.World)
      → (s3.put k b w).0 ≡ true
      → contents (s3.put k b w).1 ≡ assign k b (contents w)
  pub put-fails :
      (k b : Text) (w : s3.World)
      → (s3.put k b w).0 ≡ false
      → (contents (s3.put k b w).1 ≡ contents w)
        ⊎ (contents (s3.put k b w).1 ≡ assign k b (contents w))
  pub delete-answers :
      (keys : List Text) (w : s3.World)
      → (s3.delete_objects keys w).0 ≡ true
      → contents (s3.delete_objects keys w).1 ≡ remove keys (contents w)
  pub delete-fails :
      (keys : List Text) (w : s3.World)
      → (s3.delete_objects keys w).0 ≡ false
      → (gone : List Text) × ((k : Text) → mem k gone ≡ true → mem k keys ≡ true)
        × (contents (s3.delete_objects keys w).1 ≡ remove gone (contents w))

module _ (s3 : S3) where
  -- A step of a run: a value, or an error that ends the run, and the world that is left.
  abbrev pub M : Type 0 → Type 0
  M A = s3.World → Option A × s3.World

  abbrev pub pure : {A : Type 0} → A → M A
  pure a w = (some a, w)

  abbrev pub fail : {A : Type 0} → M A
  fail w = (none, w)

  -- `if err != nil { return … }`, and what follows where there is no error.
  unfoldable pub continue : {A B : Type 0} → Option A → s3.World → (A → M B) → Option B × s3.World
  continue none w f = (none, w)
  continue (some a) w f = f a w

  unfoldable pub bind : {A B : Type 0} → M A → (A → M B) → M B
  unfolding continue
  bind m f w = let r = m w in continue r.0 r.1 f

  abbrev pub answered : Bool → Option (Unit {0})
  answered true = some tt
  answered false = none

  unfoldable pub list_objects : Text → M (List Object)
  list_objects prefix = s3.list prefix

  unfoldable pub get_object : Text → M Text
  get_object key = s3.get key

  unfoldable pub put_object : Text → Text → M (Unit {0})
  put_object key body w = let r = s3.put key body w in (answered r.0, r.1)

  unfoldable pub delete_batch : List Text → M (Unit {0})
  delete_batch keys w = let r = s3.delete_objects keys w in (answered r.0, r.1)

  -- The loop of `Delete`, by batches of 1000 keys; each takes one unit of fuel at least.
  unfoldable pub delete_loop : ℕ → List Text → M (Unit {0})
  unfolding delete_batch bind
  delete_loop zero keys = pure tt
  delete_loop (suc fuel) [] = pure tt
  delete_loop (suc fuel) (k ∷ keys) =
      bind (delete_batch (take 1000 (k ∷ keys))) (λ _. delete_loop fuel (drop 1000 (k ∷ keys)))

  unfoldable pub delete_keys : List Text → M (Unit {0})
  unfolding delete_loop
  delete_keys keys = delete_loop (length keys) keys
