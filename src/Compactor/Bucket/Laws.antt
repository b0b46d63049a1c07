-- ===== src/Compactor/Bucket/Laws.antt =====
-- What the operations on the contents of a bucket do to one another.
use cdk_log_to_s.Prelude.{
  ℕ, zero, suc, Text, text_eq, text_eq_iff, false, ◌||◌, List, [], ◌∷◌, ◌++◌, none, some, take,
  drop, ◌≡◌, refl, ap, arith, All,
}
use cdk_log_to_s.Compactor.Bucket.{Bucket, mem, find, assign, remove, listing}

pub mem-append : (k : Text) (a b : List Text) → mem k (a ++ b) ≡ (mem k a || mem k b)
unfolding mem
mem-append k [] b = refl
mem-append k (j ∷ a) b = ground (arith, mem-append k a b)

pub find-append : (k : Text) (s t : Bucket) → find k s ≡ none → find k (s ++ t) ≡ find k t
unfolding find
find-append k [] t h = refl
find-append k ((j, b) ∷ s) t h = ground (arith, find-append k s t)

pub find-append_some : (k c : Text) (s t : Bucket) → find k s ≡ some c → find k (s ++ t) ≡ some c
unfolding find
find-append_some k c [] t h = cc
find-append_some k c ((j, b) ∷ s) t h = ground (arith, find-append_some k c s t)

pub assign-append :
    (k b : Text) (s t : Bucket) → find k s ≡ none → assign k b (s ++ t) ≡ s ++ assign k b t
unfolding find assign
assign-append k b [] t h = refl
assign-append k b ((j, c) ∷ s) t h = ground (arith, assign-append k b s t)

pub remove-append :
    (keys : List Text) (s t : Bucket) → remove keys (s ++ t) ≡ remove keys s ++ remove keys t
unfolding remove
remove-append keys [] t = refl
remove-append keys ((j, b) ∷ s) t = ground (arith, remove-append keys s t)

pub remove-remove : (a b : List Text) (s : Bucket) → remove b (remove a s) ≡ remove (a ++ b) s
unfolding remove
remove-remove a b [] = refl
remove-remove a b ((j, c) ∷ s) = ground (arith, remove-remove a b s, mem-append j a b)

-- Keys that stand for the same entries of a bucket.
pub remove-agree :
    (a b : List Text) (s : Bucket) → All (λ e. mem e.0 a ≡ mem e.0 b) s → remove a s ≡ remove b s
unfolding remove
remove-agree a b [] h = refl
remove-agree a b ((j, c) ∷ s) h = ground (arith, h.0, remove-agree a b s h.1)

pub remove-none : (a : List Text) (s : Bucket) → All (λ e. mem e.0 a ≡ false) s → remove a s ≡ s
unfolding remove
remove-none a [] h = refl
remove-none a ((j, c) ∷ s) h = ground (arith, h.0, remove-none a s h.1)

pub find-remove :
    (k : Text) (keys : List Text) (s : Bucket)
    → mem k keys ≡ false
    → find k (remove keys s) ≡ find k s
unfolding find remove
find-remove k keys [] h = refl
find-remove k keys ((j, b) ∷ s) h = ground (arith, text_eq_iff k j, find-remove k keys s h)

pub find-remove-none :
    (k : Text) (keys : List Text) (s : Bucket) → find k s ≡ none → find k (remove keys s) ≡ none
unfolding find remove
find-remove-none k keys [] h = refl
find-remove-none k keys ((j, b) ∷ s) h = ground (arith, find-remove-none k keys s)

pub listing-append : (p : Text) (s t : Bucket) → listing p (s ++ t) ≡ listing p s ++ listing p t
unfolding listing
listing-append p [] t = refl
listing-append p ((j, b) ∷ s) t = ground (arith, listing-append p s t)

pub take-drop : (n : ℕ) (keys : List Text) → take n keys ++ drop n keys ≡ keys
take-drop zero keys = refl
take-drop (suc n) [] = refl
take-drop (suc n) (k ∷ keys) = ap (λ l. k ∷ l) (take-drop n keys)

pub find-append_other :
    (k j b : Text) (s : Bucket) → text_eq k j ≡ false → find k (s ++ (j, b) ∷ []) ≡ find k s
unfolding find
find-append_other k j b [] h = rw h
find-append_other k j b ((i, c) ∷ s) h = ground (arith, find-append_other k j b s h)

pub remove-nil : (s : Bucket) → remove [] s ≡ s
unfolding remove mem
remove-nil [] = refl
remove-nil (e ∷ s) = ap (λ t. e ∷ t) (remove-nil s)
