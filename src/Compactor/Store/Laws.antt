-- ===== src/Compactor/Store/Laws.antt =====
-- What a step of a run leaves in the bucket, whether it ends in a value or in an error.
use cdk_log_to_s.Prelude.{
  ℕ, zero, suc, ◌≤◌, Text, Bool, true, false, List, [], ◌∷◌, ◌++◌, take, drop, length, Option, none,
  some, ◌≡◌, ◌⊎◌, inl, inr, refl, sym, ap, ◌∙◌, arith,
}
use mathlib.Core.Path.{subst}
use cdk_log_to_s.Compactor.Bucket.{Bucket, mem, find, assign, remove, listing, by_key}
use cdk_log_to_s.Compactor.Bucket.Laws.{mem-append, remove-remove, remove-nil, take-drop}
use cdk_log_to_s.Compactor.Store.{
  S3, Lawful, M, continue, bind, answered, list_objects, get_object, put_object, delete_batch,
  delete_loop, delete_keys,
}

module _ (s3 : S3) (laws : Lawful s3) where
  open laws use {contents}

  -- `value` holds of a value and of the contents it leaves, `stopped` of the contents after an error.
  abbrev pub After :
      {A : Type 0} → (A → Bucket → Type 0) → (Bucket → Type 0) → Option A → Bucket → Type 0
  After value stopped none s = stopped s
  After value stopped (some a) s = value a s

  pub record Ends {A : Type 0} (value : A → Bucket → Type 0) (stopped : Bucket → Type 0)
      (r : Option A × s3.World) : Type 0 where
    pub holds : After value stopped r.0 (contents r.1)

  Ends-continue :
      {A B : Type 0} (P : A → Bucket → Type 0) {Q : B → Bucket → Type 0} {X : Bucket → Type 0}
      (Y : Bucket → Type 0) (o : Option A) (w : s3.World) (f : A → M s3 B)
      → After P Y o (contents w)
      → ((s : Bucket) → Y s → X s)
      → ((a : A) (v : s3.World) → P a (contents v) → Ends Q X (f a v))
      → Ends Q X (continue s3 o w f)
  unfolding continue
  Ends-continue P Y none w f h weak next = record { holds = weak (contents w) h }
  Ends-continue P Y (some a) w f h weak next = next a w h

  -- What holds after the first step, where it stops and where it goes on, and after the rest.
  pub Ends-bind :
      {A B : Type 0} {P : A → Bucket → Type 0} {Q : B → Bucket → Type 0} {X Y : Bucket → Type 0}
      (m : M s3 A) (f : A → M s3 B) (w : s3.World)
      → Ends P Y (m w)
      → ((s : Bucket) → Y s → X s)
      → ((a : A) (v : s3.World) → P a (contents v) → Ends Q X (f a v))
      → Ends Q X (bind s3 m f w)
  unfolding bind
  Ends-bind {P} {Y} m f w h weak next = Ends-continue P Y (m w).0 (m w).1 f h.holds weak next

  After-mono :
      {A : Type 0} {P Q : A → Bucket → Type 0} {X Y : Bucket → Type 0} (o : Option A) (s : Bucket)
      → After P X o s
      → ((s : Bucket) → X s → Y s)
      → ((a : A) (s : Bucket) → P a s → Q a s)
      → After Q Y o s
  After-mono none s h f g = f s h
  After-mono (some a) s h f g = g a s h

  pub Ends-mono :
      {A : Type 0} {P Q : A → Bucket → Type 0} {X Y : Bucket → Type 0} {r : Option A × s3.World}
      → Ends P X r
      → ((s : Bucket) → X s → Y s)
      → ((a : A) (s : Bucket) → P a s → Q a s)
      → Ends Q Y r
  Ends-mono {r} h f g = record { holds = After-mono r.0 (contents r.1) h.holds f g }

  After-answer :
      {A : Type 0} (P : A → Type 0) (o : Option A) (s t : Bucket)
      → t ≡ s
      → ((a : A) → o ≡ some a → P a)
      → After (λ a u. (u ≡ s) × P a) (λ u. u ≡ s) o t
  After-answer P none s t e h = e
  After-answer P (some a) s t e h = (e, h a refl)

  pub list_objects-Ends :
      (p : Text) (w : s3.World) (s : Bucket)
      → contents w ≡ s
      → Ends (λ l u. (u ≡ s) × (l ≡ by_key (listing p s))) (λ u. u ≡ s) (list_objects s3 p w)
  unfolding list_objects
  list_objects-Ends p w s e = record {
    holds =
        After-answer (λ l. l ≡ by_key (listing p s)) (s3.list p w).0 s _ (laws.list-keeps p w ∙ e)
          (λ l h. laws.list-answers p w l h ∙ ap (λ x. by_key (listing p x)) e);
  }

  pub get_object-Ends :
      (k : Text) (w : s3.World) (s : Bucket)
      → contents w ≡ s
      → Ends (λ b u. (u ≡ s) × (find k s ≡ some b)) (λ u. u ≡ s) (get_object s3 k w)
  unfolding get_object
  get_object-Ends k w s e = record {
    holds =
        After-answer (λ b. find k s ≡ some b) (s3.get k w).0 s _ (laws.get-keeps k w ∙ e)
          (λ b h. ap (find k) (sym e) ∙ laws.get-answers k w b h);
  }

  put_object-answer :
      (k b : Text) (w : s3.World) (s : Bucket) (done : Bool)
      → (s3.put k b w).0 ≡ done
      → contents w ≡ s
      → After
          (λ _ u. u ≡ assign k b s)
          (λ u. (u ≡ s) ⊎ (u ≡ assign k b s))
          (answered s3 done)
          (contents (s3.put k b w).1)
  put_object-answer k b w s true h e = laws.put-answers k b w h ∙ ap (assign k b) e
  put_object-answer k b w s false h e = elim (laws.put-fails k b w h) [
    | inl f ↦ inl (f ∙ e)
    | inr f ↦ inr (f ∙ ap (assign k b) e)
  ]

  pub put_object-Ends :
      (k b : Text) (w : s3.World) (s : Bucket)
      → contents w ≡ s
      → Ends (λ _ u. u ≡ assign k b s) (λ u. (u ≡ s) ⊎ (u ≡ assign k b s)) (put_object s3 k b w)
  unfolding put_object
  put_object-Ends k b w s e = record { holds = put_object-answer k b w s _ refl e }

  -- Some of the keys are gone, and no other.
  abbrev pub Part : List Text → Bucket → Bucket → Type 0
  Part keys s u =
      (gone : List Text) × ((k : Text) → mem k gone ≡ true → mem k keys ≡ true)
      × (u ≡ remove gone s)

  delete_batch-answer :
      (keys : List Text) (w : s3.World) (s : Bucket) (done : Bool)
      → (s3.delete_objects keys w).0 ≡ done
      → contents w ≡ s
      → After
          (λ _ u. u ≡ remove keys s)
          (Part keys s)
          (answered s3 done)
          (contents (s3.delete_objects keys w).1)
  delete_batch-answer keys w s true h e = laws.delete-answers keys w h ∙ ap (remove keys) e
  delete_batch-answer keys w s false h e =
      let (gone, sub, k) = laws.delete-fails keys w h in (gone, sub, k ∙ ap (remove gone) e)

  delete_batch-Ends :
      (keys : List Text) (w : s3.World) (s : Bucket)
      → contents w ≡ s
      → Ends (λ _ u. u ≡ remove keys s) (Part keys s) (delete_batch s3 keys w)
  unfolding delete_batch
  delete_batch-Ends keys w s e = record { holds = delete_batch-answer keys w s _ refl e }

  length-drop : (n : ℕ) (keys : List Text) → length (drop n keys) ≤ length keys
  length-drop zero keys = omega arith
  length-drop (suc n) [] = omega arith
  length-drop (suc n) (k ∷ keys) = omega (arith, length-drop n keys)

  Part-left : (a b : List Text) (s u : Bucket) → Part a s u → Part (a ++ b) s u
  Part-left a b s u (gone, sub, e) = (gone, (λ k h. mem-append k a b ∙ ground (arith, sub k h)), e)

  Part-right : (a b : List Text) (s u : Bucket) → Part b (remove a s) u → Part (a ++ b) s u
  Part-right a b s u (gone, sub, e) = (
    a ++ gone,
    (λ k h. mem-append k a b ∙ ground (arith, mem-append k a gone, h, sub k)),
    e ∙ remove-remove a gone s,
  )

  -- The keys of one batch, and those behind it.
  delete_two-Ends :
      (a b : List Text) (w : s3.World) (s : Bucket) (rest : M s3 (Unit {0}))
      → contents w ≡ s
      → ((v : s3.World)
          → contents v ≡ remove a s
          → Ends (λ _ u. u ≡ remove b (remove a s)) (Part b (remove a s)) (rest v))
      → Ends
          (λ _ u. u ≡ remove (a ++ b) s)
          (Part (a ++ b) s)
          (bind s3 (delete_batch s3 a) (λ _. rest) w)
  delete_two-Ends a b w s rest e next =
      Ends-bind _ _ _ (delete_batch-Ends a w s e) (Part-left a b s)
        (λ _ v f. Ends-mono (next v f) (Part-right a b s) (λ _ u g. g ∙ remove-remove a b s))

  delete_loop-Ends :
      (fuel : ℕ) (keys : List Text) (w : s3.World) (s : Bucket)
      → length keys ≤ fuel
      → contents w ≡ s
      → Ends (λ _ u. u ≡ remove keys s) (Part keys s) (delete_loop s3 fuel keys w)
  unfolding delete_loop
  delete_loop-Ends zero [] w s h e = record { holds = e ∙ sym (remove-nil s) }
  delete_loop-Ends zero (k ∷ keys) w s h e = absurd (omega (arith, h))
  delete_loop-Ends (suc fuel) [] w s h e = record { holds = e ∙ sym (remove-nil s) }
  delete_loop-Ends (suc fuel) (k ∷ keys) w s h e =
      subst (λ l. Ends (λ _ u. u ≡ remove l s) (Part l s) (delete_loop s3 (suc fuel) (k ∷ keys) w))
        (take-drop 1000 (k ∷ keys))
        (delete_two-Ends (take 1000 (k ∷ keys)) (drop 1000 (k ∷ keys)) w s
          (delete_loop s3 fuel (drop 1000 (k ∷ keys))) e
          (λ v f.
            delete_loop-Ends fuel (drop 1000 (k ∷ keys)) v (remove (take 1000 (k ∷ keys)) s)
              (omega (arith, h, length-drop 999 keys)) f))

  pub delete_keys-Ends :
      (keys : List Text) (w : s3.World) (s : Bucket)
      → contents w ≡ s
      → Ends (λ _ u. u ≡ remove keys s) (Part keys s) (delete_keys s3 keys w)
  unfolding delete_keys
  delete_keys-Ends keys w s e = delete_loop-Ends (length keys) keys w s (omega arith) e
