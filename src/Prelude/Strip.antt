-- ===== src/Prelude/Strip.antt =====
-- What stripping the ends of a text leaves.
use Prim.Native.Nat.{ℕ, ◌≤◌}
use mathlib.Core.Path.{◌≡◌, refl, sym, ap, ◌∙◌}
use mathlib.Core.Logic.{inl, inr}
use mathlib.Core.Bool.{Bool, true, false}
use mathlib.Core.List.{[], ◌∷◌, ◌++◌}
use native.Mathlib.Omega.{arith}
use cdk_log_to_s.Prelude.Tests.{Bool-cases}
use cdk_log_to_s.Prelude.Lists.{length, length-append}
use cdk_log_to_s.Prelude.Strings.{Text, drop_while, drop_while_end}

module _ (p : ℕ → Bool) where
  pub drop_while-head : (s : Text) (c : ℕ) (r : Text) → drop_while p s ≡ c ∷ r → p c ≡ false
  unfolding drop_while
  drop_while-head [] c r h = cc
  drop_while-head (d ∷ s) c r h = ground (arith, drop_while-head s c r)

  pub length-drop_while : (s : Text) → length (drop_while p s) ≤ length s
  unfolding drop_while
  length-drop_while [] = omega arith
  length-drop_while (d ∷ s) = ground (arith, length-drop_while s)

  -- A unit that passes, put at the front, is dropped; one that fails stops the loop.
  pub drop_while-cons_true : (c : ℕ) (s : Text) → p c ≡ true → drop_while p (c ∷ s) ≡ drop_while p s
  unfolding drop_while
  drop_while-cons_true c s h = rw h

  pub drop_while-cons_false : (c : ℕ) (s : Text) → p c ≡ false → drop_while p (c ∷ s) ≡ c ∷ s
  unfolding drop_while
  drop_while-cons_false c s h = rw h

  pub drop_while-concat_false :
      (s : Text) (c : ℕ) → p c ≡ false → drop_while p (s ++ c ∷ []) ≡ drop_while p s ++ c ∷ []
  unfolding drop_while
  drop_while-concat_false [] c h = rw h
  drop_while-concat_false (d ∷ s) c h = elim (Bool-cases (p d)) [
    | inl t ↦ rw t (drop_while-concat_false s c h)
    | inr f ↦ rw f
  ]

  pub length-drop_while_end : (s : Text) → length (drop_while_end p s) ≤ length s
  unfolding drop_while_end
  length-drop_while_end [] = omega arith
  length-drop_while_end (d ∷ s) = ground (arith, length-drop_while_end s)

  pub drop_while_end-concat_true :
      (s : Text) (c : ℕ) → p c ≡ true → drop_while_end p (s ++ c ∷ []) ≡ drop_while_end p s
  unfolding drop_while_end
  drop_while_end-concat_true [] c h = rw h
  drop_while_end-concat_true (d ∷ s) c h = rw (drop_while_end-concat_true s c h, drop_while_end)

  pub drop_while_end-concat_false :
      (s : Text) (c : ℕ) → p c ≡ false → drop_while_end p (s ++ c ∷ []) ≡ s ++ c ∷ []
  unfolding drop_while_end
  drop_while_end-concat_false [] c h = rw h
  drop_while_end-concat_false (d ∷ []) c h = rw (h, drop_while_end)
  drop_while_end-concat_false (d ∷ e ∷ s) c h =
      rw (drop_while_end-concat_false (e ∷ s) c h, drop_while_end)

  drop_while_end_idem : (s : Text) → drop_while_end p (drop_while_end p s) ≡ drop_while_end p s
  unfolding drop_while_end
  drop_while_end_idem [] = refl
  drop_while_end_idem (d ∷ s) = ground (arith, drop_while_end_idem s)

  -- What is left ends in a unit that fails, and begins as before.
  pub drop_while_end-last : (s r : Text) (c : ℕ) → drop_while_end p s ≡ r ++ c ∷ [] → p c ≡ false
  drop_while_end-last s r c h = elim (Bool-cases (p c)) [
    | inl t ↦
        let again : drop_while_end p (r ++ c ∷ []) ≡ r ++ c ∷ [] =
          rw (← h) (drop_while_end_idem s) in
        let shorter : length (drop_while_end p r) ≡ length (r ++ c ∷ []) =
          ap length (sym (drop_while_end-concat_true r c t) ∙ again) in
        absurd (omega (arith, shorter, length-append {0} r (c ∷ []), length-drop_while_end r))
    | inr f ↦ f
  ]

  pub drop_while_end-head :
      (s : Text) {c d : ℕ} {r t : Text} → s ≡ c ∷ r → drop_while_end p s ≡ d ∷ t → d ≡ c
  unfolding drop_while_end
  drop_while_end-head [] h k = cc
  drop_while_end-head (e ∷ s) h k = ground arith

  -- A text whose last unit fails is left alone.
  pub drop_while_end-kept :
      (s : Text) → ((r : Text) (c : ℕ) → s ≡ r ++ c ∷ [] → p c ≡ false) → drop_while_end p s ≡ s
  unfolding drop_while_end
  drop_while_end-kept [] h = refl
  drop_while_end-kept (d ∷ []) h = rw (h [] d refl)
  drop_while_end-kept (d ∷ e ∷ s) h =
      rw (drop_while_end-kept (e ∷ s) (λ r c k. h (d ∷ r) c (ap (◌∷◌ d) k)), drop_while_end)

  -- Stripping both ends of a text that ends in a unit that passes loses at least that unit.
  pub length-strip_both :
      (s : Text) (c : ℕ)
      → p c ≡ true
      → length (drop_while_end p (drop_while p (s ++ c ∷ []))) ≤ length s
  unfolding drop_while
  length-strip_both [] c h = rw h (omega (arith, length-drop_while_end []))
  length-strip_both (d ∷ s) c h = elim (Bool-cases (p d)) [
    | inl t ↦ rw t (omega (arith, length-strip_both s c h))
    | inr f ↦ rw (f, drop_while_end-concat_true (d ∷ s) c h) (length-drop_while_end (d ∷ s))
  ]
