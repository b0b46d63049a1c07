-- ===== src/Env/Strip.antt =====
-- White space, then slashes taken off both ends of a text, and one slash put behind what is left:
-- `normalizePrefix` of src/private/env.ts and `NormalizePrefix` of extension-go/internal/layout,
-- which differ in what counts as white space.
use cdk_log_to_s.Prelude.{
  ℕ, Bool, text_eq_iff, drop_while_end-kept, length-strip_both, ◌+◌, ◌≤◌, ◌≡◌, ◌≢◌, refl, ap, ◌∙◌,
  false, Text, [], ◌∷◌, ◌++◌, ◌⊎◌, inl, inr, arith, length, length-append, text_eq, drop_while,
  drop_while_end, ◌↔◌, Bool-cases, drop_while-head, length-drop_while, drop_while-cons_true,
  drop_while-cons_false, drop_while-concat_false, drop_while_end-concat_true,
  drop_while_end-concat_false, drop_while_end-last, drop_while_end-head, ==_refl, ◌==◌,
  if◌then◌else◌,
}

abbrev pub slash : ℕ
slash = b'/'

abbrev pub is_slash : ℕ → Bool
is_slash c = c == slash

-- Either empty, or a body that neither begins nor ends with a slash, and one slash.
abbrev pub IsNormal : Text → Type 0
IsNormal q =
    (q ≡ [])
    ⊎ ((body : Text) × (q ≡ body ++ slash ∷ [])
        × (body ≢ [])
        × ((s : Text) → body ≢ slash ∷ s)
        × ((s : Text) → body ≢ s ++ slash ∷ []))

Text-cases : (s : Text) → (s ≡ []) ⊎ ((c : ℕ) × (r : Text) × (s ≡ c ∷ r))
Text-cases [] = inl refl
Text-cases (c ∷ r) = inr (c, r, refl)

module _ (space : ℕ → Bool) where
  unfoldable pub blanks : Text → Text
  blanks p = drop_while_end space (drop_while space p)

  unfoldable pub stripped : Text → Text
  unfolding blanks
  stripped p = drop_while_end is_slash (drop_while is_slash (blanks p))

  unfoldable pub closed : Text → Text
  unfolding stripped
  closed p = let body = stripped p in if text_eq body [] then [] else body ++ slash ∷ []

module _ (space : ℕ → Bool) (visible : space slash ≡ false) where
  stripped-no_leading : (p s : Text) → stripped space p ≢ slash ∷ s
  unfolding stripped drop_while_end
  stripped-no_leading p s h = elim (Text-cases (drop_while is_slash (blanks space p))) [
    | inl e ↦ cc (ap (drop_while_end is_slash) e)
    | inr (c, r, e) ↦ cc (
      drop_while_end-head is_slash _ e h,
      drop_while-head is_slash (blanks space p) c r e,
      ==_refl slash,
    )
  ]

  stripped-no_trailing : (p s : Text) → stripped space p ≢ s ++ slash ∷ []
  unfolding stripped
  stripped-no_trailing p s h = cc (drop_while_end-last is_slash _ s slash h, ==_refl slash)

  closed-nil : (p : Text) → stripped space p ≡ [] → closed space p ≡ []
  unfolding closed text_eq
  closed-nil p h = rw h

  closed-cons : (p : Text) → stripped space p ≢ [] → closed space p ≡ stripped space p ++ slash ∷ []
  unfolding closed
  closed-cons p h = ground (arith, text_eq_iff (stripped space p) [])

  -- For every input the result is empty, or one slash behind a body that is not empty and neither
  -- begins nor ends with a slash.
  pub closed-IsNormal : (p : Text) → IsNormal (closed space p)
  closed-IsNormal p = elim (Bool-cases (text_eq (stripped space p) [])) [
    | inl e ↦ inl (closed-nil p ((text_eq_iff _ _).0 e))
    | inr e ↦
        let some_left : stripped space p ≢ [] = λ h. cc (e, (text_eq_iff _ _).1 h) in
        inr (
          stripped space p,
          closed-cons p some_left,
          some_left,
          stripped-no_leading p,
          stripped-no_trailing p,
        )
  ]

  -- White space before a path, where a closing slash follows: `trim` drops it from the front only.
  blanks-closed : (t : Text) → blanks space (t ++ slash ∷ []) ≡ drop_while space t ++ slash ∷ []
  unfolding blanks
  blanks-closed t =
      rw (drop_while-concat_false space t slash visible)
        (drop_while_end-concat_false space _ slash visible)

  stripped-closed :
      (t : Text) (c : ℕ) (r : Text)
      → drop_while space t ≡ c ∷ r
      → is_slash c ≡ false
      → stripped space (t ++ slash ∷ []) ≡ drop_while_end is_slash (c ∷ r)
  unfolding stripped
  stripped-closed t c r e h =
      rw (blanks-closed t, e, drop_while-cons_false is_slash c (r ++ slash ∷ []) h)
        (drop_while_end-concat_true is_slash (c ∷ r) slash (==_refl slash))

  length-stripped :
      (t : Text) → length (stripped space (t ++ slash ∷ [])) ≤ length (drop_while space t)
  unfolding stripped
  length-stripped t =
      rw blanks-closed (length-strip_both is_slash (drop_while space t) slash (==_refl slash))

  length-closed : (p : Text) → length (closed space p) ≤ length (stripped space p) + 1
  unfolding closed
  length-closed p = ground (arith, length-append {0} (stripped space p) (slash ∷ []))

  -- White space in front is lost for good.
  kept-no_space :
      (c : ℕ) (r : Text)
      → closed space ((c ∷ r) ++ slash ∷ []) ≡ (c ∷ r) ++ slash ∷ []
      → space c ≡ false
  kept-no_space c r kept = elim (Bool-cases (space c)) [
    | inl t ↦ absurd (
        omega (
          arith,
          ap length kept,
          length-closed (c ∷ r ++ slash ∷ []),
          length-stripped (c ∷ r),
          ap length (drop_while-cons_true space c r t),
          length-drop_while space r,
          length-append {0} r (slash ∷ []),
        ))
    | inr f ↦ f
  ]

  not_slash : (c : ℕ) → c ≢ slash → is_slash c ≡ false
  not_slash c h = ground arith

  no_space-kept :
      (c : ℕ) (r : Text)
      → space c ≡ false
      → ((s : Text) → c ∷ r ≢ slash ∷ s)
      → ((s : Text) → c ∷ r ≢ s ++ slash ∷ [])
      → closed space ((c ∷ r) ++ slash ∷ []) ≡ (c ∷ r) ++ slash ∷ []
  no_space-kept c r f leading trailing =
      let whole : stripped space ((c ∷ r) ++ slash ∷ []) ≡ c ∷ r =
        stripped-closed (c ∷ r) c r (drop_while-cons_false space c r f)
          (not_slash c (λ e. leading r (ap (λ x. x ∷ r) e)))
        ∙ drop_while_end-kept is_slash (c ∷ r)
            (λ s d e. not_slash d (λ k. trailing s (e ∙ ap (λ x. s ++ x ∷ []) k))) in
      closed-cons ((c ∷ r) ++ slash ∷ []) (λ e. cc (whole, e)) ∙ ap (λ t. t ++ slash ∷ []) whole

  -- A prefix that is already normal is kept by another normalisation exactly if it does not begin
  -- with white space.
  pub closed-kept_iff :
      (q : Text)
      → IsNormal q
      → (closed space q ≡ q) ↔ ((c : ℕ) (s : Text) → q ≡ c ∷ s → space c ≡ false)
  closed-kept_iff q (inl e) = (
    λ kept c s k. cc (e, k),
    λ _. rw e (closed-nil [] (unfold stripped blanks drop_while drop_while_end in refl)),
  )
  closed-kept_iff q (inr ([], e, ne, leading, trailing)) = absurd (ne refl)
  closed-kept_iff q (inr (c ∷ r, e, ne, leading, trailing)) = (
    λ kept d s k. cc (kept-no_space c r (rw (← e) kept), e, k),
    λ h. rw e (no_space-kept c r (h c (r ++ slash ∷ []) e) leading trailing),
  )
