-- ===== src/Layout/Agreement.antt =====
-- `NormalizePrefix` of extension-go/internal/layout beside `normalizePrefix` of src/private/env.ts.
use cdk_log_to_s.Prelude.{
  ℕ, Text, [], ◌∷◌, ◌≡◌, ◌≢◌, ◌↔◌, refl, false, sym, ◌∙◌, All, Bool, true, drop_while,
  drop_while_end, arith, trim, Bool-cases, inl, inr, ap, ap₂, if◌then◌else◌,
}
use cdk_log_to_s.Prelude as JavaScript
use cdk_log_to_s.Go.Strings.{is_space, trim_space, trim_left, trim_right}
use cdk_log_to_s.Env.Strip.{IsNormal, closed, closed-kept_iff, slash, blanks, stripped}
use cdk_log_to_s.Env
use cdk_log_to_s.Env.Prefix as TypeScript
use cdk_log_to_s.Layout.{normalize_prefix}

normalize_prefix-closed : (p : Text) → normalize_prefix p ≡ closed is_space p
unfolding normalize_prefix trim_space trim_left trim_right closed stripped blanks
normalize_prefix-closed p = refl

slash_visible : is_space slash ≡ false
unfolding is_space
slash_visible = refl

pub normalize_prefix-kept_iff :
    (q : Text)
    → IsNormal q
    → (normalize_prefix q ≡ q) ↔ ((c : ℕ) (s : Text) → q ≡ c ∷ s → is_space c ≡ false)
normalize_prefix-kept_iff q h =
    rw (normalize_prefix-closed q) (closed-kept_iff is_space slash_visible q h)

-- The two units that one of the two languages takes for white space.
abbrev pub IsShared : ℕ → Type 0
IsShared c = (c ≢ 0x85) × (c ≢ 0xfeff)

same_space : (c : ℕ) → IsShared c → JavaScript.is_space c ≡ is_space c
unfolding is_space JavaScript.is_space
same_space c h = ground arith

module _ (f g : ℕ → Bool) where
  drop_while-agree : (s : Text) → All (λ c. f c ≡ g c) s → drop_while f s ≡ drop_while g s
  unfolding drop_while
  drop_while-agree [] h = refl
  drop_while-agree (c ∷ s) h = rw (h.0, drop_while-agree s h.1)

  drop_while_end-agree :
      (s : Text) → All (λ c. f c ≡ g c) s → drop_while_end f s ≡ drop_while_end g s
  unfolding drop_while_end
  drop_while_end-agree [] h = refl
  drop_while_end-agree (c ∷ s) h =
      ap₂
        (λ (b : Bool) (r : Text). elim r as (λ _. Text) [
          | [] ↦ if b then [] else c ∷ []
          | d ∷ q ↦ c ∷ d ∷ q
        ])
        h.0 (drop_while_end-agree s h.1)

module _ (P : ℕ → Type 0) (f : ℕ → Bool) where
  All-drop_while : (s : Text) → All P s → All P (drop_while f s)
  unfolding drop_while
  All-drop_while [] h = tt
  All-drop_while (c ∷ s) h = elim (Bool-cases (f c)) [
    | inl t ↦ rw t (All-drop_while s h.1)
    | inr n ↦ rw n h
  ]

module _ {P Q : ℕ → Type 0} (f : (c : ℕ) → P c → Q c) where
  All-map : (s : Text) → All P s → All Q s
  All-map [] h = tt
  All-map (c ∷ s) h = (f c h.0, All-map s h.1)

blanks-agree : (p : Text) → All IsShared p → blanks JavaScript.is_space p ≡ blanks is_space p
unfolding blanks
blanks-agree p h =
    let same = All-map same_space p h in
    ap (drop_while_end JavaScript.is_space) (drop_while-agree JavaScript.is_space is_space p same)
    ∙ drop_while_end-agree JavaScript.is_space is_space (drop_while is_space p)
        (All-drop_while _ is_space p same)

closed-agree : (p : Text) → All IsShared p → closed JavaScript.is_space p ≡ closed is_space p
unfolding closed stripped
closed-agree p h = rw (blanks-agree p h)

-- For a prefix that has neither U+0085 nor U+FEFF the two functions that must stay identical,
-- `normalizePrefix` of the constructs and `NormalizePrefix` of the Go code, have the same result.
pub normalize_prefix-agree :
    (p : Text) → All IsShared p → Env.normalize_prefix p ≡ normalize_prefix p
normalize_prefix-agree p h =
    TypeScript.normalize_prefix-closed p ∙ closed-agree p h ∙ sym (normalize_prefix-closed p)
