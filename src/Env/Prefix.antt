-- ===== src/Env/Prefix.antt =====
-- `normalizePrefix` of src/private/env.ts: the form of its result, and when a second
-- normalisation, as `LogAnalytics.fromExtension` makes it, changes nothing.
use cdk_log_to_s.Prelude.{Text, ◌∷◌, ◌≡◌, ◌↔◌, false, refl, is_space, trim, ℕ}
use cdk_log_to_s.Env.Strip.{
  IsNormal, closed, closed-IsNormal, closed-kept_iff, slash, blanks, stripped,
}
use cdk_log_to_s.Env.{normalize_prefix, trimmed_prefix}

pub normalize_prefix-closed : (p : Text) → normalize_prefix p ≡ closed is_space p
unfolding normalize_prefix trimmed_prefix trim closed stripped blanks
normalize_prefix-closed p = refl

slash_visible : is_space slash ≡ false
unfolding is_space
slash_visible = refl

-- For every input the result is empty, or one slash behind a body that is not empty and neither
-- begins nor ends with a slash.
pub normalize_prefix-IsNormal : (p : Text) → IsNormal (normalize_prefix p)
normalize_prefix-IsNormal p =
    rw (normalize_prefix-closed p) (closed-IsNormal is_space slash_visible p)

-- A prefix that is already normal is kept by another normalisation exactly if it does not begin
-- with white space.
pub normalize_prefix-kept_iff :
    (q : Text)
    → IsNormal q
    → (normalize_prefix q ≡ q) ↔ ((c : ℕ) (s : Text) → q ≡ c ∷ s → is_space c ≡ false)
normalize_prefix-kept_iff q h =
    rw (normalize_prefix-closed q) (closed-kept_iff is_space slash_visible q h)
