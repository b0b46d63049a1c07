-- ===== src/Env/Tests.antt =====
-- Tests of Env, and its theorems at concrete inputs.
use mathlib.Core.Path.{subst}
use cdk_log_to_s.Prelude.{codes, text_eq, trim, is_space, ◌≡◌, ◌↔◌, refl, ℕ, Text, ◌∷◌, false}
use cdk_log_to_s.Env.{normalize_prefix, trimmed_prefix}
use cdk_log_to_s.Env.Strip.{IsNormal}
use cdk_log_to_s.Env.Prefix.{normalize_prefix-IsNormal, normalize_prefix-kept_iff}

slashes : normalize_prefix (codes "  //a/b// ") ≡ codes "a/b/"
unfolding normalize_prefix trimmed_prefix text_eq trim
slashes = refl

-- White space behind a slash survives the first normalisation and not the second.
inner_space :
    (normalize_prefix (codes "/ logs") ≡ codes " logs/")
    × (normalize_prefix (codes " logs/") ≡ codes "logs/")
unfolding normalize_prefix trimmed_prefix text_eq trim
inner_space = (refl, refl)

logs_runs : normalize_prefix (codes "logs") ≡ codes "logs/"
unfolding normalize_prefix trimmed_prefix text_eq trim
logs_runs = refl

pub logs-IsNormal : IsNormal (codes "logs/")
logs-IsNormal = subst IsNormal logs_runs (normalize_prefix-IsNormal (codes "logs"))

normalize_prefix-kept_iff_example :
    (normalize_prefix (codes "logs/") ≡ codes "logs/")
    ↔ ((c : ℕ) (s : Text) → codes "logs/" ≡ c ∷ s → is_space c ≡ false)
normalize_prefix-kept_iff_example = normalize_prefix-kept_iff (codes "logs/") logs-IsNormal

logs_kept : normalize_prefix (codes "logs/") ≡ codes "logs/"
unfolding normalize_prefix trimmed_prefix text_eq trim
logs_kept = refl

pub logs-no_space : (c : ℕ) (s : Text) → codes "logs/" ≡ c ∷ s → is_space c ≡ false
logs-no_space = (normalize_prefix-kept_iff (codes "logs/") logs-IsNormal).0 logs_kept
