-- ===== src/Env.antt =====
-- src/private/env.ts: the names of the environment variables and the key prefix.
pub mod Vars
pub mod Strip
pub mod Prefix
pub mod Tests
use cdk_log_to_s.Prelude.{
  Text, codes, text_eq, if◌then◌else◌, [], ◌∷◌, ◌++◌, Bool, ℕ, ◌==◌, trim, drop_while,
  drop_while_end,
}
use cdk_log_to_s.Env.Strip.{slash, is_slash}

abbrev pub default_key_prefix : Text
default_key_prefix = codes "logs/"

-- `prefix.trim().replace(/^\/+/, "").replace(/\/+$/, "")`, the local `trimmed`.
unfoldable pub trimmed_prefix : Text → Text
trimmed_prefix prefix = drop_while_end is_slash (drop_while is_slash (trim prefix))

unfoldable pub normalize_prefix : Text → Text
normalize_prefix prefix =
    let trimmed = trimmed_prefix prefix in if text_eq trimmed [] then [] else trimmed ++ slash ∷ []
