-- ===== src/Logger/Level.antt =====
-- The levels of packages/logger/src/types.ts, and `defaultLevel` of packages/logger/src/logger.ts.
use cdk_log_to_s.Prelude.{
  ℕ, Text, codes, text_eq, to_upper_case, Option, none, some, ◌or_else◌, if◌then◌else◌,
}

pub data LogLevelName : Type 0 where
  debug info warn error : LogLevelName

-- The string that a level is.
unfoldable pub name_text : LogLevelName → Text
name_text debug = codes "DEBUG"
name_text info = codes "INFO"
name_text warn = codes "WARN"
name_text error = codes "ERROR"

unfoldable pub level_order : LogLevelName → ℕ
level_order debug = 0
level_order info = 1
level_order warn = 2
level_order error = 3

-- The variables of `process.env` that the logger reads.
pub record Process : Type 0 where
  pub log_to_s3_level : Option Text
  pub log_level : Option Text

-- `raw in LEVEL_ORDER ? raw : 'INFO'`.
unfoldable pub level_or_info : Text → LogLevelName
level_or_info raw =
    if text_eq raw (codes "DEBUG")
    then debug
    else if text_eq raw (codes "INFO")
    then info
    else if text_eq raw (codes "WARN")
    then warn
    else if text_eq raw (codes "ERROR")
    then error
    else info

first_of : Option Text → Option Text → Option Text
first_of none b = b
first_of (some a) b = some a

unfoldable pub default_level : Process → LogLevelName
unfolding first_of
default_level process =
    level_or_info
      (to_upper_case (first_of process.log_to_s3_level process.log_level or_else codes "INFO"))
