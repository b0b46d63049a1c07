-- ===== src/Logger/Contract.antt =====
-- The level that an extension hands to a function and the level that the logger in the function
-- takes: `attachTo` writes `LOG_TO_S3_LEVEL`, and `defaultLevel` reads it.
use mathlib.Core.Option
use cdk_log_to_s.Prelude.{
  Text, text_eq, to_upper_case, Option, none, some, some_or, ◌or_else◌, ok, false, ◌≡◌, refl,
}
use cdk_log_to_s.Aws.{Cdk, Lawful, LambdaFunction}
use cdk_log_to_s.Env.Vars
use cdk_log_to_s.Assets.{Machine}
use cdk_log_to_s.Extension.{
  LogLevel, level_text, LogToS3ExtensionProps, LogToS3Extension, LogToS3AttachOptions, Wiring,
  attach, has,
}
use cdk_log_to_s.Extension.Attach.{variable}
use cdk_log_to_s.Extension.Attach.Laws.{attach-variable, text_eq_refl}
use cdk_log_to_s.Extension.Construct.{new_extension}
use cdk_log_to_s.Extension.Construct.Laws.{new_extension-IsConsistent, new_extension-level}
use cdk_log_to_s.Logger.Level.{LogLevelName, debug, info, warn, error, level_or_info, default_level}

-- The level of the logger by the same name.
abbrev pub named : LogLevel → LogLevelName
named LogLevel.debug = debug
named LogLevel.info = info
named LogLevel.warn = warn
named LogLevel.error = error

default_level-level_text :
    (level : LogLevel) (other : Option Text)
    → default_level (record { log_to_s3_level = some (level_text level); log_level = other })
      ≡ named level
unfolding default_level level_or_info level_text text_eq to_upper_case
default_level-level_text LogLevel.debug other = refl
default_level-level_text LogLevel.info other = refl
default_level-level_text LogLevel.warn other = refl
default_level-level_text LogLevel.error other = refl

override_or_default :
    (override : Option LogLevel) (default : LogLevel) (before : Option Text)
    → some_or (some_or (Option.map level_text override) (some (level_text default))) before
      ≡ some (level_text (override or_else default))
unfolding some_or
override_or_default none default before = refl
override_or_default (some level) default before = refl

module _ (cdk : Cdk) (laws : Lawful cdk) (machine : Machine) where
  -- For durations that obey their laws: after a first attachment of a function to an extension
  -- that the constructor returned, the logger in the function takes as its default level the one
  -- that the attachment overrides, or that of the extension, or `INFO`, whatever `LOG_LEVEL` is.
  pub attach-default_level :
      (props : LogToS3ExtensionProps cdk) (ext : LogToS3Extension cdk) (fn : LambdaFunction cdk)
      (options : LogToS3AttachOptions) (w w' : Wiring cdk) (other : Option Text)
      → new_extension cdk machine props ≡ ok ext
      → has w.attached fn.path ≡ false
      → attach cdk ext fn options w ≡ ok w'
      → default_level
          (record { log_to_s3_level = variable fn.path Vars.level w'.calls; log_level = other })
        ≡ named (options.log_level or_else (props.log_level or_else LogLevel.info))
  attach-default_level props ext fn options w w' other made first h =
      let unique = (new_extension-IsConsistent cdk laws machine props ext made).unique in
      let set = attach-variable cdk ext fn options w w' fn.path Vars.level unique first h in
      rw
        (
          set,
          text_eq_refl fn.path,
          new_extension-level cdk laws machine props ext made,
          override_or_default options.log_level (props.log_level or_else LogLevel.info)
              (variable fn.path Vars.level w.calls),
        )
        (default_level-level_text
          (options.log_level or_else (props.log_level or_else LogLevel.info)) other)
