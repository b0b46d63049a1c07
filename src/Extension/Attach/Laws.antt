-- ===== src/Extension/Attach/Laws.antt =====
-- What one call of `attach` does to a function, and what it leaves alone.
use mathlib.Core.Option
use cdk_log_to_s.Prelude.{
  String, Text, text_eq, text_eq_iff, Bool, true, false, List, [], ◌∷◌, ◌++◌, Option, none, some,
  some_or, if◌then◌else◌, ◌||◌, str_eq, lookup, HasUniqueKeys, ◌≡◌, ◌↔◌, refl, arith, ok,
}
use cdk_log_to_s.Aws.{Cdk, LambdaFunction}
use cdk_log_to_s.Env.Vars
use cdk_log_to_s.Extension.{
  LogToS3Extension, LogToS3AttachOptions, Wiring, level_calls, grant_calls, attach_calls, attach,
  LogLevel, level_text, has,
}
use cdk_log_to_s.Extension.Attach.{
  layers_added, variable, layers_added-append, variable-append, layers_added-environment,
  variable-environment,
}

pub has-concat : (xs : List Text) (x p : Text) → has (xs ++ x ∷ []) p ≡ (has xs p || text_eq p x)
unfolding has
has-concat [] x p = ground arith
has-concat (y ∷ xs) x p = ground (arith, has-concat xs x p)

pub text_eq_refl : (s : Text) → text_eq s s ≡ true
text_eq_refl s = (text_eq_iff s s).1 refl

module _ (cdk : Cdk) (ext : LogToS3Extension cdk) where
  layers_added-level :
      (p path : Text) (level : Option LogLevel) → layers_added p (level_calls cdk path level) ≡ 0
  unfolding layers_added level_calls
  layers_added-level p path none = refl
  layers_added-level p path (some level) = refl

  layers_added-grant : (p path : Text) (b : Bool) → layers_added p (grant_calls cdk ext path b) ≡ 0
  unfolding layers_added grant_calls
  layers_added-grant p path true = refl
  layers_added-grant p path false = refl

  pub layers_added-attach_calls :
      (p : Text) (fn : LambdaFunction cdk) (options : LogToS3AttachOptions)
      → layers_added p (attach_calls cdk ext fn options) ≡ (if text_eq p fn.path then 1 else 0)
  unfolding attach_calls layers_added
  layers_added-attach_calls p fn options =
      simp (layers_added-append, layers_added-environment, layers_added-level, layers_added-grant)
        (ground arith)

  variable-grant :
      (p path : Text) (key : String) (b : Bool) → variable p key (grant_calls cdk ext path b) ≡ none
  unfolding variable grant_calls
  variable-grant p path key true = refl
  variable-grant p path key false = refl

  -- The value for a variable of an attached function: the override for the level, or the entry.
  abbrev pub configured : LogToS3AttachOptions → String → Option Text
  configured options key =
      some_or (if str_eq Vars.level key then Option.map level_text options.log_level else none)
        (lookup key ext.environment)

  variable-level :
      (p path : Text) (key : String) (level : Option LogLevel)
      → variable p key (level_calls cdk path level) ≡ (
          if text_eq p path
          then (if str_eq Vars.level key then Option.map level_text level else none)
          else none)
  unfolding variable level_calls some_or
  variable-level p path key none = ground arith
  variable-level p path key (some level) = ground arith

  variable-attach_calls :
      (p : Text) (key : String) (fn : LambdaFunction cdk) (options : LogToS3AttachOptions)
      → HasUniqueKeys ext.environment
      → variable p key (attach_calls cdk ext fn options)
        ≡ (if text_eq p fn.path then configured options key else none)
  unfolding attach_calls variable some_or
  variable-attach_calls p key fn options unique =
      simp (variable-append, variable-level, variable-grant)
        (ground (arith, variable-environment cdk p fn.path key ext.environment unique))

  -- An attachment succeeds exactly if the function and the extension have architectures of the
  -- same name.
  pub attach-ok_iff :
      (fn : LambdaFunction cdk) (options : LogToS3AttachOptions) (w : Wiring cdk)
      → ((w' : Wiring cdk) × (attach cdk ext fn options w ≡ ok w'))
        ↔ (cdk.architecture_name fn.architecture ≡ cdk.architecture_name ext.architecture)
  unfolding attach
  attach-ok_iff fn options w =
      let same =
        text_eq_iff (cdk.architecture_name fn.architecture)
          (cdk.architecture_name ext.architecture) in
      (
        λ h. ground (arith, h.1, same),
        λ e. (
          if has w.attached fn.path then w else record {
            attached = w.attached ++ fn.path ∷ [];
            calls = w.calls ++ attach_calls cdk ext fn options;
          },
          ground (arith, e, same),
        ),
      )

  -- After an attachment that succeeded, another one of the same function, with any options,
  -- succeeds and changes nothing.
  pub attach_again :
      (fn : LambdaFunction cdk) (options again : LogToS3AttachOptions) (w w' : Wiring cdk)
      → attach cdk ext fn options w ≡ ok w'
      → attach cdk ext fn again w' ≡ ok w'
  unfolding attach
  attach_again fn options again w w' h =
      ground (arith, has-concat w.attached fn.path fn.path, text_eq_refl fn.path)

  -- A first attachment, where the environment has no key twice, sets each variable of the function
  -- to the override of the level or to the entry of the environment; a variable that neither has,
  -- and every variable of any other function, keeps what it had.
  pub attach-variable :
      (fn : LambdaFunction cdk) (options : LogToS3AttachOptions) (w w' : Wiring cdk) (p : Text)
      (key : String)
      → HasUniqueKeys ext.environment
      → has w.attached fn.path ≡ false
      → attach cdk ext fn options w ≡ ok w'
      → variable p key w'.calls ≡ (
          if text_eq p fn.path
          then some_or (configured options key) (variable p key w.calls)
          else variable p key w.calls)
  unfolding attach some_or
  attach-variable fn options w w' p key unique first h = ground (
    arith,
    variable-append p key w.calls (attach_calls cdk ext fn options),
    variable-attach_calls p key fn options unique,
  )
