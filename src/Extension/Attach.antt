-- ===== src/Extension/Attach.antt =====
-- `attach` of src/log-to-s3-extension.ts as seen from the functions of an app: the layers and the
-- environment that a list of calls leaves on each.
pub mod Laws
pub mod Sequence
use cdk_log_to_s.Prelude.{
  ℕ, zero, suc, ◌+◌, String, Text, text_eq, text_eq_iff, Bool, true, false, List, [], ◌∷◌, ◌++◌,
  Option, none, some, some_or, if◌then◌else◌, ◌&&◌, ◌||◌, str_eq, eq_iff, eq_refl, lookup,
  HasUniqueKeys, ◌≡◌, refl, arith, any, ◌≢◌, Bool-cases, inl, inr,
}
use cdk_log_to_s.Aws.{Cdk}
use cdk_log_to_s.Env.Vars
use cdk_log_to_s.Extension.{
  Call, add_layers, add_environment, grant_put, environment_calls, level_calls, LogLevel,
  level_text, has,
}

module _ {cdk : Cdk} where
  -- How many layers the calls add to the function at a path.
  unfoldable pub layers_added : Text → List (Call cdk) → ℕ
  layers_added path [] = 0
  layers_added path (add_layers q layer ∷ calls) =
      let rest = layers_added path calls in if text_eq path q then suc rest else rest
  layers_added path (_ ∷ calls) = layers_added path calls

  -- The value of a variable of the function at a path: the last one that is set.
  unfoldable pub variable : Text → String → List (Call cdk) → Option Text
  variable path key [] = none
  variable path key (add_environment q k value ∷ calls) =
      some_or (variable path key calls)
        (if text_eq path q && str_eq k key then some value else none)
  variable path key (_ ∷ calls) = variable path key calls

  pub layers_added-append :
      (path : Text) (c d : List (Call cdk))
      → layers_added path (c ++ d) ≡ layers_added path c + layers_added path d
  unfolding layers_added
  layers_added-append path [] d = omega arith
  layers_added-append path (add_layers q l ∷ c) d = ground (arith, layers_added-append path c d)
  layers_added-append path (_ ∷ c) d = layers_added-append path c d

  pub variable-append :
      (path : Text) (key : String) (c d : List (Call cdk))
      → variable path key (c ++ d) ≡ some_or (variable path key d) (variable path key c)
  unfolding variable some_or
  variable-append path key [] d = ground arith
  variable-append path key (add_environment q k v ∷ c) d =
      ground (arith, variable-append path key c d)
  variable-append path key (_ ∷ c) d = variable-append path key c d

module _ (cdk : Cdk) where
  pub layers_added-environment :
      (p path : Text) (env : List (String × Text))
      → layers_added {cdk = cdk} p (environment_calls cdk path env) ≡ 0
  unfolding layers_added environment_calls
  layers_added-environment p path [] = refl
  layers_added-environment p path ((k, v) ∷ env) = layers_added-environment p path env

  -- What the loop over `Object.entries` sets: the entries, on this function alone.
  pub variable-environment :
      (p path : Text) (key : String) (env : List (String × Text))
      → HasUniqueKeys env
      → variable {cdk = cdk} p key (environment_calls cdk path env)
        ≡ (if text_eq p path then lookup key env else none)
  unfolding variable environment_calls some_or lookup
  variable-environment p path key [] h = ground arith
  variable-environment p path key ((k, v) ∷ env) h =
      ground (arith, variable-environment p path key env h.1, eq_iff k key)
