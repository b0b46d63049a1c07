-- ===== src/Extension/Attach/Sequence.antt =====
-- Any sequence of calls of `attachTo` and `grantWriteLogs` on one extension, which keeps its set
-- of attached functions between them.
use cdk_log_to_s.Prelude.{
  String, Text, text_eq_iff, Bool, true, false, List, [], ◌∷◌, ◌++◌, Option, none, some, some_or,
  All, All-append, if◌then◌else◌, ◌or_else◌, eq_iff, lookup, HasUniqueKeys, ◌≡◌, ◌≢◌, ◌⊎◌, refl,
  arith, Bool-cases, inl, inr, ok, eq_refl, ◌∙◌,
}
use cdk_log_to_s.Aws.{Cdk, LambdaFunction}
use cdk_log_to_s.Env.Vars
use cdk_log_to_s.Extension.{
  LogToS3Extension, LogToS3AttachOptions, Wiring, Call, add_layers, add_environment, grant_put,
  environment_calls, level_calls, grant_calls, attach_calls, attach, grant_write_logs, LogLevel,
  has, below,
}
use cdk_log_to_s.Extension.Attach.{layers_added, variable, layers_added-append, variable-append}
use cdk_log_to_s.Extension.Attach.Laws.{has-concat, layers_added-attach_calls, attach-variable}

module _ (cdk : Cdk) (ext : LogToS3Extension cdk) where
  abbrev pub start : Wiring cdk
  start = record { attached = []; calls = [] }

  pub data Reach : Wiring cdk → Type 0 where
    begin : Reach start
    attached :
        (fn : LambdaFunction cdk) (options : LogToS3AttachOptions) (w w' : Wiring cdk)
        → Reach w
        → attach cdk ext fn options w ≡ ok w'
        → Reach w'
    granted :
        (grantee : Text) (w w' : Wiring cdk)
        → Reach w
        → grant_write_logs cdk ext grantee w ≡ w'
        → Reach w'

  layers_added-attach :
      (fn : LambdaFunction cdk) (options : LogToS3AttachOptions) (w w' : Wiring cdk) (p : Text)
      → layers_added p w.calls ≡ (if has w.attached p then 1 else 0)
      → attach cdk ext fn options w ≡ ok w'
      → layers_added p w'.calls ≡ (if has w'.attached p then 1 else 0)
  unfolding attach
  layers_added-attach fn options w w' p ih h = ground (
    arith,
    layers_added-append p w.calls (attach_calls cdk ext fn options),
    layers_added-attach_calls cdk ext p fn options,
    has-concat w.attached fn.path p,
    text_eq_iff p fn.path,
  )

  layers_added-grant :
      (grantee : Text) (w w' : Wiring cdk) (p : Text)
      → layers_added p w.calls ≡ (if has w.attached p then 1 else 0)
      → grant_write_logs cdk ext grantee w ≡ w'
      → layers_added p w'.calls ≡ (if has w'.attached p then 1 else 0)
  unfolding grant_write_logs layers_added
  layers_added-grant grantee w w' p ih h = rw (← h) (
      omega (
        arith,
        ih,
        layers_added-append p w.calls
            (grant_put ext.logs_bucket grantee (below ext.key_prefix) ∷ []),
      ))

  -- After any sequence of attachments and grants each function in the set of attached ones has
  -- been given the layer once, and every other function not at all.
  pub Reach-layers_added :
      (w : Wiring cdk)
      → Reach w
      → (p : Text) → layers_added p w.calls ≡ (if has w.attached p then 1 else 0)
  Reach-layers_added _ begin p = unfold layers_added has in refl
  Reach-layers_added w' (attached fn options w _ r h) p =
      layers_added-attach fn options w w' p (Reach-layers_added w r p) h
  Reach-layers_added w' (granted grantee w _ r h) p =
      layers_added-grant grantee w w' p (Reach-layers_added w r p) h

  variable-attach :
      (fn : LambdaFunction cdk) (options : LogToS3AttachOptions) (w w' : Wiring cdk) (p : Text)
      (key : String)
      → HasUniqueKeys ext.environment
      → key ≢ Vars.level
      → variable p key w.calls ≡ (if has w.attached p then lookup key ext.environment else none)
      → attach cdk ext fn options w ≡ ok w'
      → variable p key w'.calls ≡ (if has w'.attached p then lookup key ext.environment else none)
  unfolding some_or attach
  variable-attach fn options w w' p key unique other ih h =
      elim (Bool-cases (has w.attached fn.path)) [
        | inl old ↦ ground (arith, h, ih, old)
        | inr first ↦ ground (
          arith,
          attach-variable cdk ext fn options w w' p key unique first h,
          has-concat w.attached fn.path p,
          text_eq_iff p fn.path,
          eq_iff Vars.level key,
        )
      ]

  variable-grant :
      (grantee : Text) (w w' : Wiring cdk) (p : Text) (key : String)
      → variable p key w.calls ≡ (if has w.attached p then lookup key ext.environment else none)
      → grant_write_logs cdk ext grantee w ≡ w'
      → variable p key w'.calls ≡ (if has w'.attached p then lookup key ext.environment else none)
  unfolding grant_write_logs variable some_or
  variable-grant grantee w w' p key ih h = rw (← h) (
      variable-append p key w.calls (grant_put ext.logs_bucket grantee (below ext.key_prefix) ∷ [])
      ∙ ih)

  -- If the environment has no key twice, then after any sequence of attachments and grants each
  -- attached function has the variables of the extension with their values, the level aside, and
  -- no other function has any.
  pub Reach-variable :
      (w : Wiring cdk)
      → HasUniqueKeys ext.environment
      → Reach w
      → (p : Text) (key : String) → key ≢ Vars.level
      → variable p key w.calls ≡ (if has w.attached p then lookup key ext.environment else none)
  Reach-variable _ unique begin p key other = unfold variable has in refl
  Reach-variable w' unique (attached fn options w _ r h) p key other =
      variable-attach fn options w w' p key unique other (Reach-variable w unique r p key other) h
  Reach-variable w' unique (granted grantee w _ r h) p key other =
      variable-grant grantee w w' p key (Reach-variable w unique r p key other) h

  -- A call that an extension may make: it adds its own layer, it sets an entry of its environment
  -- or a level, and it grants no more than writing to its bucket below its key prefix.
  abbrev pub IsOwn : Call cdk → Type 0
  IsOwn (add_layers path layer) = layer ≡ ext.layer
  IsOwn (add_environment path key value) =
      (lookup key ext.environment ≡ some value) ⊎ (key ≡ Vars.level)
  IsOwn (grant_put bucket grantee pattern) =
      (bucket ≡ ext.logs_bucket) × (pattern ≡ below ext.key_prefix)

  level_calls-IsOwn :
      (path : Text) (level : Option LogLevel) → All IsOwn (level_calls cdk path level)
  unfolding level_calls
  level_calls-IsOwn path none = tt
  level_calls-IsOwn path (some level) = (inr refl, tt)

  grant_calls-IsOwn : (path : Text) (b : Bool) → All IsOwn (grant_calls cdk ext path b)
  unfolding grant_calls
  grant_calls-IsOwn path true = ((refl, refl), tt)
  grant_calls-IsOwn path false = tt

  environment_calls-IsOwn :
      (path : Text) (env : List (String × Text))
      → ((key : String) (value : Text)
          → lookup key env ≡ some value
          → lookup key ext.environment ≡ some value)
      → HasUniqueKeys env
      → All IsOwn (environment_calls cdk path env)
  unfolding environment_calls lookup
  environment_calls-IsOwn path [] inside unique = tt
  environment_calls-IsOwn path ((k, v) ∷ env) inside unique = (
    inl (inside k v (rw eq_refl refl)),
    environment_calls-IsOwn path env
        (λ key value e. inside key value (ground (arith, eq_iff k key, unique.0, e))) unique.1,
  )

  attach_calls-IsOwn :
      (fn : LambdaFunction cdk) (options : LogToS3AttachOptions)
      → HasUniqueKeys ext.environment
      → All IsOwn (attach_calls cdk ext fn options)
  unfolding attach_calls
  attach_calls-IsOwn fn options unique =
      All-append IsOwn
        (add_layers fn.path ext.layer ∷ environment_calls cdk fn.path ext.environment
          ++ level_calls cdk fn.path options.log_level)
        _
        (All-append IsOwn
          (add_layers fn.path ext.layer ∷ environment_calls cdk fn.path ext.environment) _
          (refl, environment_calls-IsOwn fn.path ext.environment (λ key value e. e) unique)
          (level_calls-IsOwn fn.path options.log_level))
        (grant_calls-IsOwn fn.path (options.grant_write or_else true))

  attach-IsOwn :
      (fn : LambdaFunction cdk) (options : LogToS3AttachOptions) (w w' : Wiring cdk)
      → HasUniqueKeys ext.environment
      → All IsOwn w.calls
      → attach cdk ext fn options w ≡ ok w'
      → All IsOwn w'.calls
  unfolding attach
  attach-IsOwn fn options w w' unique ih h = elim (Bool-cases (has w.attached fn.path)) [
    | inl old ↦ let same : w'.calls ≡ w.calls = ground (arith, h, old) in rw same ih
    | inr first ↦
        let more : w'.calls ≡ w.calls ++ attach_calls cdk ext fn options =
          ground (arith, h, first) in
        rw more (All-append IsOwn w.calls _ ih (attach_calls-IsOwn fn options unique))
  ]

  grant_write_logs-IsOwn :
      (grantee : Text) (w : Wiring cdk)
      → All IsOwn w.calls
      → All IsOwn (grant_write_logs cdk ext grantee w).calls
  unfolding grant_write_logs
  grant_write_logs-IsOwn grantee w ih = All-append IsOwn w.calls _ ih ((refl, refl), tt)

  -- If the environment has no key twice, then after any sequence of attachments and grants every
  -- call made adds the layer of the extension, sets an entry of its environment or a level, or
  -- grants writing to its bucket below its key prefix.
  pub Reach-IsOwn : (w : Wiring cdk) → HasUniqueKeys ext.environment → Reach w → All IsOwn w.calls
  Reach-IsOwn _ unique begin = tt
  Reach-IsOwn w' unique (attached fn options w _ r h) =
      attach-IsOwn fn options w w' unique (Reach-IsOwn w unique r) h
  Reach-IsOwn w' unique (granted grantee w _ r h) =
      rw (← h) (grant_write_logs-IsOwn grantee w (Reach-IsOwn w unique r))
