-- ===== src/Extension/Environment/Laws.antt =====
-- The contents of the environment that `buildEnvironment` returns, and when it throws.
use mathlib.Core.Option
use mathlib.Core.Path.{subst}
use cdk_log_to_s.Prelude.{
  ℕ, suc, ◌-◌, ◌*◌, ◌/◌, String, Text, number_text, bool_text, List, Option, none, some, lookup,
  lookup-assign_some, some_or-none, assign_some-HasUniqueKeys, HasUniqueKeys, ok, ◌≡◌, ◌↔◌, arith,
  inl, inr, Result-cases, ok-injective, refl, >>=-eq-ok,
}
use cdk_log_to_s.Aws.{Cdk, Lawful}
use cdk_log_to_s.Env.Vars
use cdk_log_to_s.Extension.{level_text, compression_text}
use cdk_log_to_s.Extension.Environment.{
  EnvironmentOptions, environment_entries, flush_seconds, build_environment,
}

module _ (cdk : Cdk) (laws : Lawful cdk) where
  -- The interval in whole seconds, as the Go extension reads it.
  abbrev pub seconds_of : cdk.Duration → Text
  seconds_of d = number_text (cdk.to_milliseconds d / 1000)

  flush_seconds-ok :
      (interval : Option cdk.Duration) (s : Option Text)
      → flush_seconds cdk interval ≡ ok s
      → s ≡ Option.map seconds_of interval
  unfolding flush_seconds
  flush_seconds-ok none s h = ground arith
  flush_seconds-ok (some d) s h = elim (Result-cases (cdk.to_seconds d)) [
    | inl (n, e) ↦ ground (arith, laws.seconds_whole d n e)
    | inr (m, e) ↦ ground arith
  ]

  -- What the environment holds at each of its variables, and that no variable is there twice.
  pub record Holds (o : EnvironmentOptions cdk) (env : List (String × Text)) : Type 0 where
    pub bucket : lookup Vars.bucket env ≡ some o.bucket_name
    pub prefix : lookup Vars.prefix env ≡ some o.key_prefix
    pub level : lookup Vars.level env ≡ some (level_text o.log_level)
    pub compression : lookup Vars.compression env ≡ some (compression_text o.compression)
    pub port : lookup Vars.telemetry_port env ≡ Option.map number_text o.telemetry_port
    pub flush : lookup Vars.flush_interval_seconds env ≡ Option.map seconds_of o.flush_interval
    pub buffer :
        lookup Vars.max_buffer_bytes env
        ≡ Option.map (λ s. number_text (cdk.to_bytes s)) o.max_buffer_size
    pub report :
        lookup Vars.include_platform_report env ≡ Option.map bool_text o.include_platform_report
    pub wait :
        lookup Vars.runtime_done_wait_ms env
        ≡ Option.map (λ d. number_text (cdk.to_milliseconds d)) o.runtime_done_wait
    pub debug : lookup Vars.debug env ≡ Option.map bool_text o.extension_debug
    pub unique : HasUniqueKeys env

  environment_entries-Holds :
      (o : EnvironmentOptions cdk) (s : Option Text)
      → s ≡ Option.map seconds_of o.flush_interval
      → Holds o (environment_entries cdk o s)
  unfolding environment_entries lookup
  environment_entries-Holds o s e = record {
    bucket = simp lookup-assign_some;
    prefix = simp lookup-assign_some;
    level = simp lookup-assign_some;
    compression = simp lookup-assign_some;
    port = simp (lookup-assign_some, some_or-none);
    flush = simp (lookup-assign_some, some_or-none) e;
    buffer = simp (lookup-assign_some, some_or-none);
    report = simp (lookup-assign_some, some_or-none);
    wait = simp (lookup-assign_some, some_or-none);
    debug = simp (lookup-assign_some, some_or-none);
    unique = assign_some-HasUniqueKeys _ _ _ (
        assign_some-HasUniqueKeys _ _ _ (
          assign_some-HasUniqueKeys _ _ _ (
            assign_some-HasUniqueKeys _ _ _ (
              assign_some-HasUniqueKeys _ _ _
                (assign_some-HasUniqueKeys _ _ _ (refl, (refl, (refl, (refl, tt)))))))));
  }

  -- For durations that obey their laws: where `buildEnvironment` returns, each of the ten
  -- variables has the value of its option in the unit that its name says, is absent if the option
  -- is undefined, and no variable is there twice.
  pub build_environment-Holds :
      (o : EnvironmentOptions cdk) (env : List (String × Text))
      → build_environment cdk o ≡ ok env
      → Holds o env
  unfolding build_environment
  build_environment-Holds o env h =
      let (s, e, k) = >>=-eq-ok (flush_seconds cdk o.flush_interval) _ h in
      subst (Holds o) (ok-injective k)
        (environment_entries-Holds o s (flush_seconds-ok o.flush_interval s e))

  -- What the source asks of the interval: a whole number of seconds, at least one.
  abbrev pub IsWholeSeconds : Option cdk.Duration → Type 0
  IsWholeSeconds none = Unit
  IsWholeSeconds (some d) = (n : ℕ) × (cdk.to_milliseconds d ≡ suc n * 1000)

  flush_seconds-to :
      (interval : Option cdk.Duration)
      → IsWholeSeconds interval
      → (s : Option Text) × (flush_seconds cdk interval ≡ ok s)
  unfolding flush_seconds
  flush_seconds-to none h = (none, refl)
  flush_seconds-to (some d) (n, e) =
      (some (number_text (suc n)), ground (arith, laws.whole_seconds d (suc n) e))

  flush_seconds-from :
      (interval : Option cdk.Duration) (s : Option Text)
      → flush_seconds cdk interval ≡ ok s
      → IsWholeSeconds interval
  unfolding flush_seconds
  flush_seconds-from none s h = tt
  flush_seconds-from (some d) s h = elim (Result-cases (cdk.to_seconds d)) [
    | inl (n, e) ↦ (cdk.to_milliseconds d / 1000 - 1, ground (arith, laws.seconds_whole d n e))
    | inr (m, e) ↦ absurd (ground arith)
  ]

  -- For durations that obey their laws: `buildEnvironment` returns exactly if the flush interval,
  -- where there is one, is a whole number of seconds and at least one.
  pub build_environment-ok_iff :
      (o : EnvironmentOptions cdk)
      → ((env : List (String × Text)) × (build_environment cdk o ≡ ok env))
        ↔ IsWholeSeconds o.flush_interval
  unfolding build_environment
  build_environment-ok_iff o = (
    λ h.
        let (s, e, k) = >>=-eq-ok (flush_seconds cdk o.flush_interval) _ h.1 in
        flush_seconds-from o.flush_interval s e,
    λ h. let (s, e) = flush_seconds-to o.flush_interval h in (environment_entries cdk o s, rw e),
  )
