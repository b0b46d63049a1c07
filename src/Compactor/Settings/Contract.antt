-- ===== src/Compactor/Settings/Contract.antt =====
-- The environment that the construct of the compaction job sets, as the compactor reads it.
use mathlib.Core.Option
use cdk_log_to_s.Prelude.{
  ℕ, ◌*◌, ◌<◌, ◌≤◌, ◌≡◌, ◌≢◌, String, codes, lookup, number_text, bool_text, All, refl, ap, ◌∙◌,
  Option, none, some, ◌or_else◌, [], ◌∷◌, false, ok, arith,
}
use cdk_log_to_s.Aws.{Cdk, Lawful}
use cdk_log_to_s.Env.Vars
use cdk_log_to_s.Assets.{Machine}
use cdk_log_to_s.Extension.{snappy, compression_text}
use cdk_log_to_s.Go.Strconv.{int_limit, parse_bool}
use cdk_log_to_s.Go.Strconv.Laws.{number_text-some}
use cdk_log_to_s.Layout.{normalize_prefix}
use cdk_log_to_s.LogCompaction.{LogCompactionProps, LogCompaction, new_compaction}
use cdk_log_to_s.LogCompaction.Laws.{IsConsistent, new_compaction-IsConsistent}
use cdk_log_to_s.Agent.Config.{Environment, os_getenv, setting, bytes_of, compression_of}
use cdk_log_to_s.Agent.Config.Laws.{
  compression_of-text, bytes_of-number_text, bool_text-read, get_env-some, os_getenv-some,
  setting-read,
}
use cdk_log_to_s.Compactor.{Config}
use cdk_log_to_s.Compactor.Settings.{env_int, load_config}

-- A positive number that a 64-bit integer holds.
abbrev pub Fits : ℕ → Type 0
Fits n = (1 ≤ n) × (n < int_limit)

env_int-read :
    {X : Type 0} (env : Environment) (key : String) (fallback : ℕ) (value : X → ℕ) (o : Option X)
    → lookup key env ≡ Option.map (λ x. number_text (value x)) o
    → ((x : X) → o ≡ some x → Fits (value x))
    → env_int env key fallback ≡ (Option.map value o or_else fallback, [])
unfolding env_int
env_int-read env key fallback value o h fits =
    setting-read env key bytes_of fallback (λ x. number_text (value x)) value o h
      (λ x e.
        (number_text-some (value x), bytes_of-number_text (value x) (fits x e).0 (fits x e).1))

map_id : {A : Type 0} (o : Option A) (d : A) → (Option.map (λ x. x) o or_else d) ≡ (o or_else d)
map_id none d = refl
map_id (some x) d = refl

module _ (cdk : Cdk) where
  -- What the compactor asks of a job, beyond what the construct does: a prefix that is
  -- not empty and that normalising keeps, and positive numbers that a 64-bit integer holds.
  pub record IsReadable (props : LogCompactionProps cdk) (c : LogCompaction cdk) : Type 0 where
    pub prefix : c.key_prefix ≢ []
    pub normal : normalize_prefix c.key_prefix ≡ c.key_prefix
    pub lookback :
        (n : ℕ)
        → cdk.to_milliseconds (props.lookback or_else cdk.days 7) ≡ n * 86400000
        → n < int_limit
    pub min_files : (n : ℕ) → props.min_files_per_partition ≡ some n → Fits n
    pub max_files : (n : ℕ) → props.max_files_per_run ≡ some n → Fits n
    pub max_bytes : (s : cdk.Size) → props.max_bytes_per_run ≡ some s → Fits (cdk.to_bytes s)

  -- The settings that the properties ask for, with the defaults of the compactor.
  pub record Reads (props : LogCompactionProps cdk) (c : LogCompaction cdk) (cfg : Config)
      : Type 0 where
    pub bucket : cfg.bucket ≡ props.logs_bucket.bucket_name
    pub prefix : cfg.prefix ≡ c.key_prefix
    pub compression : cfg.compression ≡ compression_text (props.compression or_else snappy)
    pub min_files : cfg.min_files ≡ (props.min_files_per_partition or_else 8)
    pub max_files : cfg.max_files ≡ (props.max_files_per_run or_else 2000)
    pub max_bytes :
        cfg.max_bytes ≡ (Option.map cdk.to_bytes props.max_bytes_per_run or_else 268435456)
    pub lookback :
        cdk.to_milliseconds (props.lookback or_else cdk.days 7) ≡ cfg.lookback_days * 86400000
    pub debug : cfg.debug ≡ (props.debug or_else false)

-- `process` has the variables of `env`, and may have others.
abbrev pub Passes : Environment → Environment → Type 0
Passes env process =
    All (λ key. lookup key process ≡ lookup key env)
      (Vars.bucket ∷ Vars.prefix ∷ Vars.compression ∷ Vars.compaction_lookback_days
        ∷ Vars.compaction_min_files ∷ Vars.compaction_max_files ∷ Vars.compaction_max_bytes
        ∷ Vars.debug ∷ [])

module _ (cdk : Cdk) (laws : Lawful cdk) (props : LogCompactionProps cdk) (c : LogCompaction cdk)
    (process : Environment) (h : IsConsistent cdk laws props c) (r : IsReadable cdk props c)
    (same : Passes c.handler.environment process) where
  compression_read :
      setting Vars.compression compression_of (codes "snappy") (os_getenv process Vars.compression)
      ≡ (compression_text (props.compression or_else snappy), [])
  compression_read =
      setting-read process Vars.compression compression_of (codes "snappy") compression_text
        compression_text (some (props.compression or_else snappy)) (same.1.1.0 ∙ h.codec)
        (λ k e. compression_of-text k)

  lookback_read : env_int process Vars.compaction_lookback_days 7 ≡ (h.days, [])
  lookback_read =
      env_int-read process Vars.compaction_lookback_days 7 (λ n. n) (some h.days)
        (same.1.1.1.0 ∙ h.lookback)
        (λ n e. ground (arith, e, h.positive, r.lookback h.days h.in_days))

  min_files_read :
      env_int process Vars.compaction_min_files 8 ≡ (props.min_files_per_partition or_else 8, [])
  min_files_read =
      env_int-read process Vars.compaction_min_files 8 (λ n. n) props.min_files_per_partition
        (same.1.1.1.1.0 ∙ h.min_files) r.min_files
      ∙ ap (λ n. (n, [])) (map_id props.min_files_per_partition 8)

  max_files_read :
      env_int process Vars.compaction_max_files 2000 ≡ (props.max_files_per_run or_else 2000, [])
  max_files_read =
      env_int-read process Vars.compaction_max_files 2000 (λ n. n) props.max_files_per_run
        (same.1.1.1.1.1.0 ∙ h.max_files) r.max_files
      ∙ ap (λ n. (n, [])) (map_id props.max_files_per_run 2000)

  max_bytes_read :
      env_int process Vars.compaction_max_bytes (256 * 1024 * 1024)
      ≡ (Option.map cdk.to_bytes props.max_bytes_per_run or_else 268435456, [])
  max_bytes_read =
      env_int-read process Vars.compaction_max_bytes 268435456 cdk.to_bytes props.max_bytes_per_run
        (same.1.1.1.1.1.1.0 ∙ h.max_bytes) r.max_bytes

  debug_read :
      setting Vars.debug parse_bool false (os_getenv process Vars.debug)
      ≡ (props.debug or_else false, [])
  debug_read =
      setting-read process Vars.debug parse_bool false bool_text (λ b. b) props.debug
        (same.1.1.1.1.1.1.1.0 ∙ h.debug) (λ b e. bool_text-read b)
      ∙ ap (λ b. (b, [])) (map_id props.debug false)

  IsConsistent-Reads : Reads cdk props c (load_config process).0 × ((load_config process).1 ≡ [])
  unfolding load_config
  IsConsistent-Reads = (
    record {
      bucket = os_getenv-some process Vars.bucket _ (same.0 ∙ h.bucket);
      prefix =
          ap normalize_prefix
            (get_env-some process Vars.prefix c.key_prefix _ (same.1.0 ∙ h.prefix) r.prefix)
          ∙ r.normal;
      compression = ap (λ p. p.0) compression_read;
      min_files = ap (λ p. p.0) min_files_read;
      max_files = ap (λ p. p.0) max_files_read;
      max_bytes = ap (λ p. p.0) max_bytes_read;
      lookback = rw lookback_read h.in_days;
      debug = ap (λ p. p.0) debug_read;
    },
    rw (
      compression_read, lookback_read, min_files_read, max_files_read, max_bytes_read, debug_read,
    ),
  )

-- For durations that obey their laws: where the constructor returns a job that the compactor can
-- read (a prefix that is not empty and that the compactor keeps, and positive numbers that fit 64
-- bits), `LoadConfig` finds in a process that passes its variables on, whatever others it has, the
-- bucket, the prefix and the codec of the job, exactly the numbers of its properties, a lookback
-- in days, and its own defaults for the rest, and gives no warning.
pub new_compaction-load_config :
    (cdk : Cdk) (laws : Lawful cdk) (machine : Machine) (props : LogCompactionProps cdk)
    (c : LogCompaction cdk) (process : Environment)
    → new_compaction cdk machine props ≡ ok c
    → IsReadable cdk props c
    → Passes c.handler.environment process
    → Reads cdk props c (load_config process).0 × ((load_config process).1 ≡ [])
new_compaction-load_config cdk laws machine props c process made r same =
    IsConsistent-Reads cdk laws props c process
      (new_compaction-IsConsistent cdk laws machine props c made) r same
