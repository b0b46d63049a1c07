-- ===== src/LogCompaction/Laws.antt =====
-- What a compaction job is told and may do, and when its constructor throws.
use mathlib.Core.Option
use cdk_log_to_s.Prelude.{
  ℕ, ◌*◌, ◌≤◌, String, Text, number_text, bool_text, List, ◌∷◌, some, All, lookup,
  lookup-assign_some, some_or-none, assign_some-HasUniqueKeys, HasUniqueKeys, ok, ◌or_else◌, ◌≡◌,
  ◌↔◌, refl, sym, ap, ◌∙◌, >>=-eq-ok, ok-injective, is_space, false,
}
use mathlib.Core.Path.{subst}
use cdk_log_to_s.Aws.{Cdk, Lawful}
use cdk_log_to_s.Aws.Days.{at_least_one_day, at_least_one_day-ok_iff}
use cdk_log_to_s.Env.Vars
use cdk_log_to_s.Env.{normalize_prefix, default_key_prefix}
use cdk_log_to_s.Env.Strip.{IsNormal}
use cdk_log_to_s.Env.Prefix.{normalize_prefix-IsNormal, normalize_prefix-kept_iff}
use cdk_log_to_s.Assets.{Machine, resolve_compactor_asset}
use cdk_log_to_s.Extension.{LogToS3Extension, snappy, compression_text, below}
use cdk_log_to_s.LogCompaction.{
  LogCompactionFromExtensionOptions, LogCompactionProps, LogCompaction, BucketGrant,
  environment_entries, lookback_message, new_compaction, from_extension, props_from_extension,
}

module _ (cdk : Cdk) (laws : Lawful cdk) where
  -- What the handler is told agrees with what it may do: the bucket and the prefix that it is
  -- given are those of its grants, the options are passed on, and the lookback is in whole days.
  pub record IsConsistent (props : LogCompactionProps cdk) (c : LogCompaction cdk) : Type 0 where
    pub bucket : lookup Vars.bucket c.handler.environment ≡ some props.logs_bucket.bucket_name
    pub prefix : lookup Vars.prefix c.handler.environment ≡ some c.key_prefix
    pub codec :
        lookup Vars.compression c.handler.environment
        ≡ some (compression_text (props.compression or_else snappy))
    pub days : ℕ
    pub lookback :
        lookup Vars.compaction_lookback_days c.handler.environment ≡ some (number_text days)
    pub in_days : cdk.to_milliseconds (props.lookback or_else cdk.days 7) ≡ days * 86400000
    pub positive : 1 ≤ days
    pub min_files :
        lookup Vars.compaction_min_files c.handler.environment
        ≡ Option.map number_text props.min_files_per_partition
    pub max_files :
        lookup Vars.compaction_max_files c.handler.environment
        ≡ Option.map number_text props.max_files_per_run
    pub max_bytes :
        lookup Vars.compaction_max_bytes c.handler.environment
        ≡ Option.map (λ s. number_text (cdk.to_bytes s)) props.max_bytes_per_run
    pub debug : lookup Vars.debug c.handler.environment ≡ Option.map bool_text props.debug
    pub unique : HasUniqueKeys c.handler.environment
    pub normal : IsNormal c.key_prefix
    pub scoped :
        All
          (λ (g : BucketGrant). (g.bucket ≡ props.logs_bucket) × (g.pattern ≡ below c.key_prefix))
          c.grants

  module _ (props : LogCompactionProps cdk) (key_prefix : Text) (n : ℕ) where
    abbrev entries : List (String × Text)
    entries = environment_entries cdk props key_prefix n

    entries_unique : HasUniqueKeys entries
    unfolding environment_entries lookup
    entries_unique = assign_some-HasUniqueKeys _ _ _ (
        assign_some-HasUniqueKeys _ _ _ (
          assign_some-HasUniqueKeys _ _ _
            (assign_some-HasUniqueKeys _ _ _ (refl, (refl, (refl, (refl, tt)))))))

  -- For durations that obey their laws: a job that the constructor returns is told the bucket and
  -- the prefix to which each of its grants is scoped, has a normal prefix, passes its options on
  -- in their units, has no variable twice, and looks back a whole number of days, at least one.
  pub new_compaction-IsConsistent :
      (machine : Machine) (props : LogCompactionProps cdk) (c : LogCompaction cdk)
      → new_compaction cdk machine props ≡ ok c
      → IsConsistent props c
  unfolding new_compaction environment_entries lookup
  new_compaction-IsConsistent machine props c h =
      let (n, looked, h1) =
        >>=-eq-ok (at_least_one_day cdk (lookback_message cdk) (props.lookback or_else cdk.days 7))
          _ h in
      let (code, found, h2) = >>=-eq-ok (resolve_compactor_asset cdk machine _) _ h1 in
      let (memory, sized, h3) = >>=-eq-ok (cdk.to_mebibytes _) _ h2 in
      let (in_days, positive) =
        (at_least_one_day-ok_iff cdk laws (lookback_message cdk) _ n).0 looked in
      subst (IsConsistent props) (ok-injective h3) (record {
        bucket = simp lookup-assign_some;
        prefix = simp lookup-assign_some;
        codec = simp lookup-assign_some;
        days = n;
        lookback = simp lookup-assign_some;
        in_days = in_days;
        positive = positive;
        min_files = simp (lookup-assign_some, some_or-none);
        max_files = simp (lookup-assign_some, some_or-none);
        max_bytes = simp (lookup-assign_some, some_or-none);
        debug = simp (lookup-assign_some, some_or-none);
        unique = entries_unique props _ n;
        normal = normalize_prefix-IsNormal _;
        scoped = ((refl, refl), ((refl, refl), ((refl, refl), tt)));
      })

  key_prefix-new_compaction :
      (machine : Machine) (props : LogCompactionProps cdk) (c : LogCompaction cdk)
      → new_compaction cdk machine props ≡ ok c
      → c.key_prefix ≡ normalize_prefix (props.key_prefix or_else default_key_prefix)
  unfolding new_compaction
  key_prefix-new_compaction machine props c h =
      let (n, looked, h1) =
        >>=-eq-ok (at_least_one_day cdk (lookback_message cdk) (props.lookback or_else cdk.days 7))
          _ h in
      let (code, found, h2) = >>=-eq-ok (resolve_compactor_asset cdk machine _) _ h1 in
      let (memory, sized, h3) = >>=-eq-ok (cdk.to_mebibytes _) _ h2 in
      sym (ap (λ (j : LogCompaction cdk). j.key_prefix) (ok-injective h3))

  -- For durations that obey their laws: a job that `fromExtension` makes from an extension with a
  -- normal prefix works under the prefix of the extension exactly if that does not begin with
  -- white space.
  pub from_extension-job_prefix_iff :
      (machine : Machine) (extension : LogToS3Extension cdk)
      (options : LogCompactionFromExtensionOptions cdk) (c : LogCompaction cdk)
      → IsNormal extension.key_prefix
      → from_extension cdk machine extension options ≡ ok c
      → (c.key_prefix ≡ extension.key_prefix)
        ↔ ((d : ℕ) (s : Text) → extension.key_prefix ≡ d ∷ s → is_space d ≡ false)
  unfolding from_extension props_from_extension
  from_extension-job_prefix_iff machine extension options c normal h =
      rw (key_prefix-new_compaction machine _ c h)
        (normalize_prefix-kept_iff extension.key_prefix normal)

  -- For durations that obey their laws: with the same options, the jobs that `fromExtension` makes
  -- from any two extensions have the same codec, whatever the codecs of the extensions.
  pub from_extension-codec :
      (machine : Machine) (extension other : LogToS3Extension cdk)
      (options : LogCompactionFromExtensionOptions cdk) (c d : LogCompaction cdk)
      → from_extension cdk machine extension options ≡ ok c
      → from_extension cdk machine other options ≡ ok d
      → lookup Vars.compression c.handler.environment
        ≡ lookup Vars.compression d.handler.environment
  unfolding from_extension props_from_extension
  from_extension-codec machine extension other options c d h k =
      (new_compaction-IsConsistent machine _ c h).codec
      ∙ sym ((new_compaction-IsConsistent machine _ d k).codec)
