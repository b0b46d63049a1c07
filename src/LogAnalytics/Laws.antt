-- ===== src/LogAnalytics/Laws.antt =====
-- Where Athena looks for the files of a day, and what `grantQuery` gives.
use mathlib.Core.Path.{subst}
use cdk_log_to_s.Prelude.{
  starts_with, ℕ, zero, suc, ◌*◌, ◌≤◌, Text, codes, number_text, false, [], ◌∷◌, ◌++◌, some, All,
  All-append, lookup, if◌then◌else◌, ok, ◌or_else◌, ◌≡◌, ◌≢◌, ◌↔◌, refl, ap, ◌∙◌, arith, >>=-eq-ok,
  ok-injective, is_space,
}
use cdk_log_to_s.Aws.{Cdk, Lawful, Bucket}
use cdk_log_to_s.Aws.Days.{at_least_one_day, at_least_one_day-ok_iff}
use cdk_log_to_s.Env.{normalize_prefix, default_key_prefix}
use cdk_log_to_s.Env.Strip.{IsNormal}
use cdk_log_to_s.Env.Prefix.{normalize_prefix-kept_iff}
use cdk_log_to_s.Extension.{LogToS3Extension}
use cdk_log_to_s.LogAnalytics.{
  Stack, LogAnalyticsFromExtensionOptions, LogAnalyticsProps, LogAnalytics, Workgroup,
  window_message, location_of, location_template, table_parameters, table_of, workgroup_of,
  new_analytics, from_extension, bucket_of,
}

-- The location that partition projection computes for a value of `dt`: the template with the
-- value for each `${dt}`. The number is how many units of a placeholder are still to be skipped.
pub project_from : Text → ℕ → Text → Text
project_from day skip [] = []
project_from day (suc skip) (c ∷ s) = project_from day skip s
project_from day zero (c ∷ s) =
    let after = day ++ project_from day 4 s in
    let kept = c ∷ project_from day 0 s in
    if starts_with (codes "${dt}") (c ∷ s) then after else kept

abbrev pub project : Text → Text → Text
project day template = project_from day 0 template

abbrev pub HasNoDollar : Text → Type 0
HasNoDollar s = All (λ c. c ≢ b'$') s

project-template :
    (day x : Text) → HasNoDollar x → project day (x ++ codes "${dt}/") ≡ x ++ (day ++ codes "/")
unfolding project_from starts_with
project-template day [] h = refl
project-template day (c ∷ x) h = ground (arith, project-template day x h.1)

-- `location_of` of a bucket with no dollar in its name and a prefix with none has none.
location_of-HasNoDollar :
    (bucket : Bucket) (key_prefix : Text)
    → HasNoDollar bucket.bucket_name
    → HasNoDollar key_prefix
    → HasNoDollar (location_of bucket key_prefix)
unfolding location_of
location_of-HasNoDollar bucket key_prefix h k =
    All-append (λ c. c ≢ b'$') (codes "s3://" ++ bucket.bucket_name ++ codes "/") key_prefix
      (All-append (λ c. c ≢ b'$') (codes "s3://" ++ bucket.bucket_name) (codes "/")
        (All-append (λ c. c ≢ b'$') (codes "s3://") bucket.bucket_name (omega arith) h)
        (omega arith))
      k

module _ (cdk : Cdk) (laws : Lawful cdk) where
  pub record IsQueryable (props : LogAnalyticsProps cdk) (a : LogAnalytics cdk) : Type 0 where
    pub prefix : a.key_prefix ≡ normalize_prefix (props.key_prefix or_else default_key_prefix)
    pub bucket : a.logs_bucket ≡ props.logs_bucket
    pub template :
        lookup "storage.location.template" a.table.parameters
        ≡ some (location_template a.logs_bucket a.key_prefix)
    pub days : ℕ
    pub in_days :
        cdk.to_milliseconds (props.projection_window or_else cdk.days 730) ≡ days * 86400000
    pub positive : 1 ≤ days
    pub range :
        lookup "projection.dt.range" a.table.parameters
        ≡ some (codes "NOW-" ++ number_text days ++ codes "DAYS,NOW")

  -- For durations that obey their laws: every table that the constructor returns has the location
  -- template of its bucket and normalised prefix, and a sliding window of as many whole days as
  -- the option says, at least one.
  pub new_analytics-IsQueryable :
      (stack : Stack) (props : LogAnalyticsProps cdk) (a : LogAnalytics cdk)
      → new_analytics cdk stack props ≡ ok a
      → IsQueryable props a
  unfolding new_analytics table_of table_parameters lookup
  new_analytics-IsQueryable stack props a h =
      let (n, looked, h1) =
        >>=-eq-ok
          (at_least_one_day cdk (window_message cdk) (props.projection_window or_else cdk.days 730))
          _ h in
      let (in_days, positive) =
        (at_least_one_day-ok_iff cdk laws (window_message cdk) _ n).0 looked in
      subst (IsQueryable props) (ok-injective h1) (record {
        prefix = refl;
        bucket = refl;
        template = refl;
        days = n;
        in_days = in_days;
        positive = positive;
        range = refl;
      })

  -- For durations that obey their laws: a table that `fromExtension` makes from an extension with
  -- a normal prefix has the prefix of the extension exactly if that does not begin with white
  -- space.
  pub from_extension-table_prefix_iff :
      (stack : Stack) (extension : LogToS3Extension cdk)
      (options : LogAnalyticsFromExtensionOptions cdk) (a : LogAnalytics cdk)
      → IsNormal extension.key_prefix
      → from_extension cdk stack extension options ≡ ok a
      → (a.key_prefix ≡ extension.key_prefix)
        ↔ ((c : ℕ) (s : Text) → extension.key_prefix ≡ c ∷ s → is_space c ≡ false)
  unfolding from_extension
  from_extension-table_prefix_iff stack extension options a normal h =
      rw ((new_analytics-IsQueryable stack _ a h).prefix)
        (normalize_prefix-kept_iff extension.key_prefix normal)

  pub from_extension-looks_where_written :
      (stack : Stack) (extension : LogToS3Extension cdk)
      (options : LogAnalyticsFromExtensionOptions cdk) (a : LogAnalytics cdk)
      → IsNormal extension.key_prefix
      → ((c : ℕ) (s : Text) → extension.key_prefix ≡ c ∷ s → is_space c ≡ false)
      → HasNoDollar extension.key_prefix
      → HasNoDollar extension.logs_bucket.bucket_name
      → from_extension cdk stack extension options ≡ ok a
      → (template : Text) × (lookup "storage.location.template" a.table.parameters ≡ some template)
        × ((day : Text)
            → project day template
              ≡ location_of extension.logs_bucket extension.key_prefix ++ (day ++ codes "/"))
  unfolding from_extension location_template
  from_extension-looks_where_written stack extension options a normal no_space k b h =
      let q = new_analytics-IsQueryable stack _ a h in
      let kept : a.key_prefix ≡ extension.key_prefix =
        (from_extension-table_prefix_iff stack extension options a normal h).1 no_space in
      (
        location_template extension.logs_bucket extension.key_prefix,
        q.template ∙ ap some (cc (q.bucket, kept)),
        λ day.
            project-template day (location_of extension.logs_bucket extension.key_prefix)
              (location_of-HasNoDollar extension.logs_bucket extension.key_prefix b k),
      )

  -- For durations that obey their laws: the workgroup of a constructed `LogAnalytics`, where there
  -- is one, writes its results to the directory `athena-results/` of its results bucket.
  pub results_location :
      (stack : Stack) (props : LogAnalyticsProps cdk) (a : LogAnalytics cdk) (w : Workgroup)
      → new_analytics cdk stack props ≡ ok a
      → a.workgroup ≡ some w
      → w.output_location
        ≡ codes "s3://" ++ (bucket_of a.results_bucket).bucket_name ++ codes "/athena-results/"
  unfolding new_analytics workgroup_of
  results_location stack props a w h =
      let (n, looked, h1) =
        >>=-eq-ok
          (at_least_one_day cdk (window_message cdk) (props.projection_window or_else cdk.days 730))
          _ h in
      subst
        (λ (b : LogAnalytics cdk).
          b.workgroup ≡ some w
          → w.output_location
            ≡ codes "s3://" ++ (bucket_of b.results_bucket).bucket_name ++ codes "/athena-results/")
        (ok-injective h1) (λ e. ground (arith, e))
