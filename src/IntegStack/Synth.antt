-- ===== src/IntegStack/Synth.antt =====
-- The guards of the constructs on the options of the integ stack.
use cdk_log_to_s.Prelude.{
  sym, ◌>>=◌, ℕ, ◌*◌, ◌≤◌, Text, number_text, some, Result, ok, ◌≡◌, refl, ap, arith,
}
use cdk_log_to_s.Aws.{Cdk, Lawful}
use cdk_log_to_s.Aws.Days.{at_least_one_day, at_least_one_day-ok_iff}
use cdk_log_to_s.Assets.{Machine, resolve_layer_asset, resolve_compactor_asset}
use cdk_log_to_s.LogBucket.{unless_zero, build_lifecycle_rules, chosen_rules, new_log_bucket}
use cdk_log_to_s.Extension.{LogToS3Extension, attach}
use cdk_log_to_s.Extension.Environment.{flush_seconds, build_environment}
use cdk_log_to_s.Extension.Attach.Laws.{attach-ok_iff}
use cdk_log_to_s.Extension.Construct.{environment_options, new_extension}
use cdk_log_to_s.LogAnalytics as Analytics
use cdk_log_to_s.LogAnalytics.{Stack, LogAnalytics, window_message}
use cdk_log_to_s.LogCompaction as Compaction
use cdk_log_to_s.LogCompaction.{LogCompaction, lookback_message}
use cdk_log_to_s.IntegStack.{
  Deployed, throwaway_bucket, extension_props, analytics_options, compaction_options, name_of,
  new_integ_stack,
}

abbrev IsCreated : {A : Type 0} → Result A → Type 0
IsCreated {A} r = (a : A) × (r ≡ ok a)

IsCreated-bind :
    {A B : Type 0} (m : Result A) (next : A → Result B)
    → ((a : A) × (m ≡ ok a) × IsCreated (next a))
    → IsCreated (m >>= next)
IsCreated-bind m next (a, e, k) = rw e k

module _ (cdk : Cdk) (laws : Lawful cdk) where
  unless_zero-days : (n : ℕ) → IsCreated (unless_zero cdk (cdk.days n))
  unfolding unless_zero
  unless_zero-days n =
      let seconds : cdk.to_seconds (cdk.days n) ≡ ok (n * 86400) =
        laws.whole_seconds (cdk.days n) (n * 86400) (omega (arith, laws.days_ms n)) in
      IsCreated-bind (cdk.to_seconds (cdk.days n)) _ (n * 86400, seconds, (_, refl))

  throwaway_bucket-IsCreated : IsCreated (new_log_bucket cdk (throwaway_bucket cdk))
  unfolding new_log_bucket throwaway_bucket chosen_rules build_lifecycle_rules
  throwaway_bucket-IsCreated =
      let (ia, e0) = unless_zero-days 0 in
      let (expire, e1) = unless_zero-days 1 in
      let (abort, e7) = unless_zero-days 7 in rw (e0, e1, e7) (_, refl)

  at_least_one_day-days :
      (message : Text) (n : ℕ) → 1 ≤ n → at_least_one_day cdk message (cdk.days n) ≡ ok n
  at_least_one_day-days message n h =
      (at_least_one_day-ok_iff cdk laws message (cdk.days n) n).1 (laws.days_ms n, h)

  flush_seconds-5 : flush_seconds cdk (some (cdk.seconds 5)) ≡ ok (some (number_text 5))
  unfolding flush_seconds
  flush_seconds-5 =
      let ms = laws.seconds_ms 5 in
      let seconds = laws.whole_seconds (cdk.seconds 5) 5 ms in rw (ms, seconds) refl

  extension-IsCreated :
      (machine : Machine) (deployed : Deployed) (asset : Text)
      → resolve_layer_asset cdk machine cdk.arm_64 ≡ ok asset
      → (ext : LogToS3Extension cdk) × (new_extension cdk machine
            (extension_props cdk deployed.logs_bucket)
          ≡ ok ext)
        × (ext.architecture ≡ cdk.arm_64)
  unfolding new_extension extension_props environment_options build_environment
  extension-IsCreated machine deployed asset found = rw (found, flush_seconds-5) (_, refl, refl)

  analytics-IsCreated :
      (stack : Stack) (ext : LogToS3Extension cdk) (deployed : Deployed)
      → (a : LogAnalytics cdk) × (Analytics.from_extension cdk stack ext
            (analytics_options cdk deployed.results_bucket)
          ≡ ok a)
        × IsCreated (name_of cdk a.workgroup)
  unfolding Analytics.from_extension Analytics.new_analytics analytics_options name_of
  analytics-IsCreated stack ext deployed =
      rw (at_least_one_day-days (window_message cdk) 7 (omega arith)) (_, refl, (_, refl))

  compaction-IsCreated :
      (machine : Machine) (ext : LogToS3Extension cdk) (asset : Text)
      → ext.architecture ≡ cdk.arm_64
      → resolve_compactor_asset cdk machine cdk.arm_64 ≡ ok asset
      → cdk.to_mebibytes (cdk.mebibytes 1024) ≡ ok 1024
      → IsCreated (Compaction.from_extension cdk machine ext (compaction_options cdk))
  unfolding Compaction.from_extension Compaction.new_compaction Compaction.props_from_extension
      compaction_options
  compaction-IsCreated machine ext asset arm found size =
      rw (at_least_one_day-days (lookback_message cdk) 2 (omega arith), arm, found, size) (_, refl)

  pub new_integ_stack-IsCreated :
      (machine : Machine) (stack : Stack) (deployed : Deployed) (layer compactor : Text)
      → resolve_layer_asset cdk machine cdk.arm_64 ≡ ok layer
      → resolve_compactor_asset cdk machine cdk.arm_64 ≡ ok compactor
      → cdk.to_mebibytes (cdk.mebibytes 1024) ≡ ok 1024
      → IsCreated (new_integ_stack cdk machine stack deployed)
  unfolding new_integ_stack
  new_integ_stack-IsCreated machine stack deployed layer compactor found found' size =
      let (bucket, e) = throwaway_bucket-IsCreated in
      let (ext, built, arm) = extension-IsCreated machine deployed layer found in
      let (wiring, attached) =
        (attach-ok_iff cdk ext _ _ _).1 (ap cdk.architecture_name (sym arm)) in
      let (analytics, queried, (name, named)) = analytics-IsCreated stack ext deployed in
      let (compaction, merged) = compaction-IsCreated machine ext compactor arm found' size in
      IsCreated-bind (new_log_bucket cdk (throwaway_bucket cdk)) _ (
        bucket,
        e,
        IsCreated-bind (new_extension cdk machine _) _ (
          ext,
          built,
          IsCreated-bind (attach cdk ext _ _ _) _ (
            wiring,
            attached,
            IsCreated-bind (new_log_bucket cdk (throwaway_bucket cdk)) _ (
              bucket,
              e,
              IsCreated-bind (Analytics.from_extension cdk stack ext _) _ (
                analytics,
                queried,
                IsCreated-bind (Compaction.from_extension cdk machine ext _) _ (
                  compaction,
                  merged,
                  IsCreated-bind (name_of cdk analytics.workgroup) _ (name, named, (_, refl)),
                ),
              ),
            ),
          ),
        ),
      )
