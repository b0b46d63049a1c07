-- ===== src/IntegStack/Laws.antt =====
-- What the integ stack writes, reads and compacts, and what scripts/verify-integ.ts looks at.
use mathlib.Core.Path.{subst}
use cdk_log_to_s.Prelude.{
  true, text_eq_iff, ◌>>=◌, ℕ, Text, codes, text_eq, trim, is_space, number_text, digits_fuel,
  false, [], ◌∷◌, ◌++◌, some, lookup, Result, ok, throws, ok-injective, ◌≡◌, ◌≢◌, refl, sym, ap,
  ◌∙◌, arith,
}
use cdk_log_to_s.Aws.{Cdk, Lawful, Bucket, LambdaFunction}
use cdk_log_to_s.Env.{default_key_prefix, normalize_prefix, trimmed_prefix}
use cdk_log_to_s.Env.Vars
use cdk_log_to_s.Env.Strip.{IsNormal}
use cdk_log_to_s.Env.Prefix.{normalize_prefix-IsNormal, normalize_prefix-kept_iff}
use cdk_log_to_s.Assets.{Machine, resolve_layer_asset, resolve_compactor_asset}
use cdk_log_to_s.LogBucket.{new_log_bucket}
use cdk_log_to_s.Extension.{LogToS3Extension, LogToS3AttachOptions, Wiring, attach, has}
use cdk_log_to_s.Extension.Construct.{new_extension}
use cdk_log_to_s.Extension.Attach.Sequence.{start, attached, begin}
use cdk_log_to_s.Extension.Attach.{variable}
use cdk_log_to_s.Extension.Construct.Laws.{
  new_extension-writes_where_granted, new_extension-IsConsistent, new_extension-fields,
}
use cdk_log_to_s.LogAnalytics as Analytics
use cdk_log_to_s.LogAnalytics.{Stack, LogAnalytics, location_of, new_analytics}
use cdk_log_to_s.LogAnalytics.Laws.{project, HasNoDollar, from_extension-looks_where_written}
use cdk_log_to_s.LogCompaction as Compaction
use cdk_log_to_s.LogCompaction.Laws.{new_compaction-IsConsistent, from_extension-job_prefix_iff}
use cdk_log_to_s.Integ.Query.{add_outputs, member}
use cdk_log_to_s.Integ.Rows.{falsy_or}
use cdk_log_to_s.IntegStack.Outputs.{outputs-prefix, outputs-bucket}
use cdk_log_to_s.IntegStack.Synth.{new_integ_stack-IsCreated}
use cdk_log_to_s.IntegStack.{
  emitter, no_options, Deployed, throwaway_bucket, extension_props, analytics_options,
  compaction_options, IntegStack, outputs_of, name_of, new_integ_stack,
}

-- What holds of the result, if there is one.
record Gives {A : Type 0} (P : A → Type 0) (r : Result A) : Type 0 where
  pub at : (a : A) → r ≡ ok a → P a

module _ {A : Type 0} {P : A → Type 0} where
  Gives-ok : (a : A) → P a → Gives P (ok a)
  Gives-ok a p = record { at = λ b h. subst P (ok-injective h) p }

  Gives-bind :
      {B : Type 0} (m : Result B) (next : B → Result A)
      → ((b : B) → m ≡ ok b → Gives P (next b))
      → Gives P (m >>= next)
  Gives-bind (throws e) next k = record { at = λ a h. absurd (cc h) }
  Gives-bind (ok b) next k = k b refl

module _ (cdk : Cdk) (laws : Lawful cdk) where
  -- The prefix and the bucket that the script takes from the outputs of the stack are those that
  -- the function and the extension are told, below which the table looks for a day, and which the
  -- job merges, from two files on.
  pub record Checkable (deployed : Deployed) (s : IntegStack cdk) : Type 0 where
    pub prefix : falsy_or (member (codes "KeyPrefix") (add_outputs s.outputs [])) [] ≡ codes "logs/"
    pub bucket :
        member (codes "LogsBucketName") (add_outputs s.outputs [])
        ≡ some deployed.logs_bucket.bucket_name
    pub emitter_bucket :
        variable deployed.emitter_path Vars.bucket s.wiring.calls
        ≡ some deployed.logs_bucket.bucket_name
    pub emitter_prefix :
        variable deployed.emitter_path Vars.prefix s.wiring.calls ≡ some (codes "logs/")
    pub written_bucket :
        lookup Vars.bucket s.extension.environment ≡ some deployed.logs_bucket.bucket_name
    pub written_prefix : lookup Vars.prefix s.extension.environment ≡ some (codes "logs/")
    pub template : Text
    pub has_template :
        lookup "storage.location.template" s.analytics.table.parameters ≡ some template
    pub looks :
        (day : Text)
        → project day template
          ≡ location_of deployed.logs_bucket (codes "logs/") ++ (day ++ codes "/")
    pub merged_bucket :
        lookup Vars.bucket s.compaction.handler.environment ≡ some deployed.logs_bucket.bucket_name
    pub merged_prefix : lookup Vars.prefix s.compaction.handler.environment ≡ some (codes "logs/")
    pub min_files :
        lookup Vars.compaction_min_files s.compaction.handler.environment ≡ some (codes "2")

  default_kept : normalize_prefix default_key_prefix ≡ codes "logs/"
  unfolding normalize_prefix trimmed_prefix trim text_eq
  default_kept = refl

  default-IsNormal : IsNormal (codes "logs/")
  default-IsNormal = subst IsNormal default_kept (normalize_prefix-IsNormal default_key_prefix)

  default-no_space : (c : ℕ) (s : Text) → codes "logs/" ≡ c ∷ s → is_space c ≡ false
  default-no_space = (normalize_prefix-kept_iff (codes "logs/") default-IsNormal).0 default_kept

  -- The steps of the constructor whose results the stack has.
  record Parts (machine : Machine) (stack : Stack) (deployed : Deployed) (s : IntegStack cdk)
      : Type 0 where
    pub built :
        new_extension cdk machine (extension_props cdk deployed.logs_bucket) ≡ ok s.extension
    pub joined :
        attach cdk s.extension (emitter cdk deployed) (no_options cdk) (start cdk s.extension)
        ≡ ok s.wiring
    pub queried :
        Analytics.from_extension cdk stack s.extension
          (analytics_options cdk deployed.results_bucket)
        ≡ ok s.analytics
    pub merged :
        Compaction.from_extension cdk machine s.extension (compaction_options cdk) ≡ ok s.compaction
    pub workgroup_name : Text
    pub listed : s.outputs ≡ outputs_of cdk deployed s.extension s.analytics workgroup_name

  new_integ_stack-Parts :
      (machine : Machine) (stack : Stack) (deployed : Deployed)
      → Gives (Parts machine stack deployed) (new_integ_stack cdk machine stack deployed)
  unfolding new_integ_stack
  new_integ_stack-Parts machine stack deployed =
      Gives-bind (new_log_bucket cdk (throwaway_bucket cdk)) _ (λ logs _.
        Gives-bind (new_extension cdk machine (extension_props cdk deployed.logs_bucket)) _
          (λ ext built. Gives-bind (attach cdk ext _ _ _) _ (λ wiring joined.
            Gives-bind (new_log_bucket cdk (throwaway_bucket cdk)) _ (λ results _.
              Gives-bind (Analytics.from_extension cdk stack ext _) _ (λ analytics queried.
                Gives-bind (Compaction.from_extension cdk machine ext (compaction_options cdk)) _
                  (λ compaction merged. Gives-bind (name_of cdk analytics.workgroup) _ (λ name _.
                    Gives-ok _ (record {
                      built = built;
                      joined = joined;
                      queried = queried;
                      merged = merged;
                      workgroup_name = name;
                      listed = refl;
                    }))))))))

  attach-has :
      (ext : LogToS3Extension cdk) (fn : LambdaFunction cdk) (options : LogToS3AttachOptions)
      (w : Wiring cdk)
      → attach cdk ext fn options (start cdk ext) ≡ ok w
      → has w.attached fn.path ≡ true
  unfolding attach has
  attach-has ext fn options w h = ground (arith, h, text_eq_iff fn.path fn.path)

  new_integ_stack-Checkable :
      (machine : Machine) (stack : Stack) (deployed : Deployed) (s : IntegStack cdk)
      → deployed.logs_bucket.bucket_name ≢ []
      → HasNoDollar deployed.logs_bucket.bucket_name
      → new_integ_stack cdk machine stack deployed ≡ ok s
      → Checkable deployed s
  unfolding extension_props Compaction.from_extension Compaction.props_from_extension
      compaction_options falsy_or number_text digits_fuel
  new_integ_stack-Checkable machine stack deployed s named no_dollar h =
      let parts = (new_integ_stack-Parts machine stack deployed).at s h in
      let (same_bucket, key_prefix) =
        new_extension-fields cdk laws machine _ s.extension parts.built in
      let kept : s.extension.key_prefix ≡ codes "logs/" = key_prefix ∙ default_kept in
      let told = new_extension-IsConsistent cdk laws machine _ s.extension parts.built in
      let merged =
        new_compaction-IsConsistent cdk laws machine
          (Compaction.props_from_extension cdk s.extension (compaction_options cdk)) s.compaction
          parts.merged in
      let job_prefix : s.compaction.key_prefix ≡ s.extension.key_prefix =
        (from_extension-job_prefix_iff cdk laws machine s.extension (compaction_options cdk)
            s.compaction told.normal parts.merged).1
          (λ c t e. default-no_space c t (sym kept ∙ e)) in
      let (template, has_template, looks) =
        from_extension-looks_where_written cdk laws stack s.extension
          (analytics_options cdk deployed.results_bucket) s.analytics told.normal
          (λ c t e. default-no_space c t (sym kept ∙ e)) (rw kept (omega arith))
          (rw same_bucket no_dollar) parts.queried in
      let (emitter_bucket, emitter_prefix, _) =
        new_extension-writes_where_granted cdk laws machine
          (extension_props cdk deployed.logs_bucket) s.extension s.wiring deployed.emitter_path
          parts.built
          (attached (emitter cdk deployed) (no_options cdk) (start cdk s.extension) s.wiring begin
            parts.joined)
          (attach-has s.extension (emitter cdk deployed) (no_options cdk) s.wiring parts.joined) in
      record {
        emitter_bucket = emitter_bucket ∙ ap (λ (b : Bucket). some b.bucket_name) same_bucket;
        emitter_prefix = emitter_prefix ∙ ap some kept;
        prefix =
            rw
              (
                parts.listed,
                outputs-prefix cdk deployed s.extension s.analytics parts.workgroup_name kept,
              )
              refl;
        bucket =
            rw parts.listed
              (outputs-bucket cdk deployed s.extension s.analytics parts.workgroup_name named);
        written_bucket = told.bucket ∙ ap (λ (b : Bucket). some b.bucket_name) same_bucket;
        written_prefix = told.prefix ∙ ap some kept;
        template = template;
        has_template = has_template;
        looks = λ day. looks day ∙ rw (same_bucket, kept) refl;
        merged_bucket = merged.bucket ∙ ap (λ (b : Bucket). some b.bucket_name) same_bucket;
        merged_prefix = merged.prefix ∙ ap some (job_prefix ∙ kept);
        min_files = merged.min_files;
      }

  -- For durations that obey their laws, where both assets are found, 1024 MiB are 1024 MiB, and
  -- the logs bucket has a name that is not empty and has no dollar: the integ stack is created,
  -- and the bucket and the prefix that the integration check reads from its outputs are those that
  -- the variables of its function and of its extension name and which its job merges, from two
  -- files on, while its table looks for each day below that prefix in that bucket.
  pub new_integ_stack-checks :
      (machine : Machine) (stack : Stack) (deployed : Deployed) (layer compactor : Text)
      → resolve_layer_asset cdk machine cdk.arm_64 ≡ ok layer
      → resolve_compactor_asset cdk machine cdk.arm_64 ≡ ok compactor
      → cdk.to_mebibytes (cdk.mebibytes 1024) ≡ ok 1024
      → deployed.logs_bucket.bucket_name ≢ []
      → HasNoDollar deployed.logs_bucket.bucket_name
      → (s : IntegStack cdk) × (new_integ_stack cdk machine stack deployed ≡ ok s)
        × Checkable deployed s
  new_integ_stack-checks machine stack deployed layer compactor found found' size named no_dollar =
      let (s, made) =
        new_integ_stack-IsCreated cdk laws machine stack deployed layer compactor found found'
          size in
      (s, made, new_integ_stack-Checkable machine stack deployed s named no_dollar made)
