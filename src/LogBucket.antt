-- ===== src/LogBucket.antt =====
-- src/log-bucket.ts: the lifecycle of the logs bucket and the guard of its constructor.
pub mod Laws
pub mod Tests
use cdk_log_to_s.Prelude.{
  ℕ, Text, codes, Bool, true, false, ◌||◌, ◌&&◌, not, is_some, ltb, List, [], ◌∷◌, ◌++◌, Option,
  none, some, Result, ok, ◌>>=◌, ◌>>◌, throw_if, ◌or_else◌, if◌then◌else◌,
}
use cdk_log_to_s.Aws.{Cdk}
use cdk_log_to_s.Env.{default_key_prefix, normalize_prefix}

pub data StorageClass : Type 0 where
  infrequent_access glacier : StorageClass

-- A property of an object literal: not written, or written with a value that may be `undefined`.
pub data Given (A : Type 0) : Type 0 where
  absent : Given A
  given : Option A → Given A

-- `{ key: default, ...props }.key`: what is written in `props` wins, `undefined` too.
unfoldable pub spread : {A : Type 0} → A → Given A → Option A
spread default absent = some default
spread default (given value) = value

module _ (cdk : Cdk) where
  pub record Transition : Type 0 where
    pub storage_class : StorageClass
    pub transition_after : cdk.Duration

  pub record LifecycleRule : Type 0 where
    pub id : Text
    pub enabled : Bool
    pub transitions : Option (List Transition)
    pub expiration : Option cdk.Duration
    pub abort_incomplete_multipart_upload_after : Option cdk.Duration

  -- `LogBucketProps`, with those properties of `s3.BucketProps` for which the code has a default.
  pub record LogBucketProps : Type 0 where
    pub encryption : Given cdk.BucketEncryption
    pub block_public_access : Given cdk.BlockPublicAccess
    pub enforce_ssl : Given Bool
    pub versioned : Given Bool
    pub removal_policy : Given cdk.RemovalPolicy
    pub lifecycle_rules : Option (List LifecycleRule)
    pub key_prefix : Option Text
    pub infrequent_access_after : Option cdk.Duration
    pub glacier_after : Option cdk.Duration
    pub expire_after : Option cdk.Duration
    pub abort_incomplete_uploads_after : Option cdk.Duration

  -- What the constructor hands to `s3.Bucket`, and the field that it sets.
  pub record LogBucket : Type 0 where
    pub encryption : Option cdk.BucketEncryption
    pub block_public_access : Option cdk.BlockPublicAccess
    pub enforce_ssl : Option Bool
    pub versioned : Option Bool
    pub removal_policy : Option cdk.RemovalPolicy
    pub lifecycle_rules : List LifecycleRule
    pub key_prefix : Text

module _ {cdk : Cdk} where
  unfoldable pub has_lifecycle_shorthand : LogBucketProps cdk → Bool
  has_lifecycle_shorthand props =
      is_some props.infrequent_access_after
      || is_some props.glacier_after
      || is_some props.expire_after
      || is_some props.abort_incomplete_uploads_after

  -- `if (d.toSeconds() > 0) transitions.push(…)`.
  unfoldable pub push_transition :
      StorageClass → Option cdk.Duration → List (Transition cdk) → List (Transition cdk)
  push_transition storage_class none transitions = transitions
  push_transition storage_class (some after) transitions =
      transitions ++ record { storage_class = storage_class; transition_after = after } ∷ []

  -- `transitions.length > 0 ? transitions : undefined`.
  unfoldable pub unless_empty : List (Transition cdk) → Option (List (Transition cdk))
  unless_empty [] = none
  unless_empty (t ∷ transitions) = some (t ∷ transitions)

  unfoldable pub rules_of : LifecycleRule cdk → List (LifecycleRule cdk)
  rules_of rule =
      if not (is_some rule.transitions)
        && not (is_some rule.expiration)
        && not (is_some rule.abort_incomplete_multipart_upload_after)
      then []
      else rule ∷ []

module _ (cdk : Cdk) where
  -- `d.toSeconds() > 0 ? d : undefined`.
  unfoldable pub unless_zero : cdk.Duration → Result (Option cdk.Duration)
  unless_zero d = do seconds ← cdk.to_seconds d; ok (if ltb 0 seconds then some d else none)

  -- The durations that are left after zero has disabled its step.
  pub record Steps : Type 0 where
    pub ia : Option cdk.Duration
    pub archive : Option cdk.Duration
    pub expire : Option cdk.Duration
    pub abort : Option cdk.Duration

  unfoldable pub lifecycle_rule : Steps → LifecycleRule cdk
  lifecycle_rule s = record {
    id = codes "log-to-s3-lifecycle";
    enabled = true;
    transitions =
        unless_empty
          (push_transition glacier s.archive (push_transition infrequent_access s.ia []));
    expiration = s.expire;
    abort_incomplete_multipart_upload_after = s.abort;
  }

  unfoldable pub build_lifecycle_rules : LogBucketProps cdk → Result (List (LifecycleRule cdk))
  build_lifecycle_rules props = do
    ia ← unless_zero (props.infrequent_access_after or_else cdk.days 30)
    archive ← unless_zero (props.glacier_after or_else cdk.days 90)
    expire ← unless_zero (props.expire_after or_else cdk.days 180)
    abort ← unless_zero (props.abort_incomplete_uploads_after or_else cdk.days 7)
    let steps : Steps = record { ia = ia; archive = archive; expire = expire; abort = abort }
    ok (rules_of (lifecycle_rule steps))

  unfoldable pub both_message : Text
  both_message =
      codes "LogBucket: pass either `lifecycleRules` or the shorthand properties "
      ++ codes
          "(infrequentAccessAfter / glacierAfter / expireAfter / abortIncompleteUploadsAfter), "
      ++ codes "not both. Supplying both would silently drop one of them."

  -- `props.lifecycleRules ?? buildLifecycleRules(props)`.
  unfoldable pub chosen_rules : LogBucketProps cdk → Result (List (LifecycleRule cdk))
  chosen_rules props = elim props.lifecycle_rules [
    | none ↦ build_lifecycle_rules props
    | some rules ↦ ok rules
  ]

  unfoldable pub new_log_bucket : LogBucketProps cdk → Result (LogBucket cdk)
  new_log_bucket props = do
    throw_if (is_some props.lifecycle_rules && has_lifecycle_shorthand props) both_message
    rules ← chosen_rules props
    ok (record {
      encryption = spread cdk.s3_managed props.encryption;
      block_public_access = spread cdk.block_all props.block_public_access;
      enforce_ssl = spread true props.enforce_ssl;
      versioned = spread false props.versioned;
      removal_policy = spread cdk.retain props.removal_policy;
      lifecycle_rules = rules;
      key_prefix = normalize_prefix (props.key_prefix or_else default_key_prefix);
    })
