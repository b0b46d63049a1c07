-- ===== src/LogBucket/Tests.antt =====
-- The lifecycle of the logs bucket at concrete inputs.
use cdk_log_to_s.Prelude.{
  codes, text_eq, trim, List, [], ◌∷◌, none, some, true, false, ok, ◌≡◌, ◌↔◌, refl,
}
use cdk_log_to_s.Aws.Sample.{sample, sample-Lawful}
use cdk_log_to_s.Env.{normalize_prefix, trimmed_prefix}
use cdk_log_to_s.LogBucket.{
  LogBucketProps, LogBucket, LifecycleRule, absent, spread, glacier, unless_zero, push_transition,
  unless_empty, rules_of, lifecycle_rule, build_lifecycle_rules, chosen_rules, new_log_bucket,
  has_lifecycle_shorthand,
}
use cdk_log_to_s.LogBucket.Laws.{IsWhole, due_rules, build_lifecycle_rules-ok_iff}

-- Objects go to Glacier after a day and stay there; nothing else is done.
abbrev props : LogBucketProps sample
props = record {
  encryption = absent;
  block_public_access = absent;
  enforce_ssl = absent;
  versioned = absent;
  removal_policy = absent;
  lifecycle_rules = none;
  key_prefix = none;
  infrequent_access_after = some 0;
  glacier_after = some 86400000;
  expire_after = some 0;
  abort_incomplete_uploads_after = some 0;
}

abbrev rules : List (LifecycleRule sample)
rules =
    record {
      id = codes "log-to-s3-lifecycle";
      enabled = true;
      transitions = some (record { storage_class = glacier; transition_after = 86400000 } ∷ []);
      expiration = none;
      abort_incomplete_multipart_upload_after = none;
    }
    ∷ []

build_runs : build_lifecycle_rules sample props ≡ ok rules
unfolding build_lifecycle_rules unless_zero push_transition unless_empty rules_of lifecycle_rule
build_runs = refl

build_lifecycle_rules-ok_iff_example : (build_lifecycle_rules sample props ≡ ok rules) ↔ (
    IsWhole sample sample-Lawful 0
    × IsWhole sample sample-Lawful 86400000
    × IsWhole sample sample-Lawful 0
    × IsWhole sample sample-Lawful 0
    × (rules ≡ due_rules sample sample-Lawful props))
build_lifecycle_rules-ok_iff_example = build_lifecycle_rules-ok_iff sample sample-Lawful props rules

abbrev bucket : LogBucket sample
bucket = record {
  encryption = some true;
  block_public_access = some true;
  enforce_ssl = some true;
  versioned = some false;
  removal_policy = some true;
  lifecycle_rules = rules;
  key_prefix = codes "logs/";
}

new_runs : new_log_bucket sample props ≡ ok bucket
unfolding new_log_bucket chosen_rules has_lifecycle_shorthand spread build_lifecycle_rules
    unless_zero push_transition unless_empty rules_of lifecycle_rule normalize_prefix trimmed_prefix
    trim text_eq
new_runs = refl
