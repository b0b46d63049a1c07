-- ===== src/LogBucket/Laws.antt =====
-- Which lifecycle the bucket gets, and when its constructor throws.
use cdk_log_to_s.Prelude.{
  ℕ, ◌*◌, codes, true, ◌&&◌, ◌++◌, ◌∷◌, Bool-cases, refl, List, [], Option, none, some, ok,
  ◌or_else◌, ◌≡◌, ◌↔◌, ◌⊎◌, arith, >>=-eq-ok, Option-cases, Result-cases, inl, inr, ◌==◌,
  if◌then◌else◌,
}
use cdk_log_to_s.Aws.{Cdk, Lawful}
use cdk_log_to_s.LogBucket.{
  LogBucketProps, LogBucket, LifecycleRule, Transition, StorageClass, infrequent_access, glacier,
  Steps, unless_zero, push_transition, unless_empty, rules_of, lifecycle_rule,
  build_lifecycle_rules, chosen_rules, new_log_bucket, has_lifecycle_shorthand,
}

module _ (cdk : Cdk) (laws : Lawful cdk) where
  -- A duration that the code can read: a whole number of seconds.
  abbrev pub IsWhole : cdk.Duration → Type 0
  IsWhole d = (n : ℕ) × (cdk.to_milliseconds d ≡ n * 1000)

  -- A duration disables its step exactly if it is zero.
  abbrev pub unless_none : cdk.Duration → Option cdk.Duration
  unless_none d = if cdk.to_milliseconds d == 0 then none else some d

  unless_zero-whole : (d : cdk.Duration) → IsWhole d → unless_zero cdk d ≡ ok (unless_none d)
  unfolding unless_zero
  unless_zero-whole d (n, e) = ground (arith, laws.whole_seconds d n e)

  unless_zero-ok :
      (d : cdk.Duration) (o : Option cdk.Duration)
      → unless_zero cdk d ≡ ok o
      → IsWhole d × (o ≡ unless_none d)
  unfolding unless_zero
  unless_zero-ok d o h = elim (Result-cases (cdk.to_seconds d)) [
    | inl (n, e) ↦ ((n, laws.seconds_whole d n e), ground (arith, laws.seconds_whole d n e, e))
    | inr (m, e) ↦ absurd (ground (arith, e))
  ]

  -- The four durations in force, where a shorthand that is not given has its default.
  abbrev pub ia_of : LogBucketProps cdk → cdk.Duration
  ia_of props = props.infrequent_access_after or_else cdk.days 30

  abbrev pub archive_of : LogBucketProps cdk → cdk.Duration
  archive_of props = props.glacier_after or_else cdk.days 90

  abbrev pub expire_of : LogBucketProps cdk → cdk.Duration
  expire_of props = props.expire_after or_else cdk.days 180

  abbrev pub abort_of : LogBucketProps cdk → cdk.Duration
  abort_of props = props.abort_incomplete_uploads_after or_else cdk.days 7

  abbrev pub steps_of : LogBucketProps cdk → Steps cdk
  steps_of props = record {
    ia = unless_none (ia_of props);
    archive = unless_none (archive_of props);
    expire = unless_none (expire_of props);
    abort = unless_none (abort_of props);
  }

  -- The move of objects to a class, unless its duration is zero.
  abbrev move : StorageClass → cdk.Duration → List (Transition cdk)
  move storage_class d =
      if cdk.to_milliseconds d == 0
      then []
      else record { storage_class = storage_class; transition_after = d } ∷ []

  abbrev present : List (Transition cdk) → Option (List (Transition cdk))
  present [] = none
  present (t ∷ transitions) = some (t ∷ transitions)

  -- The rule that is due: infrequent access before Glacier, and each duration in its own place.
  abbrev pub due_rules : LogBucketProps cdk → List (LifecycleRule cdk)
  due_rules props =
      if cdk.to_milliseconds (ia_of props) == 0
        && cdk.to_milliseconds (archive_of props) == 0
        && cdk.to_milliseconds (expire_of props) == 0
        && cdk.to_milliseconds (abort_of props) == 0
      then []
      else record {
        id = codes "log-to-s3-lifecycle";
        enabled = true;
        transitions =
            present (move infrequent_access (ia_of props) ++ move glacier (archive_of props));
        expiration = unless_none (expire_of props);
        abort_incomplete_multipart_upload_after = unless_none (abort_of props);
      }
        ∷ []

  due_rules-steps_of :
      (props : LogBucketProps cdk)
      → rules_of (lifecycle_rule cdk (steps_of props)) ≡ due_rules props
  unfolding rules_of lifecycle_rule unless_empty push_transition
  due_rules-steps_of props = elim (Bool-cases (cdk.to_milliseconds (ia_of props) == 0)) [
    | inl a ↦ elim (Bool-cases (cdk.to_milliseconds (archive_of props) == 0)) [
      | inl b ↦ elim (Bool-cases (cdk.to_milliseconds (expire_of props) == 0)) [
        | inl c ↦ elim (Bool-cases (cdk.to_milliseconds (abort_of props) == 0)) [
          | inl d ↦ rw (a, b, c, d) refl
          | inr d ↦ rw (a, b, c, d) refl
        ]
        | inr c ↦ rw (a, b, c) refl
      ]
      | inr b ↦ rw (a, b) refl
    ]
    | inr a ↦ elim (Bool-cases (cdk.to_milliseconds (archive_of props) == 0)) [
      | inl b ↦ rw (a, b) refl
      | inr b ↦ rw (a, b) refl
    ]
  ]

  -- For durations that obey their laws: the lifecycle is built exactly if all four durations in
  -- force are whole seconds. Then there is no rule if all four are zero, and else one enabled
  -- rule: it moves objects to infrequent access and then to Glacier, expires them and aborts
  -- uploads, each after its own duration, and leaves out what has the duration zero.
  pub build_lifecycle_rules-ok_iff :
      (props : LogBucketProps cdk) (rules : List (LifecycleRule cdk))
      → (build_lifecycle_rules cdk props ≡ ok rules) ↔ (
          IsWhole (ia_of props)
          × IsWhole (archive_of props)
          × IsWhole (expire_of props)
          × IsWhole (abort_of props)
          × (rules ≡ due_rules props))
  unfolding build_lifecycle_rules
  build_lifecycle_rules-ok_iff props rules = (
    λ h.
        let (ia, p, h1) = >>=-eq-ok (unless_zero cdk (ia_of props)) _ h in
        let (archive, q, h2) = >>=-eq-ok (unless_zero cdk (archive_of props)) _ h1 in
        let (expire, r, h3) = >>=-eq-ok (unless_zero cdk (expire_of props)) _ h2 in
        let (abort, s, h4) = >>=-eq-ok (unless_zero cdk (abort_of props)) _ h3 in
        let (wi, ei) = unless_zero-ok (ia_of props) ia p in
        let (wg, eg) = unless_zero-ok (archive_of props) archive q in
        let (we, ee) = unless_zero-ok (expire_of props) expire r in
        let (wa, ea) = unless_zero-ok (abort_of props) abort s in
        (wi, wg, we, wa, cc (due_rules-steps_of props)),
    λ (wi, wg, we, wa, e). rw (
      unless_zero-whole (ia_of props) wi,
      unless_zero-whole (archive_of props) wg,
      unless_zero-whole (expire_of props) we,
      unless_zero-whole (abort_of props) wa,
      e,
      ← due_rules-steps_of props,
    ),
  )

  rules-chosen :
      (props : LogBucketProps cdk) (bucket : LogBucket cdk)
      → new_log_bucket cdk props ≡ ok bucket
      → props.lifecycle_rules ≡ none
      → build_lifecycle_rules cdk props ≡ ok bucket.lifecycle_rules
  unfolding new_log_bucket chosen_rules
  rules-chosen props bucket h none_given = elim (Result-cases (build_lifecycle_rules cdk props)) [
    | inl (rules, e) ↦ ground (arith, h, none_given, e)
    | inr (m, e) ↦ absurd (ground (arith, h, none_given, e))
  ]

  -- For durations that obey their laws: a bucket that the constructor returns either has the
  -- explicit rules as they are, and then no shorthand was given, or no rules were given and it has
  -- the lifecycle of the durations in force.
  pub new_log_bucket-both :
      (props : LogBucketProps cdk) (bucket : LogBucket cdk)
      → new_log_bucket cdk props ≡ ok bucket
      → ((props.lifecycle_rules ≡ some bucket.lifecycle_rules)
          × (props.infrequent_access_after ≡ none)
          × (props.glacier_after ≡ none)
          × (props.expire_after ≡ none)
          × (props.abort_incomplete_uploads_after ≡ none))
        ⊎ ((props.lifecycle_rules ≡ none) × (bucket.lifecycle_rules ≡ due_rules props))
  unfolding new_log_bucket chosen_rules has_lifecycle_shorthand
  new_log_bucket-both props bucket h = elim (Option-cases props.lifecycle_rules) [
    | inl e ↦ inr (e, ((build_lifecycle_rules-ok_iff props _).0 (rules-chosen props bucket h e)).4)
    | inr (rules, e) ↦ inl (ground (arith, h, e))
  ]
