-- ===== src/Integ/Compaction.antt =====
-- An exit code 0 of scripts/verify-integ.ts, and what was compared in that run.
use cdk_log_to_s.Prelude.{
  ℕ, ◌≤◌, ◌<◌, ltb, leb, ltb→lt, not, codes, Text, true, false, List, length, Option, ok, ◌≡◌,
  arith,
}
use cdk_log_to_s.Integ.Services.{Services, Lawful, Reply, send, invoke}
use cdk_log_to_s.Integ.Query.{member}
use cdk_log_to_s.Integ.Rows.{every_of, some_of, is_part, is_manifest, succeeded}
use cdk_log_to_s.Integ.Program.{
  Compacted, count_sql, seed_copies, listed, count_rows, invoke_compaction, check_compacted,
  compact_partition,
}
use cdk_log_to_s.Integ.Settles.{settles_rules}
use cdk_log_to_s.Integ.Termination.{
  count_rows-Settles, listed-Settles, invoke_compaction-Settles, check_compacted-Settles,
}
use cdk_log_to_s.Integ.Evidence.{
  Assures, Assures-checked, Assures-tried, Assures-last, Assures-bind, Assures-then, Assures-pure,
}

module _ (services : Services) where
  -- The compaction merged a partition with rows, and kept their count.
  pub record Preserved (c : Compacted services) : Type 0 where
    pub seeded : 2 ≤ length c.seeded
    pub some_rows : services.is_positive c.rows_before ≡ true
    pub ran : c.compacted ≡ true
    pub fewer : length c.after_keys < c.before_count
    pub merged : every_of is_part c.after_keys ≡ ok true
    pub no_manifest : some_of is_manifest c.after_keys ≡ ok false
    pub same_rows : services.strict_eq c.rows_after c.rows_before ≡ true

  -- What the checks on the listing show.
  record Merged (n : ℕ) (after_keys : List (Option Text)) : Type 0 where
    pub fewer : length after_keys < n
    pub merged : every_of is_part after_keys ≡ ok true
    pub no_manifest : some_of is_manifest after_keys ≡ ok false

  Assures-invoke_compaction :
      (out : List (Text × Text)) → Assures services (invoke_compaction services out) (λ b. b ≡ true)
  unfolding invoke_compaction Reply
  Assures-invoke_compaction out =
      Assures-then services
        (send services (invoke (member (codes "CompactionFunctionName") out) (codes "{}"))) _
        (λ compacted.
          Assures-checked services (succeeded compacted) _ _ _ (search settles_rules)
            (λ h. Assures-pure services (succeeded compacted) h))

  Assures-check_compacted :
      (n : ℕ) (after_keys : List (Option Text))
      → Assures services (check_compacted services n after_keys) (λ _. Merged n after_keys)
  unfolding check_compacted
  Assures-check_compacted n after_keys =
      Assures-checked services (ltb (length after_keys) n) _ _ _ (search settles_rules depth 9)
        (λ fewer.
          Assures-tried services (every_of is_part after_keys) _ (λ _. search settles_rules)
            (λ parts p. Assures-checked services parts _ _ _ (search settles_rules) (λ all.
              Assures-tried services (some_of is_manifest after_keys) _ (λ _. search settles_rules)
                (λ manifests m. Assures-last services (not manifests) _ _ (λ none_left. record {
                  fewer = ltb→lt (length after_keys) n fewer;
                  merged = cc (p, all);
                  no_manifest = ground (arith, m, none_left);
                })))))

  ruleset compaction_rules = (
    listed-Settles, count_rows-Settles, invoke_compaction-Settles, check_compacted-Settles,
    settles_rules,
  )

  pub Assures-compact_partition :
      (laws : Lawful services) (fuel : ℕ) (out : List (Text × Text)) (y_prefix y_dt : Text)
      (keys : List Text)
      → 62 ≤ fuel
      → Assures services (compact_partition services fuel out y_prefix y_dt keys) Preserved
  unfolding compact_partition
  Assures-compact_partition laws fuel out y_prefix y_dt keys enough =
      let bucket = member (codes "LogsBucketName") out in
      let workgroup = member (codes "WorkgroupName") out in
      let sql = count_sql out y_dt in
      Assures-then services (seed_copies services 4 0 bucket y_prefix keys) _ (λ seeded.
        Assures-checked services (leb 2 (length seeded)) _ _ _ (search compaction_rules depth 20)
          (λ two. Assures-then services (listed services bucket y_prefix) _ (λ before.
            Assures-then services (count_rows services fuel sql workgroup) _ (λ rows_before.
              Assures-checked services (services.is_positive rows_before) _ _ _
                (search compaction_rules depth 20)
                (λ positive.
                  Assures-bind services (invoke_compaction services out) _ (λ b. b ≡ true)
                    (Assures-invoke_compaction out) (λ _. search compaction_rules depth 20)
                    (λ compacted ran.
                      Assures-then services (listed services bucket y_prefix) _ (λ after_keys.
                        Assures-bind services (check_compacted services (length before) after_keys)
                          _ (λ _. Merged (length before) after_keys)
                          (Assures-check_compacted (length before) after_keys)
                          (λ _. search compaction_rules depth 20)
                          (λ _ m.
                            Assures-then services (count_rows services fuel sql workgroup) _
                              (λ rows_after.
                                Assures-checked services (services.strict_eq rows_after rows_before)
                                  _ _ _ (search settles_rules)
                                  (λ same. Assures-pure services _ (record {
                                    seeded = ground (arith, two);
                                    some_rows = positive;
                                    ran = ran;
                                    fewer = m.fewer;
                                    merged = m.merged;
                                    no_manifest = m.no_manifest;
                                    same_rows = same;
                                  })))))))))))
