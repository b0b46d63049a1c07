-- ===== src/Compactor/Handler/Laws.antt =====
-- What one invocation of the compactor reports, and what it does to the bucket.
use cdk_log_to_s.Prelude.{
  ℕ, zero, suc, ◌+◌, Text, text_eq, false, List, if◌then◌else◌, [], ◌∷◌, ◌++◌, Option, none, some,
  ◌≡◌, ◌↔◌, refl, arith, ap, sym, ◌∙◌,
}
use cdk_log_to_s.Layout.{Day, partition_path}
use cdk_log_to_s.Agent.Config.{Environment}
use cdk_log_to_s.Compactor.{Config, Tools}
use cdk_log_to_s.Compactor.Run.{PartitionResult, compact_partition}
use cdk_log_to_s.Compactor.Settings.{load_config, partitions, partitions_from}
use cdk_log_to_s.Compactor.Store.{S3}
use cdk_log_to_s.Compactor.Handler.{
  Report, no_report, Response, add_result, failure_of, compact_all, run_all, run_connected, handler,
}

++-nil : {A : Type 0} (l : List A) → l ++ [] ≡ l
++-nil [] = refl
++-nil (a ∷ l) = ap (λ t. a ∷ t) (++-nil l)

++-snoc : {A : Type 0} (l m : List A) (a : A) → (l ++ a ∷ []) ++ m ≡ l ++ a ∷ m
++-snoc [] m a = refl
++-snoc (b ∷ l) m a = ap (λ t. b ∷ t) (++-snoc l m a)

failure_of-none_iff : (errors : List Text) → (failure_of errors ≡ none) ↔ (errors ≡ [])
unfolding failure_of
failure_of-none_iff [] = ((λ h. refl), (λ h. refl))
failure_of-none_iff (e ∷ errors) = ((λ h. absurd (cc h)), (λ h. absurd (cc h)))

module _ (s3 : S3) (tools : Tools) (cfg : Config) where
  abbrev run : Text → s3.World → Option PartitionResult × s3.World
  run p w = compact_partition s3 tools cfg p w

  -- The world behind runs over the partitions, one after the other, whether or not they end well.
  abbrev pub each : List Text → s3.World → s3.World
  each [] w = w
  each (p ∷ rest) w = each rest (run p w).1

  abbrev note_failure : Text → Option PartitionResult → List Text → List Text
  note_failure p none l = p ∷ l
  note_failure p (some result) l = l

  -- The partitions whose runs fail.
  abbrev pub failures : List Text → s3.World → List Text
  failures [] w = []
  failures (p ∷ rest) w = note_failure p (run p w).0 (failures rest (run p w).1)

  abbrev note_merge : Option PartitionResult → ℕ → ℕ
  note_merge none n = n
  note_merge (some result) n = if result.skipped then n else n + 1

  -- How many runs merge.
  abbrev pub merges : List Text → s3.World → ℕ
  merges [] w = 0
  merges (p ∷ rest) w = note_merge (run p w).0 (merges rest (run p w).1)

  compact_all-each :
      (ps : List Text) (r : Report) (w : s3.World) → (compact_all s3 tools cfg ps r w).1 ≡ each ps w
  unfolding compact_all
  compact_all-each [] r w = refl
  compact_all-each (p ∷ rest) r w =
      compact_all-each rest (add_result cfg p (run p w).0 r) (run p w).1

  add_result-errors :
      (p : Text) (o : Option PartitionResult) (r : Report) (l : List Text)
      → (add_result cfg p o r).errors ++ l ≡ r.errors ++ note_failure p o l
  unfolding add_result
  add_result-errors p none r l = ++-snoc r.errors l p
  add_result-errors p (some result) r l = refl

  compact_all-errors :
      (ps : List Text) (r : Report) (w : s3.World)
      → (compact_all s3 tools cfg ps r w).0.errors ≡ r.errors ++ failures ps w
  unfolding compact_all
  compact_all-errors [] r w = sym (++-nil r.errors)
  compact_all-errors (p ∷ rest) r w =
      compact_all-errors rest (add_result cfg p (run p w).0 r) (run p w).1
      ∙ add_result-errors p (run p w).0 r (failures rest (run p w).1)

  add_result-compacted :
      (p : Text) (o : Option PartitionResult) (r : Report) (n : ℕ)
      → (add_result cfg p o r).compacted + n ≡ r.compacted + note_merge o n
  unfolding add_result
  add_result-compacted p none r n = refl
  add_result-compacted p (some result) r n = ground arith

  compact_all-compacted :
      (ps : List Text) (r : Report) (w : s3.World)
      → (compact_all s3 tools cfg ps r w).0.compacted ≡ r.compacted + merges ps w
  unfolding compact_all
  compact_all-compacted [] r w = omega arith
  compact_all-compacted (p ∷ rest) r w =
      compact_all-compacted rest (add_result cfg p (run p w).0 r) (run p w).1
      ∙ add_result-compacted p (run p w).0 r (merges rest (run p w).1)

-- The paths of the days from the one before the clock's to `n` days before it.
abbrev pub past_days : Text → (ℕ → Day) → ℕ → List Text
past_days prefix days_ago zero = []
past_days prefix days_ago (suc n) =
    past_days prefix days_ago n ++ partition_path prefix (days_ago (suc n)) ∷ []

partitions_from-snoc :
    (prefix : Text) (days_ago : ℕ → Day) (i n : ℕ)
    → partitions_from prefix days_ago i (suc n)
      ≡ partitions_from prefix days_ago i n ++ partition_path prefix (days_ago (i + n)) ∷ []
unfolding partitions_from
partitions_from-snoc prefix days_ago i zero =
    ap (λ k. partition_path prefix (days_ago k) ∷ []) (omega arith)
partitions_from-snoc prefix days_ago i (suc n) =
    let later : i + 1 + n ≡ i + suc n = omega arith in
    ap (λ l. partition_path prefix (days_ago i) ∷ l)
      (partitions_from-snoc prefix days_ago (i + 1) n
        ∙ ap
            (λ k.
              partitions_from prefix days_ago (i + 1) n ++ partition_path prefix (days_ago k) ∷ [])
            later)

partitions_from-past_days :
    (prefix : Text) (days_ago : ℕ → Day) (n : ℕ)
    → partitions_from prefix days_ago 1 n ≡ past_days prefix days_ago n
unfolding partitions_from
partitions_from-past_days prefix days_ago zero = refl
partitions_from-past_days prefix days_ago (suc n) =
    let next : 1 + n ≡ suc n = omega arith in
    partitions_from-snoc prefix days_ago 1 n
    ∙ rw (partitions_from-past_days prefix days_ago n, next) refl

-- The response and the world of an invocation that has a bucket and a client.
pub record TriesAll (s3 : S3) (tools : Tools) (cfg : Config) (days_ago : ℕ → Day) (w : s3.World)
    (out : Response × s3.World) : Type 0 where
  pub world : out.1 ≡ each s3 tools cfg (past_days cfg.prefix days_ago cfg.lookback_days) w
  pub errors :
      out.0.0.errors ≡ failures s3 tools cfg (past_days cfg.prefix days_ago cfg.lookback_days) w
  pub compacted :
      out.0.0.compacted ≡ merges s3 tools cfg (past_days cfg.prefix days_ago cfg.lookback_days) w
  pub fails :
      (out.0.1 ≡ none)
      ↔ (failures s3 tools cfg (past_days cfg.prefix days_ago cfg.lookback_days) w ≡ [])

-- Where the environment names a bucket and the client has its configuration, the handler runs over
-- the partitions of the days from the one before the clock's to as many before it as the lookback
-- says, in this order and no others, whether or not the runs before failed: the bucket is that
-- behind all these runs, the report has the partitions whose runs failed and the count of those
-- that merged, and the handler returns no error exactly if no run failed.
pub handler-TriesAll :
    (s3 : S3) (tools : Tools) (env : Environment) (days_ago : ℕ → Day)
    (load_aws_config : Text → Option Text) (w : s3.World)
    → text_eq (load_config env).0.bucket [] ≡ false
    → load_aws_config (load_config env).0.region ≡ none
    → TriesAll s3 tools
        (load_config env).0
        days_ago
        w
        (handler s3 tools env days_ago load_aws_config w)
unfolding handler run_connected run_all partitions
handler-TriesAll s3 tools env days_ago load_aws_config w named connected =
    let cfg = (load_config env).0 in
    let ps = past_days cfg.prefix days_ago cfg.lookback_days in
    rw (named, connected, partitions_from-past_days cfg.prefix days_ago cfg.lookback_days)
      (record {
        world = compact_all-each s3 tools cfg ps no_report w;
        errors = compact_all-errors s3 tools cfg ps no_report w;
        compacted = compact_all-compacted s3 tools cfg ps no_report w ∙ (omega arith);
        fails =
            rw (compact_all-errors s3 tools cfg ps no_report w)
              (failure_of-none_iff (failures s3 tools cfg ps w));
      })
