-- ===== src/Integ/Program.antt =====
-- The rest of `main` of scripts/verify-integ.ts, the compaction of section 5, and the call of
-- `main` with its `catch`.
use cdk_log_to_s.Prelude.{
  ℕ, zero, suc, ◌+◌, ◌-◌, ◌/◌, ◌%◌, ◌==◌, Text, codes, number_text, ltb, leb, Bool, not, List, [],
  ◌∷◌, ◌++◌, map, length, get_or, Option, none, some, ◌or_else◌, if◌then◌else◌,
}
use cdk_log_to_s.Integ.Script.{
  Outcome, returned, thrown, exited, unfinished, log, error, State, pure, print, exit, check, ◌>>=◌,
  ◌>>◌,
}
use cdk_log_to_s.Integ.Services.{
  Services, Run, Reply, UtcDate, send, date_now, invoke, list_objects, copy_object,
}
use cdk_log_to_s.Integ.Keys.{seed_name, pad_start_2}
use cdk_log_to_s.Integ.Query.{member, outputs, run_query}
use cdk_log_to_s.Integ.Rows.{
  falsy_or, shown, succeeded, join, some_of, every_of, is_part, is_manifest,
}
use cdk_log_to_s.Integ.Sections.{
  is_empty, tested, invoke_function, await_keys, object_timeout_ms, check_keys, inspect_object,
  check_rows,
}

-- A digit of `toString(36)`.
unfoldable pub digit_36 : ℕ → ℕ
digit_36 d = if ltb d 10 then 48 + d else 87 + d

unfoldable pub digits_36 : ℕ → ℕ → Text → Text
digits_36 zero n acc = acc
digits_36 (suc fuel) n acc =
    let more = digits_36 fuel (n / 36) (digit_36 (n % 36) ∷ acc) in
    if n / 36 == 0 then digit_36 (n % 36) ∷ acc else more

-- The marker of a run that begins at that time.
unfoldable pub marker_at : ℕ → Text
marker_at now = b'm' ∷ digits_36 (suc now) now []

-- `${y}/${m}/${d}`, as for today and for yesterday.
unfoldable pub date_path : UtcDate → Text
date_path d =
    number_text d.full_year
    ++ (codes "/"
        ++ (pad_start_2 (number_text (d.month + 1))
            ++ (codes "/" ++ pad_start_2 (number_text d.date))))

unfoldable pub marker_sql : List (Text × Text) → Text → Text → Text
marker_sql out dt marker =
    codes
      "SELECT level, source, message, request_id, correlation_id, context, stack_trace, caller\n"
    ++ codes "    FROM \""
    ++ shown (member (codes "DatabaseName") out)
    ++ codes "\".\""
    ++ shown (member (codes "TableName") out)
    ++ codes "\"\n    WHERE dt = '"
    ++ dt
    ++ codes "'\n      AND message LIKE '%"
    ++ marker
    ++ codes "%'\n    LIMIT 50"

unfoldable pub count_sql : List (Text × Text) → Text → Text
count_sql out dt =
    codes "SELECT count(*) AS n FROM \""
    ++ shown (member (codes "DatabaseName") out)
    ++ codes "\".\""
    ++ shown (member (codes "TableName") out)
    ++ codes "\" WHERE dt = '"
    ++ dt
    ++ codes "'"

-- `rows[0]?.[0] ?? 0` before `Number`, where the number 0 and the text "0" give the same.
unfoldable pub count_text : List (List Text) → Text
count_text ((n ∷ _) ∷ _) = n
count_text _ = codes "0"

-- What section 5 compares.
pub record Compacted (services : Services) : Type 0 where
  pub seeded : List Text
  pub before_count : ℕ
  pub rows_before : services.Num
  pub compacted : Bool
  pub after_keys : List (Option Text)
  pub rows_after : services.Num

module _ (services : Services) where
  unfoldable pub copy_seed : Option Text → (y_prefix source name : Text) → Run services (Unit {0})
  unfolding Reply
  copy_seed bucket y_prefix source name =
      send services (copy_object bucket (shown bucket ++ codes "/" ++ source) (y_prefix ++ name))

  -- The loop over `i`, `left` times from `i` on.
  unfoldable pub seed_copies :
      (left i : ℕ) → Option Text → (y_prefix : Text) → List Text → Run services (List Text)
  seed_copies zero i bucket y_prefix keys = pure []
  seed_copies (suc left) i bucket y_prefix [] = pure []
  seed_copies (suc left) i bucket y_prefix (key ∷ keys) = do
    let source = get_or (key ∷ keys) (i % length (key ∷ keys)) []
    let name = seed_name source i
    copy_seed bucket y_prefix source name
    seeded ← seed_copies left (i + 1) bucket y_prefix (key ∷ keys)
    pure (name ∷ seeded)

  unfoldable pub count_rows : ℕ → Text → Option Text → Run services services.Num
  count_rows fuel sql workgroup = do
    rows ← run_query services fuel sql workgroup
    pure (services.number (count_text rows))

  unfoldable pub listed : Option Text → Text → Run services (List (Option Text))
  unfolding Reply
  listed bucket prefix = do
    contents ← send services (list_objects bucket prefix)
    pure (contents or_else [])

  unfoldable pub invoke_compaction : List (Text × Text) → Run services Bool
  unfolding Reply
  invoke_compaction out = do
    compacted ← send services (invoke (member (codes "CompactionFunctionName") out) (codes "{}"))
    check (succeeded compacted) (codes "compaction ran without error") compacted.function_error
    pure (succeeded compacted)

  -- The last checks.
  unfoldable pub check_compacted : ℕ → List (Option Text) → Run services (Unit {0})
  check_compacted before_count after_keys = do
    check (ltb (length after_keys) before_count) (codes "compaction reduced the file count")
        (some (number_text before_count ++ codes " -> " ++ number_text (length after_keys)))
    parts ← tested services (every_of is_part after_keys)
    check parts (codes "only merged part- files remain")
        (some (join (codes ", ") (map (λ k. k or_else []) after_keys)))
    manifests ← tested services (some_of is_manifest after_keys)
    check (not manifests) (codes "no manifest was left behind") none

  -- Section 5, and what it compares.
  unfoldable pub compact_partition :
      ℕ
      → List (Text × Text)
      → (y_prefix y_dt : Text) → List Text
      → Run services (Compacted services)
  compact_partition fuel out y_prefix y_dt keys = do
    let bucket = member (codes "LogsBucketName") out
    let workgroup = member (codes "WorkgroupName") out
    let sql = count_sql out y_dt
    seeded ← seed_copies 4 0 bucket y_prefix keys
    check (leb 2 (length seeded)) (codes "seeded a closed partition to compact")
        (some (number_text (length seeded) ++ codes " objects"))
    before ← listed bucket y_prefix
    rows_before ← count_rows fuel sql workgroup
    check (services.is_positive rows_before) (codes "Athena reads the partition before compaction")
        (some (codes "rows: " ++ services.num_text rows_before))
    compacted ← invoke_compaction out
    after_keys ← listed bucket y_prefix
    check_compacted (length before) after_keys
    rows_after ← count_rows fuel sql workgroup
    check (services.strict_eq rows_after rows_before) (codes "compaction preserved every row")
        (some (services.num_text rows_before ++ codes " -> " ++ services.num_text rows_after))
    pure (record {
      seeded = seeded;
      before_count = length before;
      rows_before = rows_before;
      compacted = compacted;
      after_keys = after_keys;
      rows_after = rows_after;
    })

  unfoldable pub failed_checks : Run services (List Text)
  failed_checks s = (returned s.failures, s)

  -- The end of `main`.
  unfoldable pub conclude : Run services (Unit {0})
  conclude = do
    print (log [])
    failures ← failed_checks
    if not (is_empty failures)
        then (print (error (number_text (length failures) ++ codes " check(s) failed.")) >> exit 1)
        else pure tt
    print (log (codes "All checks passed."))

  -- Sections 1 to 3: the keys that were found.
  unfoldable pub write_and_find :
      ℕ → List (Text × Text) → (marker prefix : Text) → Run services (List Text)
  write_and_find fuel out marker prefix = do
    let bucket = member (codes "LogsBucketName") out
    print (log (codes "1. invoke the function"))
    invoke_function services out marker
    print (log (codes "\n2. wait for a Parquet object in S3"))
    now ← date_now services
    keys ← await_keys services fuel bucket prefix (now + object_timeout_ms) []
    check_keys services prefix keys
    print (log (codes "\n3. inspect the object"))
    inspect_object services bucket keys
    pure keys

  unfoldable pub main : ℕ → Text → Run services (Unit {0})
  main fuel stack_name = do
    out ← outputs services stack_name
    start ← date_now services
    let marker = marker_at start
    let prefix = falsy_or (member (codes "KeyPrefix") out) (codes "logs/")
    print (log (codes "Stack " ++ stack_name ++ codes ", marker " ++ marker ++ codes "\n"))
    keys ← write_and_find fuel out marker prefix
    print (log (codes "\n4. query through partition projection"))
    now ← date_now services
    rows ←
        run_query services fuel (marker_sql out (date_path (services.utc now)) marker)
          (member (codes "WorkgroupName") out)
    check_rows services rows
    print (log (codes "\n5. compact a closed partition"))
    let y_dt = date_path (services.utc (now - 86400000))
    compact_partition fuel out (prefix ++ (y_dt ++ codes "/")) y_dt keys
    conclude

  -- The code that the process ends with; none if the fuel of a loop was not enough.
  unfoldable pub exit_code :
      Outcome (Unit {0}) × State services.World → Option ℕ × State services.World
  exit_code (returned _, s) = (some 0, s)
  exit_code (exited code, s) = (some code, s)
  exit_code (thrown message, s) = (some 1, record s { printed = s.printed ++ error message ∷ [] })
  exit_code (unfinished, s) = (none, s)

  -- `main().catch(…)`, with the variable INTEG_STACK_NAME.
  unfoldable pub verify_integ : ℕ → Option Text → services.World → Option ℕ × State services.World
  verify_integ fuel name w = exit_code (
      main fuel (name or_else codes "LogToS3Integ")
        (record { world = w; failures = []; printed = [] }))
