-- ===== src/Integ/Termination.antt =====
-- The end of scripts/verify-integ.ts, statement by statement.
use cdk_log_to_s.Prelude.{
  ℕ, zero, suc, ◌+◌, ◌≤◌, Text, List, [], ◌∷◌, Option, none, some, ◌≡◌, refl, arith,
}
use cdk_log_to_s.Integ.Script.{Outcome, returned, thrown, exited, unfinished, State}
use cdk_log_to_s.Integ.Services.{Services, Lawful, Reply, copy_object}
use cdk_log_to_s.Integ.Query.{stack_outputs, outputs, run_query}
use cdk_log_to_s.Integ.Sections.{
  invoke_function, check_keys, check_layout, inspect_object, check_columns, check_rows,
}
use cdk_log_to_s.Integ.Program.{
  copy_seed, seed_copies, count_rows, listed, invoke_compaction, check_compacted, compact_partition,
  conclude, failed_checks, write_and_find, main, exit_code, verify_integ,
}
use cdk_log_to_s.Integ.Settles.{
  IsFinal, Later-refl, Settles, Settles-bind, Settles-pure, Settles-throw, Settles-send,
  settles_rules,
}
use cdk_log_to_s.Integ.Deadlines.{
  From-Settles, From-now, From-bind, await_keys-within, Settles-From, run_query-From,
}

module _ (services : Services) (laws : Lawful services) where
  -- From whatever state, with fuel for 62 turns a query comes to an end: it returns rows or throws.
  pub run_query-Settles :
      (fuel : ℕ) (sql : Text) (workgroup : Option Text)
      → 62 ≤ fuel
      → Settles services (run_query services fuel sql workgroup)
  run_query-Settles fuel sql workgroup h =
      Settles-From services laws (run_query services fuel sql workgroup)
        (run_query-From services laws fuel sql workgroup h)

  stack_outputs-Settles :
      (name : Text) (stack : _) → Settles services (stack_outputs services name stack)
  unfolding stack_outputs
  stack_outputs-Settles name none = Settles-throw services _
  stack_outputs-Settles name (some stack) = Settles-pure services _

  pub outputs-Settles : (name : Text) → Settles services (outputs services name)
  unfolding outputs Reply
  outputs-Settles name = search (stack_outputs-Settles, settles_rules)

  invoke_function-Settles :
      (out : List (Text × Text)) (marker : Text)
      → Settles services (invoke_function services out marker)
  unfolding invoke_function Reply
  invoke_function-Settles out marker = search settles_rules

  check_layout-Settles : (keys : List Text) → Settles services (check_layout services keys)
  unfolding check_layout
  check_layout-Settles keys = search settles_rules

  check_keys-Settles :
      (prefix : Text) (keys : List Text) → Settles services (check_keys services prefix keys)
  unfolding check_keys
  check_keys-Settles prefix keys = search (check_layout-Settles, settles_rules)

  pub inspect_object-Settles :
      (bucket : Option Text) (keys : List Text)
      → Settles services (inspect_object services bucket keys)
  unfolding inspect_object Reply
  inspect_object-Settles bucket [] = search settles_rules
  inspect_object-Settles bucket (key ∷ keys) = search settles_rules

  check_columns-Settles : (rows : List (List Text)) → Settles services (check_columns services rows)
  unfolding check_columns
  check_columns-Settles rows = search settles_rules depth 12

  pub check_rows-Settles : (rows : List (List Text)) → Settles services (check_rows services rows)
  unfolding check_rows
  check_rows-Settles rows = search (check_columns-Settles, settles_rules)

  pub write_and_find-Settles :
      (fuel : ℕ) (out : List (Text × Text)) (marker prefix : Text)
      → 62 ≤ fuel
      → Settles services (write_and_find services fuel out marker prefix)
  unfolding write_and_find
  write_and_find-Settles fuel out marker prefix h = Settles-From services laws _ (
      search
        (
          From-bind, From-now, From-Settles, await_keys-within, invoke_function-Settles,
          check_keys-Settles, inspect_object-Settles, settles_rules,
        )
        depth 14)

  copy_seed-Settles :
      (bucket : Option Text) (y_prefix source name : Text)
      → Settles services (copy_seed services bucket y_prefix source name)
  unfolding copy_seed Reply
  copy_seed-Settles bucket y_prefix source name =
      Settles-send services laws (copy_object bucket _ _)

  pub seed_copies-Settles :
      (left i : ℕ) (bucket : Option Text) (y_prefix : Text) (keys : List Text)
      → Settles services (seed_copies services left i bucket y_prefix keys)
  unfolding seed_copies
  seed_copies-Settles zero i bucket y_prefix keys = Settles-pure services []
  seed_copies-Settles (suc left) i bucket y_prefix [] = Settles-pure services []
  seed_copies-Settles (suc left) i bucket y_prefix (key ∷ keys) =
      Settles-bind services (copy_seed services bucket y_prefix _ _) _
        (copy_seed-Settles bucket y_prefix _ _)
        (λ _.
          Settles-bind services (seed_copies services left (i + 1) bucket y_prefix (key ∷ keys)) _
            (seed_copies-Settles left (i + 1) bucket y_prefix (key ∷ keys))
            (λ seeded. Settles-pure services _))

  pub count_rows-Settles :
      (fuel : ℕ) (sql : Text) (workgroup : Option Text)
      → 62 ≤ fuel
      → Settles services (count_rows services fuel sql workgroup)
  unfolding count_rows
  count_rows-Settles fuel sql workgroup h = search (run_query-Settles, settles_rules)

  pub listed-Settles :
      (bucket : Option Text) (prefix : Text) → Settles services (listed services bucket prefix)
  unfolding listed Reply
  listed-Settles bucket prefix = search settles_rules

  pub invoke_compaction-Settles :
      (out : List (Text × Text)) → Settles services (invoke_compaction services out)
  unfolding invoke_compaction Reply
  invoke_compaction-Settles out = search settles_rules

  pub check_compacted-Settles :
      (n : ℕ) (after_keys : List (Option Text))
      → Settles services (check_compacted services n after_keys)
  unfolding check_compacted
  check_compacted-Settles n after_keys = search settles_rules depth 9

  failed_checks-Settles : Settles services (failed_checks services)
  unfolding failed_checks
  failed_checks-Settles = record {
    at = λ s. record { finished = tt; later = Later-refl services s };
  }

  pub conclude-Settles : Settles services (conclude services)
  unfolding conclude
  conclude-Settles = search (failed_checks-Settles, settles_rules) depth 9

  pub compact_partition-Settles :
      (fuel : ℕ) (out : List (Text × Text)) (y_prefix y_dt : Text) (keys : List Text)
      → 62 ≤ fuel
      → Settles services (compact_partition services fuel out y_prefix y_dt keys)
  unfolding compact_partition
  compact_partition-Settles fuel out y_prefix y_dt keys h =
      search
        (
          seed_copies-Settles, listed-Settles, count_rows-Settles, invoke_compaction-Settles,
          check_compacted-Settles, settles_rules,
        )
        depth 20

  pub main-Settles :
      (fuel : ℕ) (name : Text) → 62 ≤ fuel → Settles services (main services fuel name)
  unfolding main
  main-Settles fuel name h =
      search
        (
          outputs-Settles, write_and_find-Settles, run_query-Settles, check_rows-Settles,
          compact_partition-Settles, conclude-Settles, settles_rules,
        )
        depth 20

  exit_code-some :
      (r : Outcome (Unit {0}) × State services.World)
      → IsFinal r.0
      → (code : ℕ) × ((exit_code services r).0 ≡ some code) × (code ≤ 1)
  unfolding exit_code
  exit_code-some (returned _, s) h = (0, refl, omega arith)
  exit_code-some (exited code, s) h = (code, refl, omega (arith, h))
  exit_code-some (thrown message, s) h = (1, refl, omega arith)
  exit_code-some (unfinished, s) h = absurd h

  -- For services whose clock does not go back and whose timers do not fire early: with fuel for 62
  -- turns of a loop the script comes to an end, whatever the services answer, and its exit code is
  -- 0 or 1.
  pub verify_integ-exits :
      (fuel : ℕ) (name : Option Text) (w : services.World)
      → 62 ≤ fuel
      → (code : ℕ) × ((verify_integ services fuel name w).0 ≡ some code) × (code ≤ 1)
  unfolding verify_integ
  verify_integ-exits fuel name w h = exit_code-some _ ((main-Settles fuel _ h).at _).finished
