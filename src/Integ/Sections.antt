-- ===== src/Integ/Sections.antt =====
-- The sections 1 to 3 of `main` of scripts/verify-integ.ts, and what section 4 does with the rows.
-- The loop that waits for an object is recursion on fuel.
use cdk_log_to_s.Prelude.{
  ℕ, zero, suc, Text, codes, ltb, not, ◌&&◌, List, [], ◌∷◌, ◌++◌, any, take, Option, none, some,
  Bool, true, false, Result, throws, ok, ◌or_else◌, if◌then◌else◌,
}
use cdk_log_to_s.Integ.Script.{pure, throw, out_of_fuel, check, ◌>>=◌, ◌>>◌}
use cdk_log_to_s.Integ.Services.{
  Services, Run, Reply, send, date_now, sleep, invoke, list_objects, get_object,
}
use cdk_log_to_s.Integ.Keys.{key_test, includes}
use cdk_log_to_s.Integ.Query.{member}
use cdk_log_to_s.Integ.Rows.{
  succeeded, present, join, some_of, is_parquet, has_level, is_filled, has_integ_id, is_plain_text,
}

-- `keys.filter((k) => !KEY_PATTERN.test(k))`
unfoldable pub bad_keys : List Text → List Text
bad_keys [] = []
bad_keys (k ∷ keys) = if key_test k then bad_keys keys else k ∷ bad_keys keys

abbrev pub is_empty : {A : Type 0} → List A → Bool
is_empty [] = true
is_empty (x ∷ xs) = false

abbrev pub object_timeout_ms : ℕ
object_timeout_ms = 90000

module _ (services : Services) where
  -- What a test that may throw gives.
  unfoldable pub tested : Result Bool → Run services Bool
  tested (ok b) = pure b
  tested (throws message) = throw message

  unfoldable pub invoke_function : List (Text × Text) → Text → Run services (Unit {0})
  unfolding Reply
  invoke_function out marker = do
    invoked ← send services (
        invoke (member (codes "FunctionName") out)
          (codes "{\"marker\":\"" ++ marker ++ codes "\"}"))
    check (succeeded invoked) (codes "function invoked without error") none

  -- The loop, with the fuel, from the keys that the last listing gave.
  unfoldable pub await_keys :
      ℕ → Option Text → Text → (deadline : ℕ) → List Text → Run services (List Text)
  unfolding Reply
  await_keys zero bucket prefix deadline keys = out_of_fuel
  await_keys (suc fuel) bucket prefix deadline keys = do
    now ← date_now services
    if not (ltb now deadline) then pure keys else (do
      contents ← send services (list_objects bucket prefix)
      let found = present (contents or_else [])
      if not (is_empty found)
          then pure found
          else (sleep services 3000 >> await_keys fuel bucket prefix deadline found))

  unfoldable pub check_layout : List Text → Run services (Unit {0})
  check_layout keys = do
    let bad = bad_keys keys
    check (is_empty bad) (codes "every key is flat inside its day partition")
        (some (join (codes "\n        ") (take 3 bad)))
    check (not (any (includes (codes "/extension/")) keys))
        (codes "no extension/ segment below the partitions") none

  unfoldable pub check_keys : Text → List Text → Run services (Unit {0})
  check_keys prefix keys = do
    check (not (is_empty keys)) (codes "at least one object was written")
        (some (codes "prefix " ++ prefix))
    if is_empty keys then pure tt else check_layout keys

  unfoldable pub inspect_object : Option Text → List Text → Run services (Unit {0})
  unfolding Reply
  inspect_object bucket [] = pure tt
  inspect_object bucket (key ∷ keys) = do
    body ← send services (get_object bucket key)
    check (is_parquet body) (codes "the object is a Parquet file") none

  unfoldable pub check_columns : List (List Text) → Run services (Unit {0})
  check_columns rows = do
    check (has_level (codes "INFO") rows && has_level (codes "ERROR") rows)
        (codes "structured levels survived the round trip") none
    check (any (is_filled 3) rows) (codes "request_id was recovered from the runtime log prefix")
        none
    correlated ← tested (some_of has_integ_id rows)
    check correlated (codes "correlation_id survived the round trip") none
    check (any (is_filled 6) rows) (codes "stack_trace landed in its own column") none
    plain ← tested (some_of is_plain_text rows)
    check plain (codes "a non-structured line was kept as plain text") none

  unfoldable pub check_rows : List (List Text) → Run services (Unit {0})
  check_rows rows = do
    check (not (is_empty rows)) (codes "Athena returned rows for this run")
        (some (codes "partition projection did not resolve"))
    if is_empty rows then pure tt else check_columns rows
