-- ===== src/Integ/Query.antt =====
-- `outputs` and `runQuery` of scripts/verify-integ.ts. The endless loop of `runQuery` is recursion
-- on fuel.
use cdk_log_to_s.Prelude.{
  ℕ, zero, suc, ◌+◌, Text, codes, number_text, text_eq, ltb, ◌||◌, List, [], ◌∷◌, ◌++◌, map, drop,
  Option, none, some, ◌or_else◌, if◌then◌else◌,
}
use cdk_log_to_s.Integ.Script.{pure, throw, out_of_fuel, ◌>>=◌, ◌>>◌}
use cdk_log_to_s.Integ.Rows.{is_text}
use cdk_log_to_s.Integ.Services.{
  Services, Run, send, date_now, sleep, Output, describe_stacks, start_query_execution,
  get_query_execution, get_query_results, Reply,
}

-- `map[key] = value` on an object whose keys are texts.
unfoldable pub assign : Text → Text → List (Text × Text) → List (Text × Text)
assign key value [] = (key, value) ∷ []
assign key value ((k, v) ∷ m) =
    if text_eq k key then (k, value) ∷ m else (k, v) ∷ assign key value m

-- `map[key]`
unfoldable pub member : Text → List (Text × Text) → Option Text
member key [] = none
member key ((k, v) ∷ m) = if text_eq k key then some v else member key m

-- `if (o.OutputKey && o.OutputValue) map[o.OutputKey] = o.OutputValue`
unfoldable pub add_output : Option Text → Option Text → List (Text × Text) → List (Text × Text)
add_output (some (c ∷ key)) (some (d ∷ value)) m = assign (c ∷ key) (d ∷ value) m
add_output _ _ m = m

unfoldable pub add_outputs : List Output → List (Text × Text) → List (Text × Text)
add_outputs [] m = m
add_outputs (o ∷ outputs) m = add_outputs outputs (add_output o.output_key o.output_value m)

-- `a?.[0]`
unfoldable pub first : {A : Type 0} → Option (List A) → Option A
first (some (a ∷ _)) = some a
first _ = none

-- `(row.Data ?? []).map((d) => d.VarCharValue ?? '')`
unfoldable pub cells : Option (List (Option Text)) → List Text
cells data_cells = map (λ c. c or_else []) (data_cells or_else [])

abbrev pub query_timeout_ms : ℕ
query_timeout_ms = 120000

module _ (services : Services) where
  -- `if (!stack) throw …`, and the map of the outputs.
  unfoldable pub stack_outputs :
      Text → Option (Option (List Output)) → Run services (List (Text × Text))
  stack_outputs stack_name none =
      throw (codes "Stack " ++ stack_name ++ codes " not found. Run: npx projen integ:deploy")
  stack_outputs stack_name (some outputs) = pure (add_outputs (outputs or_else []) [])

  unfoldable pub outputs : Text → Run services (List (Text × Text))
  unfolding Reply
  outputs stack_name = do
    stacks ← send services (describe_stacks stack_name)
    stack_outputs stack_name (first stacks)

  -- The loop, with the fuel, until the query has succeeded.
  unfoldable pub await_query : ℕ → Option Text → (deadline : ℕ) → Run services (Unit {0})
  unfolding Reply
  await_query zero id deadline = out_of_fuel
  await_query (suc fuel) id deadline = do
    execution ← send services (get_query_execution id)
    if is_text execution.state (codes "SUCCEEDED")
        then pure tt
        else if is_text execution.state (codes "FAILED")
            || is_text execution.state (codes "CANCELLED")
        then throw (
            codes "Athena query "
            ++ (execution.state or_else [])
            ++ codes ": "
            ++ (execution.state_change_reason or_else codes "no reason given"))
        else (do
          now ← date_now services
          if ltb deadline now
              then throw (
                  codes "Athena query timed out after "
                  ++ number_text query_timeout_ms
                  ++ codes " ms")
              else (sleep services 2000 >> await_query fuel id deadline))

  unfoldable pub run_query : ℕ → Text → Option Text → Run services (List (List Text))
  unfolding Reply
  run_query fuel sql workgroup = do
    id ← send services (start_query_execution sql workgroup)
    now ← date_now services
    await_query fuel id (now + query_timeout_ms)
    rows ← send services (get_query_results id)
    pure (map cells (drop 1 (rows or_else [])))
