-- ===== src/Integ/Tests.antt =====
-- scripts/verify-integ.ts against a small imitation of the services, in which all is well.
use cdk_log_to_s.Prelude.{
  ℕ, ◌+◌, ◌≤◌, Text, codes, text_eq, starts_with, Bool, true, false, not, List, [], ◌∷◌, map,
  Option, none, some, Result, ok, if◌then◌else◌, ◌≡◌, refl, arith,
}
use cdk_log_to_s.Integ.Services.{
  Services, Lawful, Request, Reply, Output, UtcDate, send, sleep, describe_stacks,
  start_query_execution, get_query_execution, get_query_results, invoke, list_objects, get_object,
  copy_object,
}
use cdk_log_to_s.Integ.Keys.{matches, is_digit, is_name_unit, key_pattern, key_test}
use cdk_log_to_s.Integ.Keys.Seeds.{IsDate}
use cdk_log_to_s.Integ.Program.{verify_integ}
use cdk_log_to_s.Integ.Termination.{verify_integ-exits}

-- The time, and whether the partition is compacted.
pub record Sky : Type 0 where
  pub time : ℕ
  pub compacted : Bool

abbrev output : Text → Text → Output
output key value = record { output_key = some key; output_value = some value }

abbrev stack : List Output
stack =
    output (codes "FunctionName") (codes "F")
    ∷ output (codes "CompactionFunctionName") (codes "C")
    ∷ output (codes "LogsBucketName") (codes "B")
    ∷ output (codes "KeyPrefix") (codes "logs/")
    ∷ output (codes "DatabaseName") (codes "D")
    ∷ output (codes "TableName") (codes "T")
    ∷ output (codes "WorkgroupName") (codes "W")
    ∷ []

abbrev object_key : Text
object_key = codes "logs/2026/01/02/a.parquet"

abbrev yesterday_keys : Bool → List (Option Text)
yesterday_keys true = some (codes "logs/2026/01/01/part-0.parquet") ∷ []
yesterday_keys false = some object_key ∷ some object_key ∷ some object_key ∷ some object_key ∷ []

abbrev pub row : List Text → Option (List (Option Text))
row texts = some (map some texts)

abbrev pub rows_of : Text → List (Option (List (Option Text)))
rows_of sql =
    if starts_with (codes "SELECT count") sql
    then row (codes "n" ∷ []) ∷ row (codes "7" ∷ []) ∷ []
    else row []
      ∷ row (codes "INFO" ∷ codes "app" ∷ [] ∷ codes "r" ∷ codes "integ-1" ∷ [] ∷ codes "at x" ∷ [])
      ∷ row (codes "ERROR" ∷ [] ∷ codes "a plain text line" ∷ [] ∷ [] ∷ [] ∷ [] ∷ [])
      ∷ []

abbrev is_compactor : Option Text → Bool
is_compactor none = false
is_compactor (some name) = text_eq name (codes "C")

unfoldable pub answer : (r : Request) → Sky → Result (Reply r) × Sky
unfolding Reply starts_with text_eq
answer (describe_stacks name) w = (ok (some (some stack ∷ [])), w)
answer (start_query_execution sql group) w = (ok (some sql), w)
answer (get_query_execution id) w =
    (ok (record { state = some (codes "SUCCEEDED"); state_change_reason = none }), w)
answer (get_query_results none) w = (ok none, w)
answer (get_query_results (some sql)) w = (ok (some (rows_of sql)), w)
answer (invoke name payload) w = (
  ok (record { status_code = some 200; function_error = none }),
  if is_compactor name then record w { compacted = true } else w,
)
answer (list_objects bucket prefix) w = (
  ok (
      some (
        if text_eq prefix (codes "logs/")
        then some object_key ∷ []
        else yesterday_keys w.compacted)),
  w,
)
answer (get_object bucket key) w = (ok (codes "PAR1..PAR1"), w)
answer (copy_object bucket source key) w = (ok tt, w)

abbrev pub calm : Services
calm = record {
  World = Sky;
  send = answer;
  now = λ w. w.time;
  sleep = λ ms w. record w { time = w.time + ms };
  utc = λ ms. record { full_year = 2026; month = 0; date = 1 };
  Num = Text;
  number = λ t. t;
  is_positive = λ t. not (text_eq t (codes "0"));
  strict_eq = text_eq;
  num_text = λ t. t;
}

pub calm_time : (r : Request) (w : Sky) → w.time ≤ (answer r w).1.time
unfolding answer
calm_time (invoke none payload) w = omega arith
calm_time (invoke (some name) payload) w = ground arith
calm_time (get_query_results none) w = omega arith
calm_time (get_query_results (some sql)) w = omega arith
calm_time (describe_stacks name) w = omega arith
calm_time (start_query_execution sql group) w = omega arith
calm_time (get_query_execution id) w = omega arith
calm_time (list_objects bucket prefix) w = omega arith
calm_time (get_object bucket key) w = omega arith
calm_time (copy_object bucket source key) w = omega arith

calm-Lawful : Lawful calm
calm-Lawful = record { send_now = λ r w. calm_time r w; sleep_now = λ ms w. omega arith }

abbrev pub dawn : Sky
dawn = record { time = 1767312000000; compacted = false }

verify_integ-exits_example :
    (code : ℕ) × ((verify_integ calm 62 none dawn).0 ≡ some code) × (code ≤ 1)
verify_integ-exits_example = verify_integ-exits calm calm-Lawful 62 none dawn (omega arith)

object_key_passes : key_test object_key ≡ true
unfolding key_test key_pattern matches is_digit is_name_unit
object_key_passes = refl

abbrev new_year : UtcDate
new_year = record { full_year = 2026; month = 0; date = 1 }

new_year-IsDate : IsDate new_year
new_year-IsDate = record {
  year_from = omega arith;
  year_to = omega arith;
  month_to = omega arith;
  date_to = omega arith;
}
