-- ===== src/Integ/Success/Tests.antt =====
-- A query of scripts/verify-integ.ts that takes some time.
use cdk_log_to_s.Prelude.{
  ℕ, ◌≤◌, ltb, Text, codes, text_eq, map, drop, true, false, [], none, some, Bool-cases, inl, inr,
  Result, ok, throws, if◌then◌else◌, ◌≡◌, refl, arith,
}
use cdk_log_to_s.Integ.Script.{returned}
use cdk_log_to_s.Integ.Services.{
  Services, Lawful, Request, Reply, describe_stacks, start_query_execution, get_query_execution,
  get_query_results, invoke, list_objects, get_object, copy_object,
}
use cdk_log_to_s.Integ.Query.{run_query, cells}
use cdk_log_to_s.Integ.Rows.{is_text}
use cdk_log_to_s.Integ.Tests.{Sky, answer, calm, calm_time, dawn, rows_of}
use cdk_log_to_s.Integ.Success.{
  SucceedsAt, HasRows, status_request, start_request, results_request, run_query-Returns,
}

-- A query that has run for five seconds.
abbrev state_at : ℕ → Text
state_at time = if ltb time 5000 then codes "RUNNING" else codes "SUCCEEDED"

unfoldable slow_answer : (r : Request) → Sky → Result (Reply r) × Sky
unfolding Reply
slow_answer (get_query_execution id) w =
    (ok (record { state = some (state_at w.time); state_change_reason = none }), w)
slow_answer (get_query_results id) w =
    if ltb w.time 5000 then (throws (codes "not finished"), w) else answer (get_query_results id) w
slow_answer r w = answer r w

slow_time : (r : Request) (w : Sky) → w.time ≤ (slow_answer r w).1.time
unfolding slow_answer answer
slow_time (get_query_execution id) w = omega arith
slow_time (get_query_results id) w = elim (Bool-cases (ltb w.time 5000)) [
  | inl e ↦ rw e (omega arith)
  | inr e ↦ rw e (calm_time (get_query_results id) w)
]
slow_time (invoke name payload) w = calm_time (invoke name payload) w
slow_time (describe_stacks name) w = omega arith
slow_time (start_query_execution sql group) w = omega arith
slow_time (list_objects bucket prefix) w = omega arith
slow_time (get_object bucket key) w = omega arith
slow_time (copy_object bucket source key) w = omega arith

abbrev slow : Services
slow = record calm { send = slow_answer }

slow-Lawful : Lawful slow
slow-Lawful = record { send_now = λ r w. slow_time r w; sleep_now = λ ms w. omega arith }

abbrev sql : Text
sql = codes "SELECT count(*)"

running-not :
    (time : ℕ) (name : Text)
    → text_eq (codes "RUNNING") name ≡ false
    → text_eq (codes "SUCCEEDED") name ≡ false
    → is_text (some (state_at time)) name ≡ false
unfolding is_text
running-not time name h k = elim (Bool-cases (ltb time 5000)) [
  | inl e ↦ rw (e, h)
  | inr e ↦ rw (e, k)
]

done : (time : ℕ) → 5000 ≤ time → is_text (some (state_at time)) (codes "SUCCEEDED") ≡ true
unfolding is_text text_eq
done time h = let late : ltb time 5000 ≡ false = ground (arith, h) in rw late

slow-SucceedsAt : SucceedsAt slow (some sql) 5000 0
unfolding status_request slow_answer text_eq
slow-SucceedsAt = record {
  status = λ w. record { state = some (state_at w.time); state_change_reason = none };
  answered = λ w. refl;
  soon = λ w. omega arith;
  not_failed = λ w. running-not w.time (codes "FAILED") refl refl;
  not_cancelled = λ w. running-not w.time (codes "CANCELLED") refl refl;
  succeeded = λ w h. done w.time h;
}

start_slow : (start_request slow sql none dawn).0 ≡ ok (some sql)
unfolding start_request slow_answer answer
start_slow = refl

results_slow : HasRows slow (some sql) 5000 0 slow-SucceedsAt (some (rows_of sql))
unfolding results_request status_request slow_answer answer slow-SucceedsAt is_text text_eq
results_slow w h = elim (Bool-cases (ltb w.time 5000)) [
  | inl e ↦ absurd (cc (rw e at h))
  | inr e ↦ rw e refl
]

run_query-Returns_example :
    (run_query slow 62 sql none (record { world = dawn; failures = []; printed = [] })).0
    ≡ returned (map cells (drop 1 (rows_of sql)))
run_query-Returns_example =
    run_query-Returns slow slow-Lawful 62 sql none
      (record { world = dawn; failures = []; printed = [] }) (some sql) 5000 0 (some (rows_of sql))
      (omega arith) start_slow slow-SucceedsAt (omega arith) results_slow
