-- ===== src/Integ/Success.antt =====
-- Queries that succeed in time, in `runQuery` of scripts/verify-integ.ts.
pub mod Tests
use mathlib.Core.Option
use cdk_log_to_s.Prelude.{
  ℕ, zero, suc, ◌+◌, ◌*◌, ◌≤◌, ◌<◌, ltb, Text, codes, map, drop, List, [], ◌∷◌, Option, none, some,
  Bool, true, false, Bool-cases, inl, inr, Result, ok, ◌or_else◌, if◌then◌else◌, ◌≡◌, refl, ap, ◌∙◌,
  arith,
}
use cdk_log_to_s.Integ.Script.{Outcome, returned, State, pure, ◌>>=◌, ◌>>◌, proceed}
use cdk_log_to_s.Integ.Services.{
  Services, Lawful, Run, Reply, Execution, send, date_now, sleep, start_query_execution,
  get_query_execution, get_query_results,
}
use cdk_log_to_s.Integ.Query.{await_query, run_query, query_timeout_ms, cells}
use cdk_log_to_s.Integ.Rows.{is_text}

unfoldable pub status_request :
    (services : Services) → Option Text → services.World → Result Execution × services.World
unfolding Reply
status_request services id w = services.send (get_query_execution id) w

unfoldable pub start_request :
    (services : Services)
    → Text
    → Option Text
    → services.World
    → Result (Option Text) × services.World
unfolding Reply
start_request services sql workgroup w = services.send (start_query_execution sql workgroup) w

unfoldable pub results_request :
    (services : Services)
    → Option Text
    → services.World
    → Result (Option (List (Option (List (Option Text))))) × services.World
unfolding Reply
results_request services id w = services.send (get_query_results id) w

module _ (services : Services) where
  -- The status of a query: every request for it is answered, within so many milliseconds; it never
  -- is that the query failed or was cancelled, and from a time on it is that it succeeded.
  pub record SucceedsAt (id : Option Text) (time delay : ℕ) : Type 0 where
    pub status : services.World → Execution
    pub answered : (w : services.World) → (status_request services id w).0 ≡ ok (status w)
    pub soon :
        (w : services.World)
        → services.now (status_request services id w).1 ≤ services.now w + delay
    pub not_failed : (w : services.World) → is_text (status w).state (codes "FAILED") ≡ false
    pub not_cancelled : (w : services.World) → is_text (status w).state (codes "CANCELLED") ≡ false
    pub succeeded :
        (w : services.World)
        → time ≤ services.now w
        → is_text (status w).state (codes "SUCCEEDED") ≡ true

  -- The result of a query: a request for it, behind a status that is that it succeeded, is answered
  -- with these rows.
  abbrev pub HasRows :
      (id : Option Text) (time delay : ℕ)
      → SucceedsAt id time delay
      → Option (List (Option (List (Option Text))))
      → Type 0
  HasRows id time delay query rows =
      (w : services.World)
      → is_text (query.status w).state (codes "SUCCEEDED") ≡ true
      → (results_request services id (status_request services id w).1).0 ≡ ok rows

  module _ (laws : Lawful services) (id : Option Text) (time delay deadline : ℕ)
      (query : SucceedsAt id time delay) (in_time : time + delay ≤ deadline) where
    -- A query that has not succeeded is asked before its time.
    not_yet :
        (w : services.World)
        → is_text (query.status w).state (codes "SUCCEEDED") ≡ false
        → services.now w < time
    not_yet w e = elim (Bool-cases (ltb (services.now w) time)) [
      | inl before ↦ ground (arith, before)
      | inr after ↦ absurd (cc (e, query.succeeded w (ground (arith, after))))
    ]

    -- The loop returns, and its last request found that the query had succeeded.
    abbrev pub Awaited : Outcome (Unit {0}) × State services.World → Type 0
    Awaited r =
        (r.0 ≡ returned tt)
        × ((w : services.World) × (is_text (query.status w).state (codes "SUCCEEDED") ≡ true)
            × (r.1.world ≡ (status_request services id w).1))

    -- A turn: the query has succeeded, or there is a next turn two seconds later.
    await_query-step :
        (n : ℕ) (s : State services.World)
        → ((t : State services.World)
            → services.now s.world < time
            → services.now s.world + 2000 ≤ services.now t.world
            → Awaited (await_query services n id deadline t))
        → Awaited (await_query services (suc n) id deadline s)
    unfolding await_query status_request send Reply pure date_now sleep ◌>>=◌
    await_query-step n s again =
        elim (Bool-cases (is_text (query.status s.world).state (codes "SUCCEEDED"))) [
          | inl e ↦ rw (query.answered s.world, e) (refl, (s.world, e, refl))
          | inr e ↦
              let later = services.now (status_request services id s.world).1 in
              let early : ltb deadline later ≡ false =
                ground (arith, query.soon s.world, in_time, not_yet s.world e) in
              let sent : services.now s.world ≤ later =
                laws.send_now (get_query_execution id) s.world in
              let slept = laws.sleep_now 2000 (status_request services id s.world).1 in
              rw
                (
                  query.answered s.world,
                  e,
                  query.not_failed s.world,
                  query.not_cancelled s.world,
                  early,
                )
                (again _ (not_yet s.world e) (omega (arith, sent, slept)))
        ]

    await_query-Returns :
        (n : ℕ) (s : State services.World)
        → deadline < services.now s.world + 2000 * n
        → Awaited (await_query services (suc n) id deadline s)
    await_query-Returns zero s h =
        await_query-step zero s (λ t before le. absurd (omega (arith, h, before, in_time)))
    await_query-Returns (suc n) s h =
        await_query-step (suc n) s (λ t before le. await_query-Returns n t (omega (arith, h, le)))

    await_query-within :
        (fuel : ℕ) (s : State services.World)
        → 62 ≤ fuel
        → deadline ≤ services.now s.world + query_timeout_ms
        → Awaited (await_query services fuel id deadline s)
    await_query-within zero s h k = absurd (omega (arith, h))
    await_query-within (suc n) s h k = await_query-Returns n s (omega (arith, h, k))

  -- For services whose clock does not go back and whose timers do not fire early, and fuel for 62
  -- turns: if a query is accepted, its status is always answered within some delay, never is
  -- failed or cancelled and is succeeded from some time on, that time and the delay are within 120
  -- seconds after the start, and a request for the result behind an answer that the query
  -- succeeded is answered with some rows, then `runQuery` returns the cells of all these rows but
  -- the first.
  pub run_query-Returns :
      (laws : Lawful services) (fuel : ℕ) (sql : Text) (workgroup : Option Text)
      (s : State services.World) (id : Option Text) (time delay : ℕ)
      (rows : Option (List (Option (List (Option Text)))))
      → 62 ≤ fuel
      → (start_request services sql workgroup s.world).0 ≡ ok id
      → (query : SucceedsAt id time delay)
      → time + delay
        ≤ services.now (start_request services sql workgroup s.world).1 + query_timeout_ms
      → HasRows id time delay query rows
      → (run_query services fuel sql workgroup s).0
        ≡ returned (map cells (drop 1 (rows or_else [])))
  unfolding run_query send date_now pure start_request results_request Reply ◌>>=◌
  run_query-Returns laws fuel sql workgroup s id time delay rows enough started query in_time
        results =
      let w = (start_request services sql workgroup s.world).1 in
      let begun : State services.World = record s { world = w } in
      let deadline = services.now w + query_timeout_ms in
      let waited =
        await_query-within laws id time delay deadline query in_time fuel begun enough
          (omega arith) in
      let answered : (results_request services id
            (await_query services fuel id deadline begun).1.world).0
          ≡ ok rows =
        ap (λ v. (results_request services id v).0) waited.1.2 ∙ results waited.1.0 waited.1.1 in
      rw (started, waited.0, answered) refl
