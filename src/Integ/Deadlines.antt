-- ===== src/Integ/Deadlines.antt =====
-- The two loops of scripts/verify-integ.ts that wait, from a time on: each turn waits for seconds,
-- and the deadline is a fixed time after the start.
use cdk_log_to_s.Prelude.{
  ℕ, zero, suc, ◌+◌, ◌*◌, ◌≤◌, ◌<◌, Text, ltb, not, List, Option, Bool, true, false, if◌then◌else◌,
  ◌≡◌, refl, arith,
}
use cdk_log_to_s.Integ.Script.{State, ◌>>=◌, ◌>>◌}
use cdk_log_to_s.Integ.Services.{Services, Lawful, Run, date_now, sleep}
use cdk_log_to_s.Integ.Query.{await_query, run_query, query_timeout_ms}
use cdk_log_to_s.Integ.Sections.{await_keys, object_timeout_ms}
use cdk_log_to_s.Integ.Settles.{Ends, Settles, Ends-bind, Settles-sleep, settles_rules}

module _ (services : Services) (laws : Lawful services) where
  -- From every state that is no earlier the statement ends, later.
  pub record From (earliest : ℕ) {A : Type 0} (m : Run services A) : Type 0 where
    pub at : (s : State services.World) → earliest ≤ services.now s.world → Ends services s (m s)

  module _ {A : Type 0} where
    pub From-Settles : (t : ℕ) (m : Run services A) → Settles services m → From t m
    From-Settles t m h = record { at = λ s _. h.at s }

    pub From-if :
        (t : ℕ) (b : Bool) (m n : Run services A)
        → (b ≡ true → From t m)
        → (b ≡ false → From t n)
        → From t (if b then m else n)
    From-if t true m n km kn = km refl
    From-if t false m n km kn = kn refl

    pub From-now :
        (t : ℕ) (next : ℕ → Run services A)
        → ((now : ℕ) → t ≤ now → From now (next now))
        → From t (date_now services >>= next)
    unfolding ◌>>=◌ date_now
    From-now t next k = record { at = λ s h. (k (services.now s.world) h).at s (omega arith) }

    From-sleep : (t ms : ℕ) (m : Run services A) → From (t + ms) m → From t (sleep services ms >> m)
    unfolding sleep
    From-sleep t ms m k = record {
      at = λ s h.
          Ends-bind services (sleep services ms) (λ _. m) s ((Settles-sleep services laws ms).at s)
            (λ _. k.at _ (omega (arith, laws.sleep_now ms s.world)));
    }

  module _ {A B : Type 0} where
    pub From-bind :
        (t : ℕ) (m : Run services A) (next : A → Run services B)
        → From t m
        → ((a : A) → From t (next a))
        → From t (m >>= next)
    From-bind t m next km kn = record {
      at = λ s h.
          let first_part = km.at s h in
          Ends-bind services m next s first_part
            (λ a. (kn a).at (m s).1 (omega (arith, first_part.later.clock)));
    }

  -- A turn of the loop of `runQuery`.
  await_query-turn :
      (n : ℕ) (id : Option Text) (t deadline : ℕ)
      → ((now : ℕ)
          → t ≤ now
          → ltb deadline now ≡ false
          → From (now + 2000) (await_query services n id deadline))
      → From t (await_query services (suc n) id deadline)
  unfolding await_query
  await_query-turn n id t deadline again =
      search (From-bind, From-if, From-now, From-sleep, From-Settles, again, settles_rules) depth 12

  -- Each turn takes two seconds.
  await_query-From :
      (n : ℕ) (id : Option Text) (t deadline : ℕ)
      → deadline < t + 2000 * n
      → From t (await_query services (suc n) id deadline)
  await_query-From zero id t deadline h =
      await_query-turn zero id t deadline (λ now le early. absurd (ground (arith, early, h, le)))
  await_query-From (suc n) id t deadline h =
      await_query-turn (suc n) id t deadline
        (λ now le early. await_query-From n id (now + 2000) deadline (omega (arith, h, le)))

  in_time : (now deadline : ℕ) → not (ltb now deadline) ≡ false → ltb now deadline ≡ true
  in_time now deadline h = ground (arith, h)

  -- A turn of the loop that waits for an object.
  await_keys-turn :
      (n : ℕ) (bucket : Option Text) (prefix : Text) (t deadline : ℕ) (keys : List Text)
      → ((now : ℕ) (found : List Text)
          → t ≤ now
          → ltb now deadline ≡ true
          → From (now + 3000) (await_keys services n bucket prefix deadline found))
      → From t (await_keys services (suc n) bucket prefix deadline keys)
  unfolding await_keys
  await_keys-turn n bucket prefix t deadline keys again =
      search (From-bind, From-if, From-now, From-sleep, From-Settles, again, in_time, settles_rules)
        depth 12

  await_keys-From :
      (n : ℕ) (bucket : Option Text) (prefix : Text) (t deadline : ℕ) (keys : List Text)
      → deadline ≤ t + 3000 * n
      → From t (await_keys services (suc n) bucket prefix deadline keys)
  await_keys-From zero bucket prefix t deadline keys h =
      await_keys-turn zero bucket prefix t deadline keys
        (λ now found le early. absurd (ground (arith, early, h, le)))
  await_keys-From (suc n) bucket prefix t deadline keys h =
      await_keys-turn (suc n) bucket prefix t deadline keys (λ now found le early.
        await_keys-From n bucket prefix (now + 3000) deadline found (omega (arith, h, le)))

  await_query-within :
      (fuel : ℕ) (id : Option Text) (now : ℕ)
      → 62 ≤ fuel
      → From now (await_query services fuel id (now + query_timeout_ms))
  await_query-within zero id now h = absurd (omega arith)
  await_query-within (suc n) id now h =
      await_query-From n id now (now + query_timeout_ms) (omega arith)

  pub await_keys-within :
      (fuel : ℕ) (bucket : Option Text) (prefix : Text) (now : ℕ) (keys : List Text)
      → 62 ≤ fuel
      → From now (await_keys services fuel bucket prefix (now + object_timeout_ms) keys)
  await_keys-within zero bucket prefix now keys h = absurd (omega arith)
  await_keys-within (suc n) bucket prefix now keys h =
      await_keys-From n bucket prefix now (now + object_timeout_ms) keys (omega arith)

  pub Settles-From : {A : Type 0} (m : Run services A) → From 0 m → Settles services m
  Settles-From m h = record { at = λ s. h.at s (omega arith) }

  pub run_query-From :
      (fuel : ℕ) (sql : Text) (workgroup : Option Text)
      → 62 ≤ fuel
      → From 0 (run_query services fuel sql workgroup)
  unfolding run_query
  run_query-From fuel sql workgroup h =
      search (From-bind, From-now, From-Settles, await_query-within, settles_rules) depth 9
