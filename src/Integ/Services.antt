-- ===== src/Integ/Services.antt =====
-- What scripts/verify-integ.ts uses of AWS, of the clock and of `Number`, as a parameter: the
-- requests that it sends, what it reads of the replies, and the calendar of `Date`.
use cdk_log_to_s.Prelude.{ℕ, ◌+◌, ◌≤◌, Text, Bool, List, Option, Result, throws, ok}
use cdk_log_to_s.Integ.Script.{Script, returned, thrown}

-- The commands of the SDK clients; an argument that is read off an object may be undefined.
pub data Request : Type 0 where
  describe_stacks : (stack_name : Text) → Request
  start_query_execution : (query_string : Text) (work_group : Option Text) → Request
  get_query_execution : (query_execution_id : Option Text) → Request
  get_query_results : (query_execution_id : Option Text) → Request
  invoke : (function_name : Option Text) (payload : Text) → Request
  list_objects : (bucket : Option Text) (prefix : Text) → Request
  get_object : (bucket : Option Text) (key : Text) → Request
  copy_object : (bucket : Option Text) (copy_source : Text) (key : Text) → Request

pub record Output : Type 0 where
  pub output_key : Option Text
  pub output_value : Option Text

pub record Execution : Type 0 where
  pub state : Option Text
  pub state_change_reason : Option Text

pub record Invoked : Type 0 where
  pub status_code : Option ℕ
  pub function_error : Option Text

-- What the code reads of the reply, with `undefined` where the code allows for it: the outputs of
-- each stack, the cells of each row, the key of each object, the bytes of the body.
unfoldable pub Reply : Request → Type 0
Reply (describe_stacks _) = Option (List (Option (List Output)))
Reply (start_query_execution _ _) = Option Text
Reply (get_query_execution _) = Execution
Reply (get_query_results _) = Option (List (Option (List (Option Text))))
Reply (invoke _ _) = Invoked
Reply (list_objects _ _) = Option (List (Option Text))
Reply (get_object _ _) = List ℕ
Reply (copy_object _ _ _) = Unit

-- `getUTCFullYear`, `getUTCMonth`, which counts from 0, and `getUTCDate`.
pub record UtcDate : Type 0 where
  pub full_year : ℕ
  pub month : ℕ
  pub date : ℕ

pub record Services : Type 1 where
  pub World : Type 0
  -- The reply, or the message of the error that the promise is rejected with.
  pub send : (r : Request) → World → Result (Reply r) × World
  -- `Date.now()`, and a timer of so many milliseconds.
  pub now : World → ℕ
  pub sleep : ℕ → World → World
  pub utc : ℕ → UtcDate
  -- Floating point: `Number(text)`, `x > 0` and `x === y`.
  pub Num : Type 0
  pub number : Text → Num
  pub is_positive : Num → Bool
  pub strict_eq : Num → Num → Bool
  pub num_text : Num → Text

-- The documented behaviour of the clock: it does not go back while a request is answered, and a
-- timer does not fire early.
pub record Lawful (services : Services) : Type 0 where
  pub send_now :
      (r : Request) (w : services.World) → services.now w ≤ services.now (services.send r w).1
  pub sleep_now :
      (ms : ℕ) (w : services.World) → services.now w + ms ≤ services.now (services.sleep ms w)

module _ (services : Services) where
  abbrev pub Run {ℓ} : Type ℓ → Type ℓ
  Run A = Script services.World A

  abbrev pub answered : {A : Type 0} → Result A × services.World → Run A
  answered (ok reply, w) s = (returned reply, record s { world = w })
  answered (throws message, w) s = (thrown message, record s { world = w })

  -- `await client.send(new …Command(…))`.
  unfoldable pub send : (r : Request) → Run (Reply r)
  send r s = answered (services.send r s.world) s

  unfoldable pub date_now : Run ℕ
  date_now s = (returned (services.now s.world), s)

  unfoldable pub sleep : ℕ → Run (Unit {0})
  sleep ms s = (returned tt, record s { world = services.sleep ms s.world })
