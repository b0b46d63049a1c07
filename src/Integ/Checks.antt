-- ===== src/Integ/Checks.antt =====
-- What the checks of the sections 1 to 4 of scripts/verify-integ.ts assure.
use cdk_log_to_s.Prelude.{
  ℕ, ◌+◌, codes, Text, true, false, ◌&&◌, any, List, [], ◌∷◌, All, ok, Bool-cases, inl, inr, ◌≡◌,
  ◌≢◌, arith,
}
use cdk_log_to_s.Integ.Script.{print, pure}
use cdk_log_to_s.Integ.Services.{Services, Lawful, date_now}
use cdk_log_to_s.Integ.Keys.{key_test}
use cdk_log_to_s.Integ.Keys.Pattern.{IsKey, key_test_iff}
use cdk_log_to_s.Integ.Query.{member}
use cdk_log_to_s.Integ.Rows.{some_of, has_level, is_filled, has_integ_id, is_plain_text}
use cdk_log_to_s.Integ.Sections.{
  is_empty, bad_keys, check_layout, check_keys, invoke_function, await_keys, inspect_object,
  check_columns, check_rows, object_timeout_ms,
}
use cdk_log_to_s.Integ.Program.{write_and_find}
use cdk_log_to_s.Integ.Settles.{settles_rules}
use cdk_log_to_s.Integ.Termination.{inspect_object-Settles}
use cdk_log_to_s.Integ.Evidence.{
  Assures, Assures-checked, Assures-tried, Assures-bind, Assures-then, Assures-pure, Assures-last,
}

-- There are keys, and all of them are flat inside the partition of a day.
pub record WellKept (keys : List Text) : Type 0 where
  pub some_key : keys ≢ []
  pub flat : All IsKey keys

-- The rows that a query returned have all that the function had logged.
pub record WellRead (rows : List (List Text)) : Type 0 where
  pub some_row : rows ≢ []
  pub infos : has_level (codes "INFO") rows ≡ true
  pub errors : has_level (codes "ERROR") rows ≡ true
  pub request_ids : any (is_filled 3) rows ≡ true
  pub correlation_ids : some_of has_integ_id rows ≡ ok true
  pub stack_traces : any (is_filled 6) rows ≡ true
  pub plain_lines : some_of is_plain_text rows ≡ ok true

bad_keys-none : (keys : List Text) → is_empty (bad_keys keys) ≡ true → All IsKey keys
unfolding bad_keys
bad_keys-none [] h = tt
bad_keys-none (k ∷ keys) h = elim (Bool-cases (key_test k)) [
  | inl e ↦ ((key_test_iff k).0 e, bad_keys-none keys (ground (arith, e, h)))
  | inr e ↦ absurd (ground (arith, e, h))
]

module _ (services : Services) where
  Assures-check_layout :
      (keys : List Text)
      → keys ≢ []
      → Assures services (check_layout services keys) (λ _. WellKept keys)
  unfolding check_layout
  Assures-check_layout keys some_key =
      Assures-checked services (is_empty (bad_keys keys)) _ _ _ (search settles_rules) (λ no_bad.
        Assures-last services _ _ _
          (λ _. record { some_key = some_key; flat = bad_keys-none keys no_bad }))

  Assures-check_keys :
      (prefix : Text) (keys : List Text)
      → Assures services (check_keys services prefix keys) (λ _. WellKept keys)
  unfolding check_keys
  Assures-check_keys prefix [] =
      Assures-checked services false _ _ (λ _. pure tt) (search settles_rules) (λ h. absurd (cc h))
  Assures-check_keys prefix (k ∷ keys) =
      Assures-then services _ (λ _. check_layout services (k ∷ keys))
        (λ _. Assures-check_layout (k ∷ keys) (λ e. cc e))

  pub Assures-write_and_find :
      (laws : Lawful services) (fuel : ℕ) (out : List (Text × Text)) (marker prefix : Text)
      → Assures services (write_and_find services fuel out marker prefix) WellKept
  unfolding write_and_find
  Assures-write_and_find laws fuel out marker prefix =
      let bucket = member (codes "LogsBucketName") out in
      Assures-then services (print _) _ (λ _.
        Assures-then services (invoke_function services out marker) _ (λ _.
          Assures-then services (print _) _ (λ _.
            Assures-then services (date_now services) _ (λ now.
              Assures-then services
                (await_keys services fuel bucket prefix (now + object_timeout_ms) []) _
                (λ keys.
                  Assures-bind services (check_keys services prefix keys) _ (λ _. WellKept keys)
                    (Assures-check_keys prefix keys)
                    (λ _. search (inspect_object-Settles, settles_rules))
                    (λ _ kept. Assures-then services (print _) _ (λ _.
                      Assures-then services (inspect_object services bucket keys) _
                        (λ _. Assures-pure services keys kept))))))))

  Assures-check_columns :
      (rows : List (List Text))
      → rows ≢ []
      → Assures services (check_columns services rows) (λ _. WellRead rows)
  unfolding check_columns
  Assures-check_columns rows some_row =
      Assures-checked services (has_level (codes "INFO") rows && has_level (codes "ERROR") rows) _ _
        _ (search settles_rules depth 12)
        (λ levels.
          Assures-checked services (any (is_filled 3) rows) _ _ _ (search settles_rules depth 12)
            (λ request_ids.
              Assures-tried services (some_of has_integ_id rows) _
                (λ _. search settles_rules depth 12)
                (λ found e.
                  Assures-checked services found _ _ _ (search settles_rules depth 12)
                    (λ correlated.
                      Assures-checked services (any (is_filled 6) rows) _ _ _ (search settles_rules)
                        (λ stack_traces.
                          Assures-tried services (some_of is_plain_text rows) _
                            (λ _. search settles_rules)
                            (λ plain f. Assures-last services plain _ _ (λ kept. record {
                              some_row = some_row;
                              infos = ground (arith, levels);
                              errors = ground (arith, levels);
                              request_ids = request_ids;
                              correlation_ids = cc (e, correlated);
                              stack_traces = stack_traces;
                              plain_lines = cc (f, kept);
                            })))))))

  pub Assures-check_rows :
      (rows : List (List Text)) → Assures services (check_rows services rows) (λ _. WellRead rows)
  unfolding check_rows
  Assures-check_rows [] =
      Assures-checked services false _ _ (λ _. pure tt) (search settles_rules) (λ h. absurd (cc h))
  Assures-check_rows (r ∷ rows) =
      Assures-then services _ (λ _. check_columns services (r ∷ rows))
        (λ _. Assures-check_columns (r ∷ rows) (λ e. cc e))
