-- ===== src/Aws/Days.antt =====
-- A period of whole days, at least one, as src/log-compaction.ts asks of `lookback` and
-- src/log-analytics.ts of `projectionWindow`: the same two lines in both.
use cdk_log_to_s.Prelude.{
  ℕ, ◌*◌, ◌≤◌, Text, ltb, Result, ok, ◌>>◌, throw_if, ◌≡◌, ◌↔◌, arith, Result-cases, inl, inr,
}
use cdk_log_to_s.Aws.{Cdk, Lawful}

-- `if (d.toMilliseconds() < Duration.days(1).toMilliseconds()) throw …; d.toDays()`.
unfoldable pub at_least_one_day : (cdk : Cdk) → Text → cdk.Duration → Result ℕ
at_least_one_day cdk message d = do
  throw_if (ltb (cdk.to_milliseconds d) (cdk.to_milliseconds (cdk.days 1))) message
  cdk.to_days d

-- For durations that obey their laws: a period is accepted exactly if it is a whole number of days
-- and at least one, and that number is the result.
pub at_least_one_day-ok_iff :
    (cdk : Cdk)
    → Lawful cdk
    → (message : Text) (d : cdk.Duration) (n : ℕ)
    → (at_least_one_day cdk message d ≡ ok n) ↔ ((cdk.to_milliseconds d ≡ n * 86400000) × (1 ≤ n))
unfolding at_least_one_day
at_least_one_day-ok_iff cdk laws message d n = (
  λ h. elim (Result-cases (cdk.to_days d)) [
    | inl (m, e) ↦ ground (arith, laws.days_ms 1, laws.days_whole d m e, e, h)
    | inr (m, e) ↦ absurd (ground (arith, e, h))
  ],
  λ h. ground (arith, h, laws.days_ms 1, laws.whole_days d n h.0),
)
