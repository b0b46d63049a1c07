-- ===== src/Integ/Verdict.antt =====
-- What an exit code 0 of scripts/verify-integ.ts says of its run.
use cdk_log_to_s.Prelude.{ℕ, ◌-◌, ◌++◌, codes, Text, List, [], ◌≡◌}
use cdk_log_to_s.Integ.Script.{returned, State}
use cdk_log_to_s.Integ.Services.{Services, Run}
use cdk_log_to_s.Integ.Query.{outputs, run_query, member}
use cdk_log_to_s.Integ.Rows.{falsy_or}
use cdk_log_to_s.Integ.Sections.{check_rows}
use cdk_log_to_s.Integ.Program.{
  marker_sql, Compacted, compact_partition, write_and_find, date_path, marker_at,
}
use cdk_log_to_s.Integ.Settles.{Settles, settles_rules}
use cdk_log_to_s.Integ.Termination.{
  compact_partition-Settles, run_query-Settles, check_rows-Settles, conclude-Settles,
}
use cdk_log_to_s.Integ.Checks.{WellKept, WellRead}
use cdk_log_to_s.Integ.Compaction.{Preserved}

module _ (services : Services) where
  abbrev pub yesterday : ℕ → Text
  yesterday now = date_path (services.utc (now - 86400000))

  abbrev pub prefix_of : List (Text × Text) → Text
  prefix_of out = falsy_or (member (codes "KeyPrefix") out) (codes "logs/")

  -- The state in which the script begins.
  abbrev pub begins : services.World → State services.World
  begins w = record { world = w; failures = []; printed = [] }

  -- The run of the script on a stack from a state on, section by section. Each section begins in
  -- the world that the one before left; the marker is that of the time at which the run began.
  pub record Evidence (fuel : ℕ) (name : Text) (start : State services.World) : Type 0 where
    pub out : List (Text × Text)
    pub deployed : State services.World
    pub outputs_ran : outputs services name start ≡ (returned out, deployed)
    pub invoked : State services.World
    pub invoked_world : invoked.world ≡ deployed.world
    pub keys : List Text
    pub inspected : State services.World
    pub found :
        write_and_find services fuel out
          (marker_at (services.now deployed.world))
          (prefix_of out)
          invoked
        ≡ (returned keys, inspected)
    pub kept : WellKept keys
    pub asked : State services.World
    pub asked_world : asked.world ≡ inspected.world
    pub rows : List (List Text)
    pub answered : State services.World
    pub query :
        run_query services fuel
          (marker_sql out
            (date_path (services.utc (services.now inspected.world)))
            (marker_at (services.now deployed.world)))
          (member (codes "WorkgroupName") out)
          asked
        ≡ (returned rows, answered)
    pub read : WellRead rows
    pub before : State services.World
    pub checked : State services.World
    pub rows_checked : check_rows services rows answered ≡ (returned tt, checked)
    pub before_world : before.world ≡ checked.world
    pub result : Compacted services
    pub after : State services.World
    pub ran :
        compact_partition services fuel out
          (prefix_of out ++ (yesterday (services.now inspected.world) ++ codes "/"))
          (yesterday (services.now inspected.world))
          keys
          before
        ≡ (returned result, after)
    pub preserved : Preserved services result

  ruleset rest_rules = (
    run_query-Settles, check_rows-Settles, compact_partition-Settles, conclude-Settles,
    settles_rules,
  )

  -- A step of a run that returned without a failed check: its value and state, and the rest.
  record Stepped {A B : Type 0} (m : Run services A) (next : A → Run services B)
      (s : State services.World) (b : B) (t : State services.World) : Type 0 where
    pub value : A
    pub state : State services.World
    pub step : m s ≡ (returned value, state)
    pub rest : next value state ≡ (returned b, t)

  -- A run that returns leaves no failed check.
  record EndsClean {A : Type 0} (m : Run services A) : Type 0 where
    pub at :
        (s : State services.World) (a : A) (t : State services.World)
        → m s ≡ (returned a, t)
        → t.failures ≡ []
