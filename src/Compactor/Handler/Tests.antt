-- ===== src/Compactor/Handler/Tests.antt =====
-- One invocation of the compactor at a concrete input.
use cdk_log_to_s.Prelude.{
  ℕ, Text, codes, text_eq, true, false, [], ◌∷◌, Option, none, lookup, ◌≡◌, refl,
}
use cdk_log_to_s.Env.Vars
use cdk_log_to_s.Layout.{Day}
use cdk_log_to_s.Agent.Config.{Environment, os_getenv}
use cdk_log_to_s.Compactor.Settings.{load_config}
use cdk_log_to_s.Compactor.Sample.{sample_tools, scripted, Scripted}
use cdk_log_to_s.Compactor.Handler.{handler}
use cdk_log_to_s.Compactor.Handler.Laws.{TriesAll, handler-TriesAll}

abbrev env : Environment
env = (Vars.bucket, codes "b") ∷ (Vars.compaction_lookback_days, codes "2") ∷ []

abbrev day : ℕ → Day
day i = record { year = 2026; month = 8; date = i }

-- The listing of the first day fails; that of the second has nothing.
abbrev world : Scripted
world = record { bucket = []; answers = false ∷ true ∷ [] }

abbrev no_error : Text → Option Text
no_error region = none

named : text_eq (load_config env).0.bucket [] ≡ false
unfolding text_eq load_config os_getenv lookup
named = refl

handler-TriesAll_example :
    TriesAll scripted sample_tools
      (load_config env).0
      day
      world
      (handler scripted sample_tools env day no_error world)
handler-TriesAll_example = handler-TriesAll scripted sample_tools env day no_error world named refl
