-- ===== src/Logger/Tests.antt =====
-- The logger at concrete inputs.
use cdk_log_to_s.Prelude.{
  starts_with, Text, ◌≤◌, codes, number_text, text_eq, trim, [], ◌∷◌, none, some, true, false, Bool,
  not, ◌&&◌, ◌==◌, List, All, length, ◌≡◌, ◌↔◌, refl, arith,
}
use cdk_log_to_s.Aws.Sample.{sample, sample-Lawful}
use cdk_log_to_s.Env.Vars
use cdk_log_to_s.Extension.{has, LogLevel}
use cdk_log_to_s.Extension.Attach.{variable}
use cdk_log_to_s.Extension.Attach.Sequence.{start}
use cdk_log_to_s.Extension.Tests as Wired
use cdk_log_to_s.Logger.Level.{Process, warn, error, name_text, level_order, default_level}
use cdk_log_to_s.Logger.Stringify.{
  number, no_members, member, stringify, members_text, more_members, quoted, escape, starts_low,
}
use cdk_log_to_s.Logger.CallSite.{
  frame_of, parenthesised, up_to_close, after_at, below_root, index_of, truthy, no_terminator,
}
use cdk_log_to_s.Logger.Frames.{IsLine, joined}
use cdk_log_to_s.Logger.Lines.{IsPlain}
use cdk_log_to_s.Logger.Correlation.{
  Others, done, runs, sets, run_with_correlation_id, get_correlation_id, set_correlation_id, update,
  run-isolated,
}
use cdk_log_to_s.Logger.Contract.{named, attach-default_level}
use cdk_log_to_s.Logger.{
  StructuredLogger, StructuredLoggerOptions, Event, Ambient, emit, structured_record, append,
  optional_text, optional_context, id_of, caller_of, child, with_correlation_id,
  create_structured_logger,
}
use cdk_log_to_s.Logger.Laws.{
  Descends, itself, by_child, by_id, Holds, emit-one_line, structured_record-Holds,
  Descends-silent_iff,
}

abbrev options : StructuredLoggerOptions
options = record {
  correlation_id = none;
  level = some warn;
  capture_caller = some false;
  caller_root_marker = none;
}

abbrev logger : StructuredLogger
logger = record { source = codes "app"; options = options; level = warn }

abbrev ambient : Ambient
ambient = record { correlation_id = some (codes "id-1"); stack = none }

abbrev process : Process
process = record { log_to_s3_level = some (codes "debug"); log_level = none }

abbrev event : Event
event = record {
  level = error;
  message = codes "a\n\"b\"";
  context = some (member (codes "n") (number 7) no_members);
  stack_trace = none;
}

line_runs :
    emit logger ambient event
    ≡ (
      error,
      codes
          "{\"__log_level\":\"ERROR\",\"__source\":\"app\",\"__correlation_id\":\"id-1\",\"message\":\"a\\n\\\"b\\\"\",\"context\":{\"n\":7}}",
    )
      ∷ []
unfolding emit structured_record append optional_text optional_context id_of caller_of truthy
    name_text level_order stringify members_text more_members quoted escape starts_low number_text
line_runs = refl

frame_runs :
    frame_of (codes "/src/") (codes "    at handler (/var/task/src/index.js:3:5)")
    ≡ codes "src/index.js:3:5"
unfolding frame_of parenthesised up_to_close after_at below_root index_of starts_with trim
frame_runs = refl

bare_frame_runs :
    frame_of (codes "/src/") (codes "  at C:\\app\\x.js:1:2") ≡ codes "C:/app/x.js:1:2"
unfolding frame_of parenthesised up_to_close after_at below_root index_of starts_with trim text_eq
    no_terminator
bare_frame_runs = refl

emit-one_line_example :
    (length (emit logger ambient event) ≤ 1)
    × All (λ (l, line). (l ≡ error) × IsPlain line) (emit logger ambient event)
emit-one_line_example = emit-one_line logger ambient event

-- A logger that looks for its caller, and a stack trace in which that is in the fifth line.
abbrev tracing : StructuredLogger
tracing = record {
  source = codes "app";
  options = record options { capture_caller = none };
  level = warn;
}

abbrev lines : List Text
lines =
    codes "Error"
    ∷ codes "    at captureCallSite (/var/task/logger.js:30:17)"
    ∷ codes "    at emit (/var/task/logger.js:95:22)"
    ∷ codes "    at Object.error (/var/task/logger.js:117:7)"
    ∷ codes "    at run (/home/app/src/job.ts:7:3)"
    ∷ codes "    at main (/home/app/src/main.ts:2:1)"
    ∷ []

abbrev traced : Ambient
traced = record { correlation_id = some (codes "id-1"); stack = some (joined lines) }

-- The lines have no line feed.
abbrev has_none : Text → Bool
has_none [] = true
has_none (c ∷ l) = not (c == b'\n') && has_none l

has_none-IsLine : (l : Text) → has_none l ≡ true → IsLine l
has_none-IsLine [] h = tt
has_none-IsLine (c ∷ l) h = (ground (arith, h), has_none-IsLine l (ground (arith, h)))

abbrev have_none : List Text → Bool
have_none [] = true
have_none (l ∷ ls) = has_none l && have_none ls

have_none-AreLines : (ls : List Text) → have_none ls ≡ true → All IsLine ls
have_none-AreLines [] h = tt
have_none-AreLines (l ∷ ls) h =
    (has_none-IsLine l (ground (arith, h)), have_none-AreLines ls (ground (arith, h)))

structured_record-Holds_example :
    Holds tracing traced lines event (structured_record tracing traced event)
structured_record-Holds_example =
    structured_record-Holds tracing traced lines event refl (have_none-AreLines lines refl)

abbrev grandchild : StructuredLogger
grandchild = record {
  source = codes "db";
  options = record {
    correlation_id = some (codes "x");
    level = some warn;
    capture_caller = some false;
    caller_root_marker = none;
  };
  level = warn;
}

grandchild-Descends : Descends logger grandchild
unfolding child with_correlation_id create_structured_logger
grandchild-Descends =
    by_id process (codes "x") (child process (codes "db") logger) grandchild
      (by_child process (codes "db") logger (child process (codes "db") logger) itself refl) refl

Descends-silent_iff_example :
    (emit grandchild ambient event ≡ []) ↔ (emit logger ambient event ≡ [])
Descends-silent_iff_example =
    Descends-silent_iff logger grandchild grandchild-Descends ambient ambient event

attach-default_level_example :
    default_level (record {
      log_to_s3_level = variable (codes "Stack/Fn") Vars.level Wired.wired.calls;
      log_level = none;
    })
    ≡ named LogLevel.debug
attach-default_level_example =
    attach-default_level sample sample-Lawful Wired.machine Wired.props Wired.ext Wired.fn
      Wired.options (start sample Wired.ext) Wired.wired none Wired.new_extension_runs
      (unfold has in refl) Wired.attach_runs

-- A second request is served, and changes its own id, while the first is waiting.
interleaved :
    Others
      (run_with_correlation_id (codes "a") []).0
      (run_with_correlation_id (codes "a") []).1
      (codes "a" ∷ codes "c" ∷ [])
unfolding run_with_correlation_id set_correlation_id update
interleaved =
    sets (some 1) (codes "c") (codes "a" ∷ []) (codes "a" ∷ codes "b" ∷ [])
      (codes "a" ∷ codes "c" ∷ []) (λ e. ground arith)
      (runs (codes "b") (codes "a" ∷ []) (codes "a" ∷ []) (codes "a" ∷ codes "b" ∷ [])
        (done (codes "a" ∷ [])) refl)
      refl

run-isolated_example :
    get_correlation_id (run_with_correlation_id (codes "a") []).0 (codes "a" ∷ codes "c" ∷ [])
    ≡ some (codes "a")
run-isolated_example = run-isolated (codes "a") [] (codes "a" ∷ codes "c" ∷ []) interleaved
