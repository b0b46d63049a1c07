-- ===== src/Logger.antt =====
-- The structured logger of packages/logger, which a function uses to write the lines that the
-- extension parses. `write` is what it returns; the ambient correlation id, the stack trace and
-- `process.env` are given.
pub mod Level
pub mod Stringify
pub mod CallSite
pub mod Lines
pub mod Frames
pub mod Contract
pub mod Correlation
pub mod Tests
pub mod Laws
use cdk_log_to_s.Prelude.{
  ℕ, Text, codes, ltb, Bool, true, false, List, [], ◌∷◌, Option, none, some, ◌or_else◌, text_eq,
  if◌then◌else◌,
}
use cdk_log_to_s.Logger.Level.{
  LogLevelName, debug, info, warn, error, name_text, level_order, Process, default_level,
}
use cdk_log_to_s.Logger.Stringify.{Json, text, object, Members, no_members, member, stringify}
use cdk_log_to_s.Logger.CallSite.{capture_call_site, truthy}

pub record StructuredLoggerOptions : Type 0 where
  pub correlation_id : Option Text
  pub level : Option LogLevelName
  pub capture_caller : Option Bool
  pub caller_root_marker : Option Text

-- What a logger closes over. The sink is the caller's.
pub record StructuredLogger : Type 0 where
  pub source : Text
  pub options : StructuredLoggerOptions
  pub level : LogLevelName

unfoldable pub create_structured_logger :
    Process → Text → StructuredLoggerOptions → StructuredLogger
create_structured_logger process source options = record {
  source = source;
  options = options;
  level = options.level or_else default_level process;
}

-- `{ ...members, key: value }`: a key that is there keeps its place.
unfoldable pub put_member : Text → Json → Members → Members
put_member key value no_members = member key value no_members
put_member key value (member k v members) =
    let rest = put_member key value members in
    if text_eq k key then member k value members else member k v rest

unfoldable pub append : Members → Members → Members
append no_members more = more
append (member k v members) more = member k v (append members more)

-- `if (value) record[key] = value`, and nothing for the empty text.
unfoldable pub optional_text : Text → Option Text → Members
optional_text key value = elim (truthy value) [
  | none ↦ no_members
  | some t ↦ member key (text t) no_members
]

-- `context && Object.keys(context).length > 0`.
unfoldable pub optional_context : Option Members → Members
optional_context none = no_members
optional_context (some no_members) = no_members
optional_context (some (member k v members)) =
    member (codes "context") (object (member k v members)) no_members

-- What one call logs.
pub record Event : Type 0 where
  pub level : LogLevelName
  pub message : Text
  pub context : Option Members
  pub stack_trace : Option Text

-- What the runtime has at the call: the store of the correlation id and the stack.
pub record Ambient : Type 0 where
  pub correlation_id : Option Text
  pub stack : Option Text

-- `getCorrelationId() ?? ''` behind the option.
unfoldable pub id_of : StructuredLogger → Ambient → Text
id_of logger ambient = logger.options.correlation_id or_else (ambient.correlation_id or_else [])

unfoldable pub caller_of : StructuredLogger → Ambient → Option Text
caller_of logger ambient =
    if logger.options.capture_caller or_else true
    then capture_call_site ambient.stack 3 (logger.options.caller_root_marker or_else codes "/src/")
    else none

-- The `StructuredRecord`, its members in the order in which they are set.
unfoldable pub structured_record : StructuredLogger → Ambient → Event → Members
unfolding append
structured_record logger ambient e = member (codes "__log_level") (text (name_text e.level)) (
    member (codes "__source") (text logger.source) (
      member (codes "__correlation_id") (text (id_of logger ambient)) (
        member (codes "message") (text e.message) (
          append (optional_text (codes "__caller") (caller_of logger ambient)) (
            append (optional_context e.context)
              (optional_text (codes "stackTrace") e.stack_trace))))))

-- `emit`: the calls of `write`, with their level and line.
unfoldable pub emit : StructuredLogger → Ambient → Event → List (LogLevelName × Text)
emit logger ambient e =
    if ltb (level_order e.level) (level_order logger.level)
    then []
    else (e.level, stringify (object (structured_record logger ambient e))) ∷ []

-- A thrown value: an `Error`, or another with its `String(err)`.
pub data Thrown : Type 0 where
  an_error : Text → Text → Option Text → Thrown
  a_value : Text → Thrown

unfoldable pub error_entry : Thrown → Json
error_entry (an_error name message stack) =
    object (member (codes "name") (text name) (member (codes "message") (text message) no_members))
error_entry (a_value shown) = object (member (codes "value") (text shown) no_members)

unfoldable pub error_stack : Thrown → Option Text
error_stack (an_error name message stack) = stack
error_stack (a_value shown) = none

-- The event of `logger.error(message, err, context)`.
unfoldable pub error_event : Text → Option Thrown → Option Members → Event
error_event message none context = record {
  level = error;
  message = message;
  context = context;
  stack_trace = none;
}
error_event message (some err) context = record {
  level = error;
  message = message;
  context = some (put_member (codes "error") (error_entry err) (context or_else no_members));
  stack_trace = error_stack err;
}

-- The event of `logger.debug`, `logger.info` and `logger.warn`.
unfoldable pub plain_event : LogLevelName → Text → Option Members → Event
plain_event level message context = record {
  level = level;
  message = message;
  context = context;
  stack_trace = none;
}

-- `{ ...options, level }`.
abbrev pub pinned : StructuredLogger → StructuredLoggerOptions
pinned logger = record logger.options { level = some logger.level }

unfoldable pub child : Process → Text → StructuredLogger → StructuredLogger
child process source logger = create_structured_logger process source (pinned logger)

unfoldable pub with_correlation_id : Process → Text → StructuredLogger → StructuredLogger
with_correlation_id process id logger =
    create_structured_logger process logger.source
      (record (pinned logger) { correlation_id = some id })
