-- ===== src/IntegStack/Handler.antt =====
-- examples/integ/handler/index.js: the lines that the emitter of the integ stack writes.
use cdk_log_to_s.Prelude.{
  Text, codes, text_eq, true, List, [], ◌∷◌, ◌++◌, Option, none, some, if◌then◌else◌,
}
use cdk_log_to_s.Logger.Stringify.{
  Json, boolean, number, text, object, Members, no_members, member, stringify,
}
use cdk_log_to_s.Integ.Script.{Line, log, error}
use cdk_log_to_s.Integ.Rows.{falsy_or}

-- `if (context) record.context = context; if (stackTrace) record.stackTrace = stackTrace;`
unfoldable pub stack_member : Option Text → Members
stack_member (some (c ∷ stack)) = member (codes "stackTrace") (text (c ∷ stack)) no_members
stack_member _ = no_members

unfoldable pub optional_members : Option Members → Option Text → Members
optional_members none stack = stack_member stack
optional_members (some context) stack =
    member (codes "context") (object context) (stack_member stack)

unfoldable pub record_of : (level source correlation_id message : Text) → Members → Json
record_of level source correlation_id message rest = object (
    member (codes "__log_level") (text level) (
      member (codes "__source") (text source) (
        member (codes "__correlation_id") (text correlation_id) (
          member (codes "__caller") (text (codes "examples/integ/handler/index.js"))
            (member (codes "message") (text message) rest)))))

unfoldable pub emit :
    (level source correlation_id message : Text) → Option Members → Option Text → Line
emit level source correlation_id message context stack =
    let line =
      stringify (record_of level source correlation_id message (optional_members context stack)) in
    if text_eq level (codes "ERROR") then error line else log line

unfoldable pub marker_of : Option Text → Text
marker_of given = falsy_or given (codes "no-marker")

-- What the handler writes, and what it returns, for `event.marker`.
unfoldable pub handler : Option Text → List Line × Json
handler given =
    let marker = marker_of given in
    let id = codes "integ-" ++ marker in
    let source = codes "IntegHandler" in
    (
      emit (codes "INFO") source id (codes "structured info " ++ marker)
            (some (
              member (codes "marker") (text marker) (member (codes "count") (number 5) no_members)))
            none
          ∷ emit (codes "DEBUG") source id (codes "structured debug " ++ marker)
              (some (member (codes "marker") (text marker) no_members)) none
          ∷ emit (codes "ERROR") source id (codes "structured error " ++ marker)
              (some (
                member (codes "marker") (text marker) (
                  member (codes "error")
                    (object (
                      member (codes "name") (text (codes "TypeError"))
                        (member (codes "message") (text (codes "bad input")) no_members)))
                    no_members)))
              (some (codes "TypeError: bad input\n    at handler (index.js:1:1)"))
          ∷ log (codes "plain text line " ++ marker)
          ∷ [],
      object (
          member (codes "ok") (boolean true) (
            member (codes "marker") (text marker)
              (member (codes "correlationId") (text id) no_members))),
    )
