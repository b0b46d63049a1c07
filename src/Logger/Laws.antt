-- ===== src/Logger/Laws.antt =====
-- What a logger writes, and what its descendants keep.
use mathlib.Core.Option
use cdk_log_to_s.Prelude.{
  ◌≤◌, ◌<◌, ltb, Bool, true, false, List, ap, ◌∙◌, Text, codes, text_eq, [], ◌∷◌, Option, none,
  some, some_or, some_or-none, All, length, text_eq_iff, ◌or_else◌, ◌≡◌, ◌↔◌, refl, arith,
  Bool-cases, inl, inr, if◌then◌else◌,
}
use cdk_log_to_s.Logger.Level.{name_text, level_order, Process}
use cdk_log_to_s.Logger.Stringify.{Json, text, object, Members, no_members, member}
use cdk_log_to_s.Logger.CallSite.{truthy, capture_call_site}
use cdk_log_to_s.Logger.Frames.{IsLine, joined, due_frame, capture_call_site-due_frame}
use cdk_log_to_s.Logger.Lines.{IsPlain, stringify-IsPlain}
use cdk_log_to_s.Logger.{
  StructuredLogger, Event, Ambient, emit, structured_record, append, optional_text,
  optional_context, id_of, caller_of, child, with_correlation_id, create_structured_logger,
  put_member, Thrown, error_entry, error_event,
}

module _ (logger : StructuredLogger) (ambient : Ambient) (e : Event) where
  -- A call of `emit` writes nothing exactly if the level of the event is below that of the logger.
  pub emit-silent_iff :
      (emit logger ambient e ≡ []) ↔ (level_order e.level < level_order logger.level)
  unfolding emit
  emit-silent_iff = ground arith

  -- A call of `emit` writes at most one line, which is on the level of the event and has no unit
  -- below U+0020, so no line feed and no carriage return.
  pub emit-one_line :
      (length (emit logger ambient e) ≤ 1)
      × All (λ (l, line). (l ≡ e.level) × IsPlain line) (emit logger ambient e)
  unfolding emit
  emit-one_line = elim (Bool-cases (ltb (level_order e.level) (level_order logger.level))) [
    | inl h ↦ rw h (omega arith, tt)
    | inr h ↦ rw h (omega arith, ((refl, stringify-IsPlain _), tt))
  ]

-- The value of a member; where a key is there twice, the first.
unfoldable pub find_member : Text → Members → Option Json
find_member key no_members = none
find_member key (member k v ms) = if text_eq k key then some v else find_member key ms

find_member-append :
    (key : Text) (a b : Members)
    → find_member key (append a b) ≡ some_or (find_member key a) (find_member key b)
unfolding find_member append some_or
find_member-append key no_members b = refl
find_member-append key (member k v a) b = ground (arith, find_member-append key a b)

find_member-optional_text :
    (key k : Text) (o : Option Text)
    → find_member key (optional_text k o)
      ≡ (if text_eq k key then Option.map text (truthy o) else none)
unfolding find_member optional_text truthy
find_member-optional_text key k none = ground arith
find_member-optional_text key k (some []) = ground arith
find_member-optional_text key k (some (c ∷ s)) = ground arith

-- The context as it stands in the record: an object that is not empty.
abbrev pub context_of : Option Members → Option Json
context_of none = none
context_of (some no_members) = none
context_of (some (member k v ms)) = some (object (member k v ms))

find_member-optional_context :
    (key : Text) (o : Option Members)
    → find_member key (optional_context o)
      ≡ (if text_eq (codes "context") key then context_of o else none)
unfolding find_member optional_context
find_member-optional_context key none = ground arith
find_member-optional_context key (some no_members) = ground arith
find_member-optional_context key (some (member k v ms)) = ground arith

-- The id that the logger was given, else the one of the store, else the empty text.
abbrev pub due_id : Option Text → Option Text → Text
due_id (some given) stored = given
due_id none (some stored) = stored
due_id none none = []

-- The call site: none if the option says so, else what is found below the marker, `/src/` if none is
-- given, in the line of the frame that called the logger.
abbrev pub due_caller : Option Bool → Option Text → List Text → Option Text
due_caller (some false) marker lines = none
due_caller (some true) (some marker) lines = due_frame marker lines
due_caller (some true) none lines = due_frame (codes "/src/") lines
due_caller none (some marker) lines = due_frame marker lines
due_caller none none lines = due_frame (codes "/src/") lines

given_or : (o p : Option Text) → (o or_else (p or_else [])) ≡ due_id o p
given_or (some given) stored = refl
given_or none (some stored) = refl
given_or none none = refl

id_of-due_id :
    (logger : StructuredLogger) (ambient : Ambient)
    → id_of logger ambient ≡ due_id logger.options.correlation_id ambient.correlation_id
unfolding id_of
id_of-due_id logger ambient = given_or logger.options.correlation_id ambient.correlation_id

caught :
    (capture : Option Bool) (marker : Option Text) (stack : Option Text) (lines : List Text)
    → (stack or_else []) ≡ joined lines
    → All IsLine lines
    → (if capture or_else true
        then capture_call_site stack 3 (marker or_else codes "/src/")
        else none)
      ≡ due_caller capture marker lines
caught (some false) marker stack lines e h = refl
caught (some true) (some marker) stack lines e h = capture_call_site-due_frame stack _ lines e h
caught (some true) none stack lines e h = capture_call_site-due_frame stack _ lines e h
caught none (some marker) stack lines e h = capture_call_site-due_frame stack _ lines e h
caught none none stack lines e h = capture_call_site-due_frame stack _ lines e h

caller_of-due_caller :
    (logger : StructuredLogger) (ambient : Ambient) (lines : List Text)
    → (ambient.stack or_else []) ≡ joined lines
    → All IsLine lines
    → caller_of logger ambient
      ≡ due_caller logger.options.capture_caller logger.options.caller_root_marker lines
unfolding caller_of
caller_of-due_caller logger ambient lines e h =
    caught logger.options.capture_caller logger.options.caller_root_marker ambient.stack lines e h

-- The members of a record by their keys, for a stack trace of these lines.
pub record Holds (logger : StructuredLogger) (ambient : Ambient) (lines : List Text) (e : Event)
    (r : Members) : Type 0 where
  pub level : find_member (codes "__log_level") r ≡ some (text (name_text e.level))
  pub source : find_member (codes "__source") r ≡ some (text logger.source)
  pub id :
      find_member (codes "__correlation_id") r
      ≡ some (text (due_id logger.options.correlation_id ambient.correlation_id))
  pub message : find_member (codes "message") r ≡ some (text e.message)
  pub caller :
      find_member (codes "__caller") r
      ≡ Option.map text (
          truthy (due_caller logger.options.capture_caller logger.options.caller_root_marker lines))
  pub context : find_member (codes "context") r ≡ context_of e.context
  pub stack : find_member (codes "stackTrace") r ≡ Option.map text (truthy e.stack_trace)

-- For a stack trace that is made of some lines, none of which has a line feed: a record has the
-- level, the source and the message at their keys; the correlation id that the logger was given,
-- else that of the store, else the empty text; the stack trace where it is not empty, and the
-- context where it is an object that is not empty; and, unless the option turns it off, the call
-- site that `frame_of` reads in the fifth line of the trace, the one behind the heading and three
-- frames, with the marker of the options or else `/src/`, where there is such a line and it is not
-- empty.
pub structured_record-Holds :
    (logger : StructuredLogger) (ambient : Ambient) (lines : List Text) (e : Event)
    → (ambient.stack or_else []) ≡ joined lines
    → All IsLine lines
    → Holds logger ambient lines e (structured_record logger ambient e)
unfolding structured_record find_member text_eq some_or
structured_record-Holds logger ambient lines e trace each = record {
  level = refl;
  source = refl;
  id = ap (λ t. some (text t)) (id_of-due_id logger ambient);
  message = refl;
  caller =
      simp (find_member-append, find_member-optional_text, find_member-optional_context)
        (some_or-none _
          ∙ ap (λ o. Option.map text (truthy o))
              (caller_of-due_caller logger ambient lines trace each));
  context =
      simp (find_member-append, find_member-optional_text, find_member-optional_context)
        (some_or-none _);
  stack = simp (find_member-append, find_member-optional_text, find_member-optional_context) refl;
}

-- A logger made from another by any sequence of `child` and `withCorrelationId`, each under the
-- environment of its time.
pub data Descends (logger : StructuredLogger) : StructuredLogger → Type 0 where
  itself : Descends logger logger
  by_child :
      (process : Process) (source : Text) (d d' : StructuredLogger)
      → Descends logger d
      → child process source d ≡ d'
      → Descends logger d'
  by_id :
      (process : Process) (id : Text) (d d' : StructuredLogger)
      → Descends logger d
      → with_correlation_id process id d ≡ d'
      → Descends logger d'

-- keeps
pub Descends-keeps :
    (logger d : StructuredLogger)
    → Descends logger d
    → (d.level ≡ logger.level)
      × (d.options.capture_caller ≡ logger.options.capture_caller)
      × (d.options.caller_root_marker ≡ logger.options.caller_root_marker)
unfolding child with_correlation_id create_structured_logger
Descends-keeps logger _ itself = (refl, refl, refl)
Descends-keeps logger d' (by_child process source d _ r h) = rw (← h) (Descends-keeps logger d r)
Descends-keeps logger d' (by_id process id d _ r h) = rw (← h) (Descends-keeps logger d r)

-- A logger made from another by any sequence of `child` and `withCorrelationId`, under whatever
-- environments, is silent on exactly the same events.
pub Descends-silent_iff :
    (logger d : StructuredLogger)
    → Descends logger d
    → (ambient now : Ambient) (e : Event) → (emit d now e ≡ []) ↔ (emit logger ambient e ≡ [])
Descends-silent_iff logger d r ambient now e =
    let same = (Descends-keeps logger d r).0 in
    (
      λ h. (emit-silent_iff logger ambient e).1 (rw (← same) ((emit-silent_iff d now e).0 h)),
      λ h. (emit-silent_iff d now e).1 (rw same ((emit-silent_iff logger ambient e).0 h)),
    )

find_member-put_member :
    (key k : Text) (value : Json) (ms : Members)
    → find_member key (put_member k value ms)
      ≡ (if text_eq k key then some value else find_member key ms)
unfolding find_member put_member
find_member-put_member key k value no_members = refl
find_member-put_member key k value (member j v ms) = ground (
  arith,
  text_eq_iff j k,
  text_eq_iff j key,
  text_eq_iff k key,
  find_member-put_member key k value ms,
)

-- The context that `error` logs for a thrown value has the description of the value at the key
-- `error`, and at every other key what the given context has.
pub error_event-context :
    (message : Text) (err : Thrown) (context : Option Members) (key : Text)
    → (ms : Members) × ((error_event message (some err) context).context ≡ some ms)
      × (find_member key ms ≡ (
          if text_eq (codes "error") key
          then some (error_entry err)
          else find_member key (context or_else no_members)))
unfolding error_event
error_event-context message err context key = (
  _,
  refl,
  find_member-put_member key (codes "error") (error_entry err) (context or_else no_members),
)
