-- ===== src/Client/Capture.antt =====
-- client.go, the Capture methods: what is captured, with which frames and on which scope.
use bugfree_go_sdk.Base.{
  Bool, List, Option, Text, [], codes, false, if◌then◌else◌, insert, is_empty, keep, none, not,
  or_else, some, suc, true, ℕ, ◌++◌, ◌||◌, ◌∷◌,
}
use bugfree_go_sdk.Errors.{
  Err, Recovered, callers, describe, error, error_type, message, other, plain,
}
use bugfree_go_sdk.Frames.{Frame, capture_stack, error_frames, frames_from}
use bugfree_go_sdk.Event.{
  Event, EventModifier, Level, level_error, level_fatal, text_value, with_error_chain,
}
use bugfree_go_sdk.Scope.{Context, scope_from_context}
use bugfree_go_sdk.Client.{Client, Moment, finish, new_event, sampled}

-- What a call captures: an error, a message, a recovered value, or an event made by the caller.
-- `callers` is the stack handed to the WithStack variants, none for the others.
pub data Subject : Type 0 where
  exception : Option Err → Option (List ℕ) → Subject
  plain_message : Level → Text → Subject
  panicked : Option Recovered → ℕ → Subject
  ready : Option Event → Subject

abbrev pub or_here : List Frame → List Frame → List Frame
or_here [] here = here
or_here (frame ∷ rest) here = frame ∷ rest

-- The frames of CaptureException (the deepest recorded stack) and of the WithStack variants (the
-- stack handed in), or the caller's.
unfoldable pub frames_for : Moment → Err → Option (List ℕ) → List Frame
frames_for m err none = or_here (error_frames m.shown err) (capture_stack m.shown 1 m.stack)
frames_for m err (some callers) =
    or_here (frames_from m.shown callers) (capture_stack m.shown 1 m.stack)

abbrev pub chain_onto : Err → Option Event → Option Event
chain_onto err none = none
chain_onto err (some event) = some (with_error_chain err event)

-- if err, ok := recovered.(error); ok { withErrorChain(event, err) }
abbrev pub chain_of_recovered : Recovered → Option Event → Option Event
chain_of_recovered (plain s) event = event
chain_of_recovered (error err) event = chain_onto err event
chain_of_recovered (other s) event = event

abbrev pub id_or : Text → Event → Event
id_or id event = if is_empty event.event_id then record event { event_id = id } else event

-- captureError, captureRecovered and the tails of CaptureMessage and CaptureEvent.
unfoldable pub capture_subject :
    Moment → Client → Option ℕ → Subject → List (Option EventModifier) → Client × Text
unfolding new_event finish frames_for
capture_subject m c scope (exception none callers) modifiers = (c, [])
capture_subject m c scope (exception (some err) callers) modifiers =
    let (c', event) =
      new_event m c scope level_error (error_type err) (message err) (frames_for m err callers) in
    finish c' (chain_onto err event) modifiers
capture_subject m c scope (plain_message level text) modifiers =
    let (c', event) =
      new_event m c scope level (codes "Message") text (capture_stack m.shown 1 m.stack) in
    finish c' event modifiers
capture_subject m c scope (panicked none skip) modifiers = (c, [])
capture_subject m c scope (panicked (some recovered) skip) modifiers =
    let (c', event) =
      new_event m c scope level_fatal (codes "runtime.Error")
        (codes "panic: " ++ describe recovered) (capture_stack m.shown (suc skip) m.stack) in
    finish c' (chain_of_recovered recovered event) modifiers
capture_subject m c scope (ready none) modifiers = (c, [])
capture_subject m c scope (ready (some event)) modifiers = finish c (some (id_or m.id event)) []

-- err == nil, message == "", recovered == nil, event == nil
abbrev pub is_nothing : Subject → Bool
is_nothing (exception none callers) = true
is_nothing (exception (some err) callers) = false
is_nothing (plain_message level text) = is_empty text
is_nothing (panicked none skip) = true
is_nothing (panicked (some recovered) skip) = false
is_nothing (ready none) = true
is_nothing (ready (some event)) = false

-- The guard of every Capture method, and the capture behind it.
unfoldable pub capture :
    Moment → Client → Option ℕ → Subject → List (Option EventModifier) → Client × Text
unfolding sampled capture_subject
capture m c scope subject modifiers =
    if not c.enabled || is_nothing subject
    then (c, [])
    else let (c', keep) = sampled m c in
      if keep then capture_subject m c' scope subject modifiers else (c', [])

-- withTraceOf, on the trace and the span id of the span that the context carries.
unfoldable pub with_trace_of : Text × Text → EventModifier
with_trace_of (trace, span) event =
    let event' = if is_empty event.trace_id then record event { trace_id = trace } else event in
    record event' { tags = insert (codes "span_id") (text_value span) event'.tags }

-- withTrace
unfoldable pub with_trace :
    Option (Text × Text) → List (Option EventModifier) → List (Option EventModifier)
with_trace none modifiers = modifiers
with_trace (some span) modifiers = some (with_trace_of span) ∷ modifiers

-- scopeFor
unfoldable pub scope_for : Client → Option Context → Option ℕ
scope_for c ctx = or_else (scope_from_context ctx) (some c.scope)

-- CaptureException, CaptureExceptionWithStack, CaptureMessage, CaptureRecovered, CaptureEvent
unfoldable pub capture_global :
    Moment → Client → Subject → List (Option EventModifier) → Client × Text
unfolding capture
capture_global m c subject modifiers = capture m c (some c.scope) subject modifiers

-- The Context variants; `span` is the trace and the span id of the context's span.
unfoldable pub capture_context :
    Moment
    → Client
    → Option Context
    → Option (Text × Text)
    → Subject
    → List (Option EventModifier)
    → Client × Text
unfolding capture scope_for with_trace
capture_context m c ctx span subject modifiers =
    capture m c (scope_for c ctx) subject (with_trace span modifiers)

-- The package-level shortcuts, on Current().
unfoldable pub capture_current :
    Moment → Option Client → Subject → List (Option EventModifier) → Option Client × Text
capture_current m none subject modifiers = (none, [])
capture_current m (some c) subject modifiers =
    (some (capture_global m c subject modifiers).0, (capture_global m c subject modifiers).1)
