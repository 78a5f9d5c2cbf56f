-- ===== src/LogHandler/Records.antt =====
-- log-handler.go, Handle and captureEvent: what a record becomes.
use bugfree_go_sdk.Base.{
  Bool, List, Map, Option, Text, [], codes, if◌then◌else◌, insert, leb_ℤ, none, not, some, text_eq,
  ℕ, ℤ, ◌&&◌, ◌++◌, ◌==◌, ◌∷◌,
}
use bugfree_go_sdk.Errors.{Err, error_type, message}
use bugfree_go_sdk.Event.{Breadcrumb, Event, Value, blank, text_value, with_error_chain}
use bugfree_go_sdk.Client.{Client, Moment, finish, new_event, sampled}
use bugfree_go_sdk.Frames.{Frame, RawFrame, capture_stack, error_frames}
use bugfree_go_sdk.Scope.{Scopes, add_breadcrumb}
use bugfree_go_sdk.LogHandler.{
  Attrs, Field, LogHandler, breadcrumb_level_of, describe_attrs, event_level_of, failure, fields,
  other_value,
}

-- type slog.Record, without its attributes' form; `site` is the frame of its PC, none for no PC.
pub record LogRecord : Type 0 where
  pub level : ℤ
  pub text : Text
  pub site : Option RawFrame
  pub attrs : Attrs

-- The loop of logStack from a frame on.
unfoldable pub from_site : RawFrame → List Frame → Option (List Frame)
from_site site [] = none
from_site site (frame ∷ rest) =
    let later = from_site site rest in
    if text_eq frame.file site.file && (frame.line == site.line) then some (frame ∷ rest) else later

abbrev pub or_all : Option (List Frame) → List Frame → List Frame
or_all none frames = frames
or_all (some found) frames = found

-- logStack, on the frames of the call
unfoldable pub log_stack : Option RawFrame → List Frame → List Frame
unfolding from_site
log_stack none frames = frames
log_stack (some site) frames = or_all (from_site site frames) frames

-- The first error among the fields, in the order in which the loop meets them.
unfoldable pub first_failure : List (Text × Field) → Option Err
first_failure [] = none
first_failure ((key, failure err) ∷ rest) = some err
first_failure ((key, other_value value) ∷ rest) = first_failure rest

-- if err, ok := value.(error); ok { value = err.Error() }
abbrev pub value_of : Field → Value
value_of (failure err) = text_value (message err)
value_of (other_value value) = value

unfoldable pub add_fields : List (Text × Field) → Map Value → Map Value
add_fields [] extra = extra
add_fields ((key, field) ∷ rest) extra = add_fields rest (insert key (value_of field) extra)

-- The frames of the error reported, or the stack of the logging call.
abbrev pub frames_of_log : Moment → LogRecord → List Frame → List Frame
frames_of_log m r [] = log_stack r.site (capture_stack m.shown 2 m.stack)
frames_of_log m r (frame ∷ rest) = frame ∷ rest

abbrev pub complete : Option Err → List (Text × Field) → Event → Event
complete none found event = record event {
  extra = add_fields found event.extra;
  tags = insert (codes "logger") (text_value (codes "slog")) event.tags;
}
complete (some err) found event =
    let event' = with_error_chain err event in
    record event' {
      extra = add_fields found event'.extra;
      tags = insert (codes "logger") (text_value (codes "slog")) event'.tags;
    }

abbrev pub complete_found : Option Err → List (Text × Field) → Option Event → Option Event
complete_found err found none = none
complete_found err found (some event) = some (complete err found event)

-- captureEvent on the error found among the fields
unfoldable pub capture_found :
    Moment → Client → Option ℕ → LogRecord → List (Text × Field) → Option Err → Client
unfolding new_event finish add_fields
capture_found m c scope r found none =
    let (c', event) =
      new_event m c scope (event_level_of r.level) (codes "log") r.text (frames_of_log m r []) in
    (finish c' (complete_found none found event) []).0
capture_found m c scope r found (some err) =
    let (c', event) =
      new_event m c scope (event_level_of r.level) (error_type err)
        (r.text ++ (codes ": " ++ message err)) (frames_of_log m r (error_frames m.shown err)) in
    (finish c' (complete_found (some err) found event) []).0

-- captureEvent, the fields given in the order in which the loop over the map meets them.
unfoldable pub capture_log : Moment → Client → Option ℕ → LogRecord → List (Text × Field) → Client
unfolding capture_found first_failure
capture_log m c scope r found = capture_found m c scope r found (first_failure found)

-- if client.sampled() { h.captureEvent(…) }
abbrev pub capture_if : Client × Bool → Moment → Option ℕ → LogRecord → List (Text × Field) → Client
capture_if kept m scope r found = if kept.1 then capture_log m kept.0 scope r found else kept.0

-- The breadcrumb that Handle adds.
abbrev pub crumb_of_record : (Field → Text) → LogRecord → List (Text × Field) → Breadcrumb
crumb_of_record shown r found = record {
  category = codes "log";
  message = r.text;
  details = describe_attrs shown found;
  level = breadcrumb_level_of r.level;
  at = blank;
}

-- The switch of Handle.
unfoldable pub report_record :
    (Field → Text) → Moment → LogHandler → Client → Option ℕ → LogRecord → Client × Scopes
unfolding capture_log sampled fields describe_attrs
report_record shown m h c scope r =
    if leb_ℤ h.event_level r.level
    then (capture_if (sampled m c) m scope r (fields h r.attrs), m.scopes)
    else if leb_ℤ h.breadcrumb_level r.level
    then (c, add_breadcrumb m.scopes scope m.now (crumb_of_record shown r (fields h r.attrs)))
    else (c, m.scopes)

-- Handle, up to the handler wrapped: the client and the scopes.
unfoldable pub handle :
    (Field → Text) → Moment → LogHandler → Client → Option ℕ → LogRecord → Client × Scopes
unfolding report_record
handle shown m h c scope r =
    if not c.enabled then (c, m.scopes) else report_record shown m h c scope r
