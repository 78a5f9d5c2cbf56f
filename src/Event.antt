-- ===== src/Event.antt =====
-- event.go, and the event modifiers of scope.go. `Value` is Go's `any` as tags and extra fields
-- hold it; a level is its text.
use bugfree_go_sdk.Base.{
  List, Map, Option, Text, [], codes, if◌then◌else◌, insert, is_empty, some, ℕ, ◌∷◌,
}
use bugfree_go_sdk.Errors.{Err, Link, error_chain}
use bugfree_go_sdk.Frames.{Frame}

pub data Value : Type 0 where
  text_value : Text → Value
  number : ℕ → Value
  chain : List Link → Value
  -- any other value, told apart by a number
  opaque_value : ℕ → Value

-- type Level string, and its constants
abbrev pub Level : Type 0
Level = Text

abbrev pub level_fatal : Level
level_fatal = codes "fatal"

abbrev pub level_error : Level
level_error = codes "error"

abbrev pub level_warning : Level
level_warning = codes "warning"

abbrev pub level_info : Level
level_info = codes "info"

-- A breadcrumb's At text, by what time.Parse makes of it: "", an instant in nanoseconds since
-- year 1 (the zero time.Time), or a text that is no time.
pub data Stamp : Type 0 where
  blank : Stamp
  instant : ℕ → Stamp
  unreadable : Text → Stamp

-- type Breadcrumb struct
pub record Breadcrumb : Type 0 where
  pub category : Text
  pub message : Text
  pub details : Text
  pub level : Text
  pub at : Stamp

-- type Request struct
pub record Request : Type 0 where
  pub method : Text
  pub url : Text
  pub status_code : ℕ
  pub user_agent : Text
  pub body : Text

-- type User struct
pub record User : Type 0 where
  pub id : Text
  pub email : Text
  pub ip_address : Text

-- type Event struct; DurationMS is set by no code of the SDK.
pub record Event : Type 0 where
  pub event_id : Text
  pub level : Level
  pub type : Text
  pub message : Text
  pub culprit : Text
  pub platform : Text
  pub environment : Text
  pub release : Text
  pub server_name : Text
  pub runtime : Text
  pub os : Text
  pub request : Option Request
  pub user : Option User
  pub trace_id : Text
  pub stacktrace : List Frame
  pub breadcrumbs : List Breadcrumb
  pub tags : Map Value
  pub extra : Map Value
  pub memory : Map Value
  pub fingerprint : Text
  pub occurred_at : Stamp

-- type EventModifier func(*Event)
abbrev pub EventModifier : Type 0
EventModifier = Event → Event

-- WithLevel
unfoldable pub with_level : Level → EventModifier
with_level level event = record event { level = level }

-- WithRequest
unfoldable pub with_request : Request → EventModifier
with_request request event = record event { request = some request }

-- WithUser
unfoldable pub with_user : User → EventModifier
with_user user event = record event { user = some user }

-- WithTag; a nil map is the empty one.
unfoldable pub with_tag : Text → Value → EventModifier
with_tag key value event = record event { tags = insert key value event.tags }

-- WithExtra
unfoldable pub with_extra : Text → Value → EventModifier
with_extra key value event = record event { extra = insert key value event.extra }

-- WithTraceID
unfoldable pub with_trace_id : Text → EventModifier
with_trace_id trace_id event = record event { trace_id = trace_id }

-- WithType
unfoldable pub with_type : Text → EventModifier
with_type name event = if is_empty name then event else record event { type = name }

-- WithFingerprint
unfoldable pub with_fingerprint : Text → EventModifier
with_fingerprint fingerprint event = record event { fingerprint = fingerprint }

-- withErrorChain
unfoldable pub with_error_chain : Err → EventModifier
with_error_chain err event = elim (error_chain err) [
  | [] ↦ event
  | link ∷ rest ↦ record event {
    extra = insert (codes "error_chain") (chain (link ∷ rest)) event.extra;
  }
]
