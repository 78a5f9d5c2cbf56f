-- ===== src/Recover.antt =====
-- recover.go: what Middleware does around a net/http handler. The handler itself is an argument:
-- what it wrote, the stores as it left them and how it ended.
mod Tests
pub mod Requests
pub mod Panics
pub mod Address
use bugfree_go_sdk.Base.{
  Bool, Option, Text, [], codes, if◌then◌else◌, is_some, max, none, not, some, ℕ, ◌&&◌, ◌||◌, ◌∷◌,
}
use bugfree_go_sdk.Errors.{Recovered}
use bugfree_go_sdk.Event.{Request, text_value, with_request, with_tag}
use bugfree_go_sdk.Scope.{Context, Scopes, context_with_scope}
use bugfree_go_sdk.Client.Capture.{capture_context, panicked}
use bugfree_go_sdk.Client.{Client, Moment}
use bugfree_go_sdk.Sessions.{
  Aggregator, SessionStatus, StatusWriter, record_session, session_crashed, session_for_status,
}
use bugfree_go_sdk.Tracing.{
  Spans, continue_trace, finish_span, set_http_status, set_status, start_transaction, with_op,
}

-- What the middleware works on: the client, its sessions (none when they are not tracked) and the
-- spans.
pub record Service : Type 0 where
  pub client : Client
  pub sessions : Option Aggregator
  pub spans : Spans

abbrev pub count_session : SessionStatus → ℕ → Option Aggregator → Option Aggregator
count_session status at none = none
count_session status at (some a) = some (record_session a status at)

-- RecordSession
unfoldable pub record_for : SessionStatus → ℕ → Service → Service
record_for status at s =
    if not s.client.enabled then s else record s { sessions = count_session status at s.sessions }

-- TracksSessions
abbrev pub tracks_sessions : Service → Bool
tracks_sessions s = s.client.enabled && is_some s.sessions

-- The status writer that Middleware puts around the response, if it needs one.
unfoldable pub writer_for : Service → Option ℕ → Option StatusWriter
writer_for s transaction =
    if tracks_sessions s || is_some transaction then some (record { status = 0 }) else none

-- How a handler ends; `aborts` is a panic with http.ErrAbortHandler.
pub data HandlerEnd : Type 0 where
  returned aborts : HandlerEnd
  panicked_with : Recovered → HandlerEnd

-- What the middleware makes of it for net/http.
pub data Outcome : Type 0 where
  as_written re_panics internal_error : Outcome

-- The request for the event of a panic: RequestURL leaves the address without its query string.
abbrev pub request_for : Text → Text → Text → Request
request_for method address agent = record {
  method = method;
  url = address;
  status_code = 0;
  user_agent = agent;
  body = [];
}

-- The part of the deferred function for a handler that returned, on the status writer.
unfoldable pub settle_returned : Option StatusWriter → Option ℕ → ℕ → Service → Service
unfolding record_for set_http_status session_for_status
settle_returned none transaction now s = s
settle_returned (some w) transaction now s =
    let s' = record_for (session_for_status w.status) now s in
    record s' { spans = set_http_status s'.spans transaction (max w.status 200) }

abbrev pub finish_transaction : Option ℕ → ℕ → Service → Service
finish_transaction transaction now s = record s { spans = (finish_span s.spans transaction now).0 }

-- The deferred function of Middleware.
unfoldable pub settle :
    Moment
    → Option Context
    → Option (Text × Text)
    → Request
    → Option StatusWriter
    → Option ℕ
    → HandlerEnd
    → Service
    → Service × Outcome
unfolding settle_returned capture_context with_request with_tag set_status set_http_status
    record_for finish_span
settle m ctx span request w transaction returned s =
    (finish_transaction transaction m.now (settle_returned w transaction m.now s), as_written)
settle m ctx span request w transaction aborts s = (
  finish_transaction transaction m.now
      (record s { spans = set_status s.spans transaction (codes "cancelled") }),
  re_panics,
)
settle m ctx span request w transaction (panicked_with r) s =
    let s' = record_for session_crashed m.now s in
    let s'' =
      finish_transaction transaction m.now
        (record s' { spans = set_http_status s'.spans transaction 500 }) in
    let captured = capture_context m s''.client ctx span (panicked (some r) 2) (
      some (with_request request)
      ∷ some (with_tag (codes "handler") (text_value (codes "net/http")))
      ∷ []) in
    (record s'' { client = captured.0 }, internal_error)

-- The start of a request's or a call's handling: a scope of its own, and the transaction.
unfoldable pub open_request :
    Text
    → Service
    → Scopes
    → Option Context
    → Text
    → Text
    → ℕ
    → Text
    → Text
    → Service × Scopes × Option Context × Option ℕ
unfolding context_with_scope start_transaction with_op continue_trace
open_request op s scopes ctx name header now span_id trace_id =
    let (scopes', scoped) = context_with_scope scopes (some s.client.scope) ctx in
    let (spans, traced, transaction) =
      start_transaction s.client.enabled s.client.options s.spans (some scoped) name now span_id
        trace_id (with_op op ∷ continue_trace header ∷ []) in
    (record s { spans = spans }, scopes', traced, transaction)

-- Middleware up to the call of the handler: the store with the transaction, the context and the
-- writer.
unfoldable pub begin_request :
    Service
    → Scopes
    → Option Context
    → Text
    → Text
    → ℕ
    → Text
    → Text
    → Service × Scopes × Option Context × Option ℕ × Option StatusWriter
unfolding open_request writer_for
begin_request s scopes ctx name header now span_id trace_id =
    let (s', scopes', traced, transaction) =
      open_request (codes "http.server") s scopes ctx name header now span_id trace_id in
    (s', scopes', traced, transaction, writer_for s' transaction)
