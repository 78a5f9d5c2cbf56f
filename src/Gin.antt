-- ===== src/Gin.antt =====
-- gin/gin-middleware.go: what Recovery and Breadcrumbs do around gin's chain of handlers. The
-- handlers are an argument: how they ended, and the gin context and the stores as they left them.
-- The options' functions are arguments as well, and total.
mod Tests
pub mod Requests
pub mod Attached
use bugfree_go_sdk.Base.{
  Bool, List, Option, Text, [], codes, if◌then◌else◌, is_empty, leb, ltb, map, none, not, or_else,
  some, ℕ, ◌&&◌, ◌++◌, ◌∷◌,
}
use bugfree_go_sdk.Errors.{Err, Recovered, error_callers, message}
use bugfree_go_sdk.Event.{
  Event, EventModifier, Request, User, blank, text_value, with_request, with_tag, with_trace_id,
  with_user,
}
use bugfree_go_sdk.Scope.{Context, Scopes, add_breadcrumb, scope_from_context}
use bugfree_go_sdk.Client.Capture.{capture_context, exception, panicked}
use bugfree_go_sdk.Client.{Client, Moment}
use bugfree_go_sdk.Sessions.{session_crashed, session_errored, session_ok}
use bugfree_go_sdk.Tracing.{Spans, set_http_status, set_name, set_status}
use bugfree_go_sdk.Recover.{
  HandlerEnd, Service, aborts, finish_transaction, open_request, panicked_with, record_for,
  returned,
}

-- What the middleware reads of a *gin.Context: the request, the matched route ("" if none), the
-- texts under gin's keys, and what the handlers left: the response's status and the errors
-- attached, each with the moment of its capture. `address` is the URL without its query string.
pub record GinContext : Type 0 where
  pub method : Text
  pub path : Text
  pub address : Text
  pub full_address : Text
  pub user_agent : Text
  pub route : Text
  pub body_bytes : Option Text
  pub request_id_key : Text
  pub request_id_header : Text
  pub client_ip : Text
  pub status : ℕ
  pub errors : List (Moment × Err)

-- type Options struct; `on_panic` says that there is an OnPanic.
pub record GinOptions : Type 0 where
  pub repanic : Bool
  pub send_request_body : Bool
  pub send_query_string : Bool
  pub user_resolver : Option (GinContext → User)
  pub omit_client_ip : Bool
  pub request_id_resolver : Option (GinContext → Text)
  pub on_panic : Bool
  pub capture_errors : Bool

-- requestOf
unfoldable pub request_of : GinContext → GinOptions → Request
request_of g o = record {
  method = g.method;
  url = if o.send_query_string then g.full_address else g.address;
  status_code = 0;
  user_agent = g.user_agent;
  body = if o.send_request_body then elim g.body_bytes [ none ↦ [] | some body ↦ body ] else [];
}

-- requestIDOf
unfoldable pub request_id_of : GinContext → Text
request_id_of g = if is_empty g.request_id_key then g.request_id_header else g.request_id_key

abbrev pub request_id_for : GinContext → Option (GinContext → Text) → Text
unfolding request_id_of
request_id_for g none = request_id_of g
request_id_for g (some resolver) = resolver g

abbrev pub with_client_ip : GinContext → Bool → User → User
with_client_ip g omit user =
    if is_empty user.ip_address && not omit then record user { ip_address = g.client_ip } else user

abbrev pub user_modifiers : GinContext → Bool → Option (GinContext → User) → List EventModifier
unfolding with_user
user_modifiers g omit none = []
user_modifiers g omit (some resolver) = with_user (with_client_ip g omit (resolver g)) ∷ []

-- requestModifiers
unfoldable pub request_modifiers : GinContext → GinOptions → List EventModifier
unfolding with_request with_tag request_of with_trace_id
request_modifiers g o =
    let request_id = request_id_for g o.request_id_resolver in
    with_request (request_of g o)
    ∷ with_tag (codes "handler") (text_value (codes "gin"))
    ∷ with_tag (codes "route") (text_value g.route)
    ∷ ((if is_empty request_id then [] else with_trace_id request_id ∷ [])
        ++ user_modifiers g o.omit_client_ip o.user_resolver)

-- event.Request.StatusCode = status; the events that this is for have a request.
abbrev pub with_status : ℕ → Event → Event
with_status status event = elim event.request [
  | none ↦ event
  | some request ↦ record event { request = some (record request { status_code = status }) }
]

-- The modifier of captureErrors; `recorded` is the stack that the error carries.
unfoldable pub attached_modifier : GinContext → List ℕ → EventModifier
attached_modifier g [] event =
    let event' = with_status g.status event in
    record event' { stacktrace = []; culprit = g.method ++ (codes " " ++ g.route) }
attached_modifier g (pc ∷ pcs) event = with_status g.status event

-- The body of captureErrors' loop.
unfoldable pub capture_attached :
    GinContext → GinOptions → Option Context → Option (Text × Text) → Moment → Err → Client → Client
unfolding capture_context request_modifiers attached_modifier error_callers
capture_attached g o ctx span m err c =
    (capture_context m c ctx span (exception (some err) none)
      (map some (request_modifiers g o ++ attached_modifier g (error_callers err) ∷ []))).0

unfoldable pub capture_each :
    GinContext
    → GinOptions
    → Option Context
    → Option (Text × Text)
    → List (Moment × Err)
    → Client
    → Client
unfolding capture_attached
capture_each g o ctx span [] c = c
capture_each g o ctx span ((m, err) ∷ errors) c =
    capture_each g o ctx span errors (capture_attached g o ctx span m err c)

-- captureErrors
unfoldable pub capture_errors :
    GinContext → GinOptions → Option Context → Option (Text × Text) → Client → Client
unfolding capture_each
capture_errors g o ctx span c = if ltb g.status 500 then c else capture_each g o ctx span g.errors c

-- How Recovery leaves a request to gin: as the handlers wrote it, by a panic, by OnPanic's
-- response, or aborted with status 500. Both of the last two have logged the panic.
pub data GinOutcome : Type 0 where
  passed_on raised_again answered_by_hook aborted_with_500 : GinOutcome

-- The part of Recovery after c.Next() has returned.
unfoldable pub after_next :
    GinContext → GinOptions → ℕ → Option Context → Option (Text × Text) → Service → Service
unfolding record_for capture_errors
after_next g o now ctx span s =
    let s' = record_for (if leb 500 g.status then session_errored else session_ok) now s in
    if o.capture_errors then record s' { client = capture_errors g o ctx span s'.client } else s'

-- transaction.SetName, when gin has matched a route
unfoldable pub rename_route : GinContext → Spans → Option ℕ → Spans
unfolding set_name
rename_route g spans transaction =
    if is_empty g.route
    then spans
    else set_name spans transaction (g.method ++ (codes " " ++ g.route))

abbrev pub outcome_of_panic : GinOptions → GinOutcome
outcome_of_panic o =
    if o.repanic then raised_again else if o.on_panic then answered_by_hook else aborted_with_500

-- capture
unfoldable pub capture_panic :
    Moment
    → GinContext
    → GinOptions
    → Option Context
    → Option (Text × Text)
    → Recovered
    → Client
    → Client
unfolding capture_context request_modifiers
capture_panic m g o ctx span recovered c =
    (capture_context m c ctx span (panicked (some recovered) 2)
      (map some (request_modifiers g o))).0

-- Recovery from c.Next() on: what follows it, and the deferred function.
unfoldable pub recovery :
    Moment
    → GinContext
    → GinOptions
    → Option Context
    → Option (Text × Text)
    → Option ℕ
    → HandlerEnd
    → Service
    → Service × GinOutcome
unfolding after_next rename_route set_http_status set_status record_for capture_panic
recovery m g o ctx span transaction returned s =
    let s' = after_next g o m.now ctx span s in
    let named = rename_route g s'.spans transaction in
    (
      finish_transaction transaction m.now
          (record s' { spans = set_http_status named transaction g.status }),
      passed_on,
    )
recovery m g o ctx span transaction aborts s =
    let named = rename_route g s.spans transaction in
    (
      finish_transaction transaction m.now
          (record s { spans = set_status named transaction (codes "cancelled") }),
      raised_again,
    )
recovery m g o ctx span transaction (panicked_with r) s =
    let named = rename_route g s.spans transaction in
    let ended =
      finish_transaction transaction m.now
        (record s { spans = set_http_status named transaction 500 }) in
    let counted = record_for session_crashed m.now ended in
    (record counted { client = capture_panic m g o ctx span r counted.client }, outcome_of_panic o)

-- Recovery up to c.Next(); the name is the path, since gin has matched no route yet.
unfoldable pub begin_recovery :
    Service
    → Scopes
    → Option Context
    → GinContext
    → Text
    → ℕ
    → Text
    → Text
    → Service × Scopes × Option Context × Option ℕ
unfolding open_request
begin_recovery s scopes ctx g header now span_id trace_id =
    open_request (codes "http.server") s scopes ctx (g.method ++ (codes " " ++ g.path)) header now
      span_id trace_id

-- levelForStatus
unfoldable pub level_for_status : ℕ → Text
level_for_status status =
    if leb 500 status
    then codes "error"
    else if leb 400 status
    then codes "warning"
    else codes "info"

-- Breadcrumbs, after c.Next(): `current` is the global scope, `status_text` is http.StatusText.
unfoldable pub breadcrumbs :
    (ℕ → Text) → GinContext → Option Context → Option ℕ → ℕ → Scopes → Scopes
unfolding level_for_status add_breadcrumb scope_from_context
breadcrumbs status_text g ctx current now scopes =
    add_breadcrumb scopes (or_else (scope_from_context ctx) current) now (record {
      category = codes "http";
      message = g.method ++ (codes " " ++ g.path);
      details = status_text g.status;
      level = level_for_status g.status;
      at = blank;
    })
