-- ===== src/Grpc.antt =====
-- grpc/grpc-interceptor.go: what the two interceptors do around a gRPC handler. The handler is an
-- argument, by how it ended; so is what gRPC and the standard library say of an error (`Library`).
-- A code is its number; incoming metadata maps a key to its values.
mod Tests
pub mod Calls
pub mod Faults
use bugfree_go_sdk.Base.{
  Bool, List, Map, Option, Text, [], codes, false, if◌then◌else◌, is_empty, leb, lookup, map, none,
  not, some, ℕ, ◌&&◌, ◌++◌, ◌+◌, ◌==◌, ◌||◌, ◌∷◌,
}
use bugfree_go_sdk.Errors.{Err, Recovered, error_callers, walk_errors}
use bugfree_go_sdk.Event.{EventModifier, User, text_value, with_tag, with_trace_id, with_user}
use bugfree_go_sdk.Scope.{Context, Scopes}
use bugfree_go_sdk.Client.Capture.{capture_context, exception, panicked}
use bugfree_go_sdk.Client.{Client, Moment}
use bugfree_go_sdk.Sessions.{SessionStatus, session_crashed, session_errored, session_ok}
use bugfree_go_sdk.Tracing.{Spans, set_status}
use bugfree_go_sdk.Recover.{Service, finish_transaction, open_request, record_for}

-- status.Code, codes.Code.String, and whether an error is itself io.EOF, io.ErrUnexpectedEOF,
-- context.Canceled or context.DeadlineExceeded, which errors.Is asks of each error of a tree.
pub record Library : Type 0 where
  pub code_of : Option Err → ℕ
  pub code_text : ℕ → Text
  pub is_end : Err → Bool

-- codes.Canceled, codes.Unknown, codes.DeadlineExceeded, codes.Internal and codes.DataLoss
abbrev pub canceled : ℕ
canceled = 1

abbrev pub deadline_exceeded : ℕ
deadline_exceeded = 4

-- defaultErrorCodes
abbrev pub default_error_codes : List ℕ
default_error_codes = 2 ∷ 13 ∷ 15 ∷ []

-- The places where the code reads ctx.Err(), in their order: a call's context may end in between.
pub data Reading : Type 0 where
  at_session at_capture at_finish : Reading

-- What an interceptor reads of a call; `over` says that ctx.Err() is not nil.
pub record Call : Type 0 where
  pub method : Text
  pub metadata : Option (Map (List Text))
  pub over : Reading → Bool

-- type Options struct
pub record GrpcOptions : Type 0 where
  pub repanic : Bool
  pub capture_errors : Bool
  pub error_codes : List ℕ
  pub user_resolver : Option (Call → User)

-- containsCode
unfoldable pub contains_code : List ℕ → ℕ → Bool
contains_code [] code = false
contains_code (candidate ∷ rest) code = candidate == code || contains_code rest code

abbrev pub first_of : Option (List Text) → Text
first_of none = []
first_of (some []) = []
first_of (some (value ∷ rest)) = value

-- The first value of a key of the incoming metadata, "" if there is none.
abbrev pub incoming : Text → Option (Map (List Text)) → Text
unfolding lookup
incoming key none = []
incoming key (some metadata) = first_of (lookup key metadata)

-- traceparentOf and requestIDOf
unfoldable pub traceparent_of : Call → Text
traceparent_of call = incoming (codes "traceparent") call.metadata

unfoldable pub request_id_of : Call → Text
request_id_of call = incoming (codes "x-request-id") call.metadata

abbrev pub user_modifiers : Call → Option (Call → User) → List EventModifier
unfolding with_user
user_modifiers call none = []
user_modifiers call (some resolver) = with_user (resolver call) ∷ []

-- modifiers
unfoldable pub modifiers : Call → GrpcOptions → List EventModifier
unfolding with_tag request_id_of with_trace_id
modifiers call o =
    with_tag (codes "handler") (text_value (codes "grpc"))
    ∷ with_tag (codes "grpc.method") (text_value call.method)
    ∷ ((if is_empty (request_id_of call) then [] else with_trace_id (request_id_of call) ∷ [])
        ++ user_modifiers call o.user_resolver)

-- The last modifier of captureError; `recorded` is the stack that the error carries.
unfoldable pub group_by_method : Text → List ℕ → EventModifier
group_by_method method [] event = record event { stacktrace = []; culprit = method }
group_by_method method (pc ∷ pcs) event = event

-- strings.ToLower, on ASCII
abbrev pub lower_byte : ℕ → ℕ
lower_byte b = if leb 65 b && leb b 90 then b + 32 else b

unfoldable pub to_lower : Text → Text
to_lower s = map lower_byte s

-- errors.Is for the four errors that end a call
unfoldable pub any_end : (Err → Bool) → List Err → Bool
any_end is_end [] = false
any_end is_end (e ∷ rest) = is_end e || any_end is_end rest

-- How a handler ends: with an error or without one, or by a panic.
pub data CallEnd : Type 0 where
  ended : Option Err → CallEnd
  panicked_in : Recovered → CallEnd

-- What the caller of an interceptor gets: the handler's own answer, the panic, or no response and
-- the status codes.Internal, after the panic was logged.
pub data CallOutcome : Type 0 where
  passed : Option Err → CallOutcome
  raised_again internal : CallOutcome

module _ (lib : Library) where
  -- abandoned
  unfoldable pub abandoned : Bool → Option Err → Bool
  unfolding any_end walk_errors
  abandoned over none = false
  abandoned over (some err) =
      over
      || (lib.code_of (some err) == canceled || lib.code_of (some err) == deadline_exceeded)
      || any_end lib.is_end (walk_errors err)

  -- The session that recordSession counts.
  unfoldable pub session_of_call : Call → Option Err → SessionStatus
  unfolding abandoned contains_code
  session_of_call call err =
      if not (abandoned (call.over at_session) err)
        && contains_code default_error_codes (lib.code_of err)
      then session_errored
      else session_ok

  -- recordSession
  unfoldable pub record_call : Call → Option Err → ℕ → Service → Service
  unfolding record_for session_of_call
  record_call call err now s = record_for (session_of_call call err) now s

  abbrev pub watched : List ℕ → List ℕ
  watched [] = default_error_codes
  watched (code ∷ rest) = code ∷ rest

  -- captureError
  unfoldable pub capture_error :
      Moment
      → Call
      → GrpcOptions
      → Option Context
      → Option (Text × Text)
      → Option Err
      → Client
      → Client
  unfolding abandoned contains_code capture_context modifiers with_tag error_callers group_by_method
  capture_error m call o ctx span none c = c
  capture_error m call o ctx span (some err) c =
      if abandoned (call.over at_capture) (some err)
      then c
      else if not (contains_code (watched o.error_codes) (lib.code_of (some err)))
      then c
      else (capture_context m c ctx span (exception (some err) none) (
          map some (
            modifiers call o
            ++ (with_tag (codes "grpc.code") (text_value (lib.code_text (lib.code_of (some err))))
                ∷ group_by_method call.method (error_callers err)
                ∷ [])))).0

  -- The status that finishTransaction sets on the transaction, if it sets one.
  unfoldable pub mark_call : Call → Spans → Option ℕ → Option Err → Spans
  unfolding abandoned set_status to_lower
  mark_call call spans transaction err =
      if abandoned (call.over at_finish) err
      then set_status spans transaction (codes "cancelled")
      else if not (lib.code_of err == 0)
      then set_status spans transaction (to_lower (lib.code_text (lib.code_of err)))
      else spans

  -- The part of an interceptor after its handler has returned.
  unfoldable pub after_handler :
      Moment
      → Call
      → GrpcOptions
      → Option Context
      → Option (Text × Text)
      → Option Err
      → Service
      → Service
  unfolding record_call capture_error
  after_handler m call o ctx span err s =
      let s' = record_call call err m.now s in
      if o.capture_errors
      then record s' { client = capture_error m call o ctx span err s'.client }
      else s'

  -- Either interceptor from the call of its handler on: what follows it, and the deferred function.
  unfoldable pub intercept :
      Moment
      → Call
      → GrpcOptions
      → Option Context
      → Option (Text × Text)
      → Option ℕ
      → CallEnd
      → Service
      → Service × CallOutcome
  unfolding after_handler mark_call set_status record_for capture_context modifiers
  intercept m call o ctx span transaction (ended err) s =
      let s' = after_handler m call o ctx span err s in
      (
        finish_transaction transaction m.now
            (record s' { spans = mark_call call s'.spans transaction err }),
        passed err,
      )
  intercept m call o ctx span transaction (panicked_in r) s =
      let done =
        finish_transaction transaction m.now
          (record s { spans = set_status s.spans transaction (codes "internal_error") }) in
      let counted = record_for session_crashed m.now done in
      let captured =
        capture_context m counted.client ctx span (panicked (some r) 2)
          (map some (modifiers call o)) in
      (record counted { client = captured.0 }, if o.repanic then raised_again else internal)

-- Either interceptor up to the call of its handler; `ctx` is the call's or the stream's context,
-- and the context that comes back is the handler's, by scopedStream for a stream.
unfoldable pub begin_call :
    Service
    → Scopes
    → Option Context
    → Call
    → ℕ
    → Text
    → Text
    → Service × Scopes × Option Context × Option ℕ
unfolding open_request traceparent_of
begin_call s scopes ctx call now span_id trace_id =
    open_request (codes "grpc.server") s scopes ctx call.method (traceparent_of call) now span_id
      trace_id
