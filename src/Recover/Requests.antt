-- ===== src/Recover/Requests.antt =====
-- recover.go, Middleware: what every request leaves behind, however its handler ends.
use bugfree_go_sdk.Base.{
  Option, Text, ap, arith, codes, get_elem?, get_elem?-modify_self, if◌then◌else◌, leb, max, none,
  refl, some, true, ℕ, ◌∙◌, ◌≡◌,
}
use bugfree_go_sdk.Event.{Request}
use bugfree_go_sdk.Scope.{Context}
use bugfree_go_sdk.Client.{Moment}
use bugfree_go_sdk.Sessions.{
  Aggregator, SessionStatus, StatusWriter, session_crashed, session_errored, session_for_status,
  session_ok,
}
use bugfree_go_sdk.Tracing.{
  Span, Spans, change_span, finish_span, set_http_status, set_status, with_http_status,
}
use bugfree_go_sdk.Tracing.Finishing.{finish_span_finishes}
use bugfree_go_sdk.Recover.{
  HandlerEnd, Outcome, Service, aborts, as_written, count_session, internal_error, panicked_with,
  re_panics, record_for, returned, settle, settle_returned,
}

-- The session that a request is, if it is one: an aborted response is none.
abbrev pub session_of : Option StatusWriter → HandlerEnd → Option SessionStatus
session_of none returned = none
session_of (some w) returned = some (if leb 500 w.status then session_errored else session_ok)
session_of w aborts = none
session_of w (panicked_with r) = some session_crashed

abbrev pub counted_as : Option SessionStatus → ℕ → Option Aggregator → Option Aggregator
counted_as none now sessions = sessions
counted_as (some status) now sessions = count_session status now sessions

abbrev pub outcome_of : HandlerEnd → Outcome
outcome_of returned = as_written
outcome_of aborts = re_panics
outcome_of (panicked_with r) = internal_error

-- A span has its place in a store, finished.
abbrev pub IsFinishedAt : Spans → ℕ → Type 0
IsFinishedAt spans i = (span : Span) × (get_elem? spans i ≡ some span) × (span.finished ≡ true)

-- A span has its place in a store.
abbrev pub IsHeldAt : Spans → ℕ → Type 0
IsHeldAt spans i = (span : Span) × (get_elem? spans i ≡ some span)

pub finish_span-IsFinishedAt :
    (spans : Spans) (i now : ℕ)
    → IsHeldAt spans i
    → IsFinishedAt (finish_span spans (some i) now).0 i
finish_span-IsFinishedAt spans i now (span, at) = finish_span_finishes spans i now span at

change_span-some :
    (f : Span → Span) (spans : Spans) (i : ℕ) (span : Span)
    → get_elem? spans i ≡ some span
    → get_elem? (change_span f spans (some i)) i ≡ some (f span)
change_span-some f spans i span at = get_elem?-modify_self f spans i span at

pub change_span-IsHeldAt :
    (f : Span → Span) (spans : Spans) (i : ℕ)
    → IsHeldAt spans i
    → IsHeldAt (change_span f spans (some i)) i
change_span-IsHeldAt f spans i (span, at) = (f span, change_span-some f spans i span at)

pub record_for-spans :
    (status : SessionStatus) (now : ℕ) (s : Service) → (record_for status now s).spans ≡ s.spans
unfolding record_for
record_for-spans status now s = ground arith

pub record_for-sessions :
    (status : SessionStatus) (now : ℕ) (s : Service)
    → s.client.enabled ≡ true
    → (record_for status now s).sessions ≡ count_session status now s.sessions
unfolding record_for
record_for-sessions status now s on = ground arith

-- A session counted, a change of the transaction, and its Finish.
finished_after :
    (f : Span → Span) (status : SessionStatus) (now i : ℕ) (s : Service) (span : Span)
    → get_elem? s.spans i ≡ some span
    → IsFinishedAt
        (finish_span (change_span f (record_for status now s).spans (some i)) (some i) now).0
        i
finished_after f status now i s span at =
    finish_span_finishes (change_span f (record_for status now s).spans (some i)) i now (f span) (
      change_span-some f (record_for status now s).spans i span
        (ap (λ (spans : Spans). get_elem? spans i) (record_for-spans status now s) ∙ at))

-- Of an enabled client: when the handler of a request has ended, in whatever way, its transaction
-- has finished; the request is counted as one session, crashed after a panic, errored after a
-- status from 500 on and else ok, but as none when the response was aborted or nothing needed its
-- status; and only the panic that aborts a response goes on to net/http.
pub settle-IsFinishedAt :
    (m : Moment) (ctx : Option Context) (trace : Option (Text × Text)) (request : Request)
    (w : Option StatusWriter) (i : ℕ) (end : HandlerEnd) (s : Service) (span : Span)
    → s.client.enabled ≡ true
    → get_elem? s.spans i ≡ some span
    → IsFinishedAt (settle m ctx trace request w (some i) end s).0.spans i
      × ((settle m ctx trace request w (some i) end s).0.sessions
          ≡ counted_as (session_of w end) m.now s.sessions)
      × ((settle m ctx trace request w (some i) end s).1 ≡ outcome_of end)
unfolding settle settle_returned set_status set_http_status session_for_status
settle-IsFinishedAt m ctx trace request none i returned s span on at =
    (finish_span_finishes s.spans i m.now span at, refl, refl)
settle-IsFinishedAt m ctx trace request (some w) i returned s span on at = (
  finished_after (with_http_status (max w.status 200)) (session_for_status w.status) m.now i s span
      at,
  record_for-sessions (session_for_status w.status) m.now s on,
  refl,
)
settle-IsFinishedAt m ctx trace request w i aborts s span on at = (
  finish_span_finishes (set_status s.spans (some i) (codes "cancelled")) i m.now
      (record span { status = codes "cancelled" })
      (change_span-some (λ x. record x { status = codes "cancelled" }) s.spans i span at),
  refl,
  refl,
)
settle-IsFinishedAt m ctx trace request w i (panicked_with r) s span on at = (
  finished_after (with_http_status 500) session_crashed m.now i s span at,
  record_for-sessions session_crashed m.now s on,
  refl,
)
