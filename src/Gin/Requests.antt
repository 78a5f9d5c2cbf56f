-- ===== src/Gin/Requests.antt =====
-- gin/gin-middleware.go, Recovery: what every request leaves behind, however its handlers end.
use bugfree_go_sdk.Base.{
  Bool-cases, Option, Text, arith, codes, if◌then◌else◌, inl, inr, is_empty, leb, none, refl, some,
  true, ℕ, ◌++◌, ◌≡◌,
}
use bugfree_go_sdk.Scope.{Context}
use bugfree_go_sdk.Client.{Moment}
use bugfree_go_sdk.Sessions.{SessionStatus, session_crashed, session_errored, session_ok}
use bugfree_go_sdk.Tracing.{
  Span, Spans, change_span, finish_span, set_http_status, set_name, set_status, with_http_status,
}
use bugfree_go_sdk.Recover.{HandlerEnd, Service, aborts, count_session, panicked_with, returned}
use bugfree_go_sdk.Recover.Requests.{
  IsFinishedAt, IsHeldAt, change_span-IsHeldAt, counted_as, finish_span-IsFinishedAt,
  record_for-sessions, record_for-spans,
}
use bugfree_go_sdk.Gin.{
  GinContext, GinOptions, GinOutcome, aborted_with_500, after_next, answered_by_hook, passed_on,
  raised_again, recovery, rename_route,
}

-- The session that a request is, if it is one.
abbrev pub gin_session_of : GinContext → HandlerEnd → Option SessionStatus
gin_session_of g returned = some (if leb 500 g.status then session_errored else session_ok)
gin_session_of g aborts = none
gin_session_of g (panicked_with r) = some session_crashed

abbrev pub gin_outcome_of : GinOptions → HandlerEnd → GinOutcome
gin_outcome_of o returned = passed_on
gin_outcome_of o aborts = raised_again
gin_outcome_of o (panicked_with r) =
    if o.repanic then raised_again else if o.on_panic then answered_by_hook else aborted_with_500

rename_route-IsHeldAt :
    (g : GinContext) (spans : Spans) (i : ℕ)
    → IsHeldAt spans i
    → IsHeldAt (rename_route g spans (some i)) i
unfolding rename_route set_name
rename_route-IsHeldAt g spans i held = elim (Bool-cases (is_empty g.route)) [
  | inl e ↦ rw e held
  | inr e ↦ rw e (
      change_span-IsHeldAt (λ span. record span { name = g.method ++ (codes " " ++ g.route) }) spans
        i held)
]

-- The route, a change of the transaction, and its Finish.
ended :
    (g : GinContext) (f : Span → Span) (spans : Spans) (i now : ℕ)
    → IsHeldAt spans i
    → IsFinishedAt
        (finish_span (change_span f (rename_route g spans (some i)) (some i)) (some i) now).0
        i
ended g f spans i now held =
    finish_span-IsFinishedAt (change_span f (rename_route g spans (some i)) (some i)) i now (
      change_span-IsHeldAt f (rename_route g spans (some i)) i
        (rename_route-IsHeldAt g spans i held))

after_next-spans :
    (g : GinContext) (o : GinOptions) (now : ℕ) (ctx : Option Context) (span : Option (Text × Text))
    (s : Service)
    → (after_next g o now ctx span s).spans ≡ s.spans
unfolding after_next
after_next-spans g o now ctx span s =
    ground
      (arith, record_for-spans (if leb 500 g.status then session_errored else session_ok) now s)

after_next-sessions :
    (g : GinContext) (o : GinOptions) (now : ℕ) (ctx : Option Context) (span : Option (Text × Text))
    (s : Service)
    → s.client.enabled ≡ true
    → (after_next g o now ctx span s).sessions
      ≡ count_session (if leb 500 g.status then session_errored else session_ok) now s.sessions
unfolding after_next
after_next-sessions g o now ctx span s on =
    ground (
      arith,
      record_for-sessions (if leb 500 g.status then session_errored else session_ok) now s on,
    )

-- Of an enabled client: when the handlers of a request behind Recovery have ended, in whatever way,
-- its transaction has finished; the request is counted as one session, crashed after a panic,
-- errored after a status from 500 on and else ok, but as none when the response was aborted; and
-- gin is left with the response, with the panic, with OnPanic's response or with an abort, as the
-- options say.
pub recovery-IsFinishedAt :
    (m : Moment) (g : GinContext) (o : GinOptions) (ctx : Option Context)
    (trace : Option (Text × Text)) (i : ℕ) (end : HandlerEnd) (s : Service)
    → s.client.enabled ≡ true
    → IsHeldAt s.spans i
    → IsFinishedAt (recovery m g o ctx trace (some i) end s).0.spans i
      × ((recovery m g o ctx trace (some i) end s).0.sessions
          ≡ counted_as (gin_session_of g end) m.now s.sessions)
      × ((recovery m g o ctx trace (some i) end s).1 ≡ gin_outcome_of o end)
unfolding recovery set_http_status set_status
recovery-IsFinishedAt m g o ctx trace i returned s on held = (
  ended g (with_http_status g.status) (after_next g o m.now ctx trace s).spans i m.now
      (rw (after_next-spans g o m.now ctx trace s) held),
  after_next-sessions g o m.now ctx trace s on,
  refl,
)
recovery-IsFinishedAt m g o ctx trace i aborts s on held =
    (ended g (λ x. record x { status = codes "cancelled" }) s.spans i m.now held, refl, refl)
recovery-IsFinishedAt m g o ctx trace i (panicked_with r) s on held =
    let finished : Service = record s {
      spans =
          (finish_span
            (change_span (with_http_status 500) (rename_route g s.spans (some i)) (some i)) (some i)
            m.now).0;
    } in
    (
      rw (record_for-spans session_crashed m.now finished)
          (ended g (with_http_status 500) s.spans i m.now held),
      record_for-sessions session_crashed m.now finished on,
      refl,
    )
