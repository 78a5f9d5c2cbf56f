-- ===== src/Grpc/Calls.antt =====
-- grpc/grpc-interceptor.go: what every call leaves behind, however its handler ends.
use bugfree_go_sdk.Base.{
  Bool-cases, Option, Text, arith, codes, if◌then◌else◌, inl, inr, none, refl, some, sym, true, ℕ,
  ◌==◌, ◌||◌, ◌≡◌,
}
use bugfree_go_sdk.Errors.{Err, walk_errors}
use bugfree_go_sdk.Scope.{Context}
use bugfree_go_sdk.Client.{Moment}
use bugfree_go_sdk.Sessions.{SessionStatus, session_crashed, session_errored, session_ok}
use bugfree_go_sdk.Tracing.{Span, Spans, change_span, finish_span, set_status}
use bugfree_go_sdk.Recover.{Service, count_session}
use bugfree_go_sdk.Recover.Requests.{
  IsFinishedAt, IsHeldAt, change_span-IsHeldAt, finish_span-IsFinishedAt, record_for-sessions,
  record_for-spans,
}
use bugfree_go_sdk.Grpc.{
  Call, CallEnd, CallOutcome, GrpcOptions, Library, abandoned, after_handler, any_end, at_finish,
  at_session, contains_code, ended, intercept, internal, mark_call, panicked_in, passed,
  raised_again, record_call, session_of_call, to_lower,
}

module _ (lib : Library) where
  -- The session that a call is, written out: a server fault is an error with the code Unknown,
  -- Internal or DataLoss of a call that its client did not leave.
  abbrev pub call_session_of : Call → CallEnd → SessionStatus
  call_session_of call (ended none) =
      if lib.code_of none == 2 || lib.code_of none == 13 || lib.code_of none == 15
      then session_errored
      else session_ok
  call_session_of call (ended (some err)) =
      let code = lib.code_of (some err) in
      if call.over at_session || code == 1 || code == 4 || any_end lib.is_end (walk_errors err)
      then session_ok
      else if code == 2 || code == 13 || code == 15
      then session_errored
      else session_ok
  call_session_of call (panicked_in r) = session_crashed

  abbrev pub call_outcome_of : GrpcOptions → CallEnd → CallOutcome
  call_outcome_of o (ended err) = passed err
  call_outcome_of o (panicked_in r) = if o.repanic then raised_again else internal

  session_of_call-written :
      (call : Call) (err : Option Err)
      → session_of_call lib call err ≡ call_session_of call (ended err)
  unfolding session_of_call
  session_of_call-written call none = unfold abandoned contains_code in ground arith
  session_of_call-written call (some err) = unfold abandoned contains_code in ground arith

  mark_call-IsHeldAt :
      (call : Call) (spans : Spans) (i : ℕ) (err : Option Err)
      → IsHeldAt spans i
      → IsHeldAt (mark_call lib call spans (some i) err) i
  unfolding mark_call set_status
  mark_call-IsHeldAt call spans i err held =
      let changed : (text : Text)
          → IsHeldAt (change_span (λ (span : Span). record span { status = text }) spans (some i))
              i =
        λ text. change_span-IsHeldAt (λ span. record span { status = text }) spans i held in
      elim (Bool-cases (abandoned lib (call.over at_finish) err)) [
        | inl e ↦ rw e (changed (codes "cancelled"))
        | inr e ↦ elim (Bool-cases (lib.code_of err == 0)) [
          | inl ok ↦ rw (e, ok) held
          | inr bad ↦ rw (e, bad) (changed (to_lower (lib.code_text (lib.code_of err))))
        ]
      ]

  module _ (m : Moment) (call : Call) (o : GrpcOptions) (ctx : Option Context)
      (trace : Option (Text × Text)) where
    after_handler-spans :
        (err : Option Err) (s : Service)
        → (after_handler lib m call o ctx trace err s).spans ≡ s.spans
    unfolding after_handler record_call
    after_handler-spans err s =
        ground (arith, record_for-spans (session_of_call lib call err) m.now s)

    after_handler-sessions :
        (err : Option Err) (s : Service)
        → s.client.enabled ≡ true
        → (after_handler lib m call o ctx trace err s).sessions
          ≡ count_session (session_of_call lib call err) m.now s.sessions
    unfolding after_handler record_call
    after_handler-sessions err s on =
        ground (arith, record_for-sessions (session_of_call lib call err) m.now s on)

    -- Of an enabled client: when the handler of a call has ended, in whatever way, its transaction
    -- has finished; the call is counted as one session: crashed after a panic, errored after an
    -- error with the code Unknown, Internal or DataLoss of a call that its client did not leave,
    -- and else ok; and the caller gets the handler's own error, or after a panic the panic or the
    -- code Internal, as the options say.
    pub intercept-IsFinishedAt :
        (i : ℕ) (end : CallEnd) (s : Service)
        → s.client.enabled ≡ true
        → IsHeldAt s.spans i
        → IsFinishedAt (intercept lib m call o ctx trace (some i) end s).0.spans i
          × ((intercept lib m call o ctx trace (some i) end s).0.sessions
              ≡ count_session (call_session_of call end) m.now s.sessions)
          × ((intercept lib m call o ctx trace (some i) end s).1 ≡ call_outcome_of o end)
    unfolding intercept set_status
    intercept-IsFinishedAt i (ended err) s on held =
        let s' = after_handler lib m call o ctx trace err s in
        let held' : IsHeldAt s'.spans i = rw (after_handler-spans err s) held in
        (
          finish_span-IsFinishedAt (mark_call lib call s'.spans (some i) err) i m.now
              (mark_call-IsHeldAt call s'.spans i err held'),
          rw (sym (session_of_call-written call err)) (after_handler-sessions err s on),
          refl,
        )
    intercept-IsFinishedAt i (panicked_in r) s on held =
        let finished : Service = record s {
          spans =
              (finish_span
                (change_span (λ x. record x { status = codes "internal_error" }) s.spans (some i))
                (some i) m.now).0;
        } in
        (
          rw (record_for-spans session_crashed m.now finished) (
              finish_span-IsFinishedAt
                (change_span (λ x. record x { status = codes "internal_error" }) s.spans (some i)) i
                m.now
                (change_span-IsHeldAt (λ x. record x { status = codes "internal_error" }) s.spans i
                  held)),
          record_for-sessions session_crashed m.now finished on,
          refl,
        )
