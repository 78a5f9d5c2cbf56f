-- ===== src/Grpc/Faults.antt =====
-- grpc/grpc-interceptor.go, captureError: which errors of a handler become events.
use bugfree_go_sdk.Base.{
  Bool, Option, Text, [], arith, codes, false, if◌then◌else◌, inl, inr, map, none, not, some, suc,
  true, ◌&&◌, ◌++◌, ◌∷◌, ◌≡◌,
}
use bugfree_go_sdk.Errors.{Err, error_callers}
use bugfree_go_sdk.Scope.{Context}
use bugfree_go_sdk.Client.Capture.{capture_context, exception, scope_for, with_trace}
use bugfree_go_sdk.Client.Accounting.{answered_for, capture-counted}
use bugfree_go_sdk.Client.{Client, Moment}
use bugfree_go_sdk.Sessions.{
  SessionStatus, session_crashed, session_errored, session_ok, session_other,
}
use bugfree_go_sdk.Grpc.{
  Call, GrpcOptions, Library, abandoned, at_capture, at_session, capture_error, contains_code,
  group_by_method, modifiers, session_of_call, watched,
}
use bugfree_go_sdk.Event.{text_value, with_tag}

abbrev pub is_errored : SessionStatus → Bool
is_errored session_ok = false
is_errored session_errored = true
is_errored session_crashed = true
is_errored (session_other status) = false

capture_error-counted :
    (lib : Library) (m : Moment) (call : Call) (o : GrpcOptions) (ctx : Option Context)
    (trace : Option (Text × Text)) (err : Err) (c : Client)
    → answered_for (capture_error lib m call o ctx trace (some err) c) ≡ (
        if c.enabled
          && not (abandoned lib (call.over at_capture) (some err))
          && contains_code (watched lib o.error_codes) (lib.code_of (some err))
        then suc (answered_for c)
        else answered_for c)
unfolding capture_error capture_context
capture_error-counted lib m call o ctx trace err c =
    let all = with_trace trace (
      map some (
        modifiers call o
        ++ (with_tag (codes "grpc.code") (text_value (lib.code_text (lib.code_of (some err))))
            ∷ group_by_method call.method (error_callers err)
            ∷ []))) in
    elim (capture-counted m c (scope_for c ctx) (exception (some err) none) all) [
      | inl (off, same) ↦ ground arith
      | inr (on, counted) ↦ ground arith
    ]

-- Without codes of its own in the options, and where ctx.Err() says the same at both readings:
-- captureError of an enabled client answers for one event, handed over or counted in Stats, exactly
-- for those calls that recordSession counts as errored.
pub captured_errored :
    (lib : Library) (m : Moment) (call : Call) (o : GrpcOptions) (ctx : Option Context)
    (trace : Option (Text × Text)) (err : Option Err) (c : Client)
    → lib.code_of none ≡ 0
    → o.error_codes ≡ []
    → call.over at_capture ≡ call.over at_session
    → c.enabled ≡ true
    → answered_for (capture_error lib m call o ctx trace err c)
      ≡ (if is_errored (session_of_call lib call err) then suc (answered_for c) else answered_for c)
unfolding session_of_call
captured_errored lib m call o ctx trace none c ok_code own same on =
    unfold capture_error abandoned contains_code in ground arith
captured_errored lib m call o ctx trace (some err) c ok_code own same on =
    ground (arith, capture_error-counted lib m call o ctx trace err c)
