-- ===== src/Gin/Attached.antt =====
-- gin/gin-middleware.go, captureErrors: the events of the errors that handlers attach.
use mathlib.Core.List.{foldl}
use bugfree_go_sdk.Base.{
  Bool, List, Option, Text, [], arith, codes, false, if◌then◌else◌, inl, inr, is_empty, length, ltb,
  map, modify, none, not, refl, some, suc, true, ℕ, ◌++◌, ◌+◌, ◌||◌, ◌∷◌, ◌≡◌,
}
use bugfree_go_sdk.Event.{
  Event, EventModifier, Request, User, text_value, with_request, with_tag, with_trace_id, with_user,
}
use bugfree_go_sdk.Client.{Client, Moment, modify_event}
use bugfree_go_sdk.Gin.{
  GinContext, GinOptions, attached_modifier, capture_attached, capture_each, capture_errors,
  request_id_for, request_modifiers, request_of, user_modifiers,
}
use bugfree_go_sdk.Frames.{Frame}
use bugfree_go_sdk.Errors.{Err, error_callers}
use bugfree_go_sdk.Scope.{Context}
use bugfree_go_sdk.Client.Accounting.{answered_for, capture-counted}
use bugfree_go_sdk.Client.Capture.{capture_context, exception, scope_for, with_trace}
use bugfree_go_sdk.Client.Kept.{capture-SameSetup}

abbrev pub or_group : List ℕ → Text → Text → Text
or_group [] ours theirs = ours
or_group (pc ∷ pcs) ours theirs = theirs

abbrev pub or_frames : List ℕ → List Frame → List Frame
or_frames [] frames = []
or_frames (pc ∷ pcs) frames = frames

foldl-append :
    (event : Event) (xs : List EventModifier) (modify : EventModifier)
    → foldl modify_event event (map some (xs ++ modify ∷ []))
      ≡ modify (foldl modify_event event (map some xs))
foldl-append event [] modify = refl
foldl-append event (x ∷ xs) modify = foldl-append (x event) xs modify

-- The request, the stack and the culprit of an event are those of another.
abbrev pub SameGroup : Event → Event → Type 0
SameGroup a b = (a.request ≡ b.request) × (a.stacktrace ≡ b.stacktrace) × (a.culprit ≡ b.culprit)

tail-SameGroup :
    (g : GinContext) (b omit : Bool) (id : Text) (resolver : Option (GinContext → User))
    (event : Event)
    → SameGroup
        (foldl modify_event event
          (map some ((if b then [] else with_trace_id id ∷ []) ++ user_modifiers g omit resolver)))
        event
unfolding with_trace_id with_user
tail-SameGroup g true omit id none event = (refl, refl, refl)
tail-SameGroup g true omit id (some r) event = (refl, refl, refl)
tail-SameGroup g false omit id none event = (refl, refl, refl)
tail-SameGroup g false omit id (some r) event = (refl, refl, refl)

request_modifiers-SameGroup :
    (g : GinContext) (o : GinOptions) (event : Event)
    → SameGroup
        (foldl modify_event event (map some (request_modifiers g o)))
        (record event { request = some (request_of g o) })
unfolding request_modifiers with_request with_tag
request_modifiers-SameGroup g o event =
    tail-SameGroup g (is_empty (request_id_for g o.request_id_resolver)) o.omit_client_ip
      (request_id_for g o.request_id_resolver) o.user_resolver
      (with_tag (codes "route") (text_value g.route) (
        with_tag (codes "handler") (text_value (codes "gin"))
          (with_request (request_of g o) event)))

attached_modifier-group :
    (g : GinContext) (stack : List ℕ) (event e : Event) (request : Request)
    → SameGroup event (record e { request = some request })
    → SameGroup (attached_modifier g stack event) (record e {
      request = some (record request { status_code = g.status });
      stacktrace = or_frames stack e.stacktrace;
      culprit = or_group stack (g.method ++ (codes " " ++ g.route)) e.culprit;
    })
unfolding attached_modifier
attached_modifier-group g [] event e request (asked, frames, culprit) = (rw asked refl, refl, refl)
attached_modifier-group g (pc ∷ pcs) event e request (asked, frames, culprit) =
    (rw asked refl, rw asked frames, rw asked culprit)

-- Whatever options are set: the event of an error attached to a request leaves the modifiers with
-- the request as the options want it and the status of the response; with the stack and the culprit
-- it had when the error carries a stack of its own; and else without a stack, its culprit the
-- method and the route.
pub attached_group :
    (g : GinContext) (o : GinOptions) (err : Err) (event : Event)
    → SameGroup
        (foldl modify_event event
          (map some (request_modifiers g o ++ attached_modifier g (error_callers err) ∷ [])))
        (record event {
          request = some (record (request_of g o) { status_code = g.status });
          stacktrace = or_frames (error_callers err) event.stacktrace;
          culprit = or_group (error_callers err) (g.method ++ (codes " " ++ g.route)) event.culprit;
        })
attached_group g o err event =
    rw (foldl-append event (request_modifiers g o) (attached_modifier g (error_callers err))) (
      attached_modifier-group g (error_callers err)
        (foldl modify_event event (map some (request_modifiers g o))) event (request_of g o)
        (request_modifiers-SameGroup g o event))

capture_attached-counted :
    (g : GinContext) (o : GinOptions) (ctx : Option Context) (span : Option (Text × Text))
    (m : Moment) (err : Err) (c : Client)
    → ((capture_attached g o ctx span m err c).enabled ≡ c.enabled)
      × (answered_for (capture_attached g o ctx span m err c)
          ≡ (if c.enabled then suc (answered_for c) else answered_for c))
unfolding capture_attached capture_context
capture_attached-counted g o ctx span m err c =
    let modifiers =
      with_trace span
        (map some (request_modifiers g o ++ attached_modifier g (error_callers err) ∷ [])) in
    let (_, enabled, _) =
      capture-SameSetup m c (scope_for c ctx) (exception (some err) none) modifiers in
    (
      enabled,
      elim (capture-counted m c (scope_for c ctx) (exception (some err) none) modifiers) [
        | inl (off, same) ↦ ground arith
        | inr (on, counted) ↦ ground arith
      ],
    )

capture_each-counted :
    (g : GinContext) (o : GinOptions) (ctx : Option Context) (span : Option (Text × Text))
    (errors : List (Moment × Err)) (c : Client)
    → answered_for (capture_each g o ctx span errors c)
      ≡ (if c.enabled then answered_for c + length errors else answered_for c)
unfolding capture_each
capture_each-counted g o ctx span [] c = ground arith
capture_each-counted g o ctx span ((m, err) ∷ errors) c = ground (
  arith,
  capture_attached-counted g o ctx span m err c,
  capture_each-counted g o ctx span errors (capture_attached g o ctx span m err c),
)

-- captureErrors answers for each error attached to a request that ended with a status from 500 on,
-- once each, by an event handed to the transport or by a count of Stats; below 500, or of a client
-- that is not enabled, for none.
pub capture_errors-counted :
    (g : GinContext) (o : GinOptions) (ctx : Option Context) (span : Option (Text × Text))
    (c : Client)
    → answered_for (capture_errors g o ctx span c) ≡ (
        if not c.enabled || ltb g.status 500
        then answered_for c
        else answered_for c + length g.errors)
unfolding capture_errors
capture_errors-counted g o ctx span c = ground (arith, capture_each-counted g o ctx span g.errors c)
