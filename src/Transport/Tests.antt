-- ===== src/Transport/Tests.antt =====
-- Runs of the queue on two events.
use bugfree_go_sdk.Base.{
  List, Option, Text, [], arith, codes, false, if◌then◌else◌, none, pos, refl, true, ℕ, ◌++◌, ◌+◌,
  ◌==◌, ◌∷◌, ◌≡◌, ◌⊎◌,
}
use bugfree_go_sdk.Event.{Event}
use bugfree_go_sdk.Samples.{event_of}
use bugfree_go_sdk.Transport.{
  Action, Conditions, Transport, answered, closes, counts, finish, finishes, new_http_transport,
  offer, offers, paused, post, run, take_next, takes, verdict,
}
use bugfree_go_sdk.Transport.Retry.{atoi, digits}
use bugfree_go_sdk.Transport.Counting.{IsCounted, IsReady, flush_overlooks, run-IsCounted}
use bugfree_go_sdk.Transport.Order.{accepted, taken, taken-accepted}
use bugfree_go_sdk.Transport.Delivery.{by_answers, post-by_answers, settled}
use bugfree_go_sdk.Transport.Reach.{
  AtRest, Reach-drains, Work, finishing, left, made, rest, sending, taking, then_step, then_work,
}
use bugfree_go_sdk.Transport.Pause.{limited_overflow}

-- http.ParseTime that reads nothing.
abbrev no_date : Text → Option ℕ
no_date value = none

abbrev first : Event
first = event_of (codes "1")

abbrev other : Event
other = event_of (codes "2")

-- A server that stores everything, and one that fails once.
abbrev well : Conditions
well = record {
  clock = λ attempt. 10;
  reply = λ attempt. answered 200 [];
  encodable = true;
  aborted = false;
}

abbrev shaky : Conditions
shaky = record {
  clock = λ attempt. 10 + attempt;
  reply = λ attempt. if attempt == 0 then answered 503 [] else answered 200 [];
  encodable = true;
  aborted = false;
}

abbrev actions : List Action
actions = offers 1 first ∷ counts ∷ offers 2 other ∷ takes ∷ finishes 3 shaky ∷ counts ∷ closes ∷ []

start_IsCounted : IsCounted new_http_transport
start_IsCounted = record { counter = refl; bounded = omega arith; quiet = λ h. refl }

run-IsCounted_example : IsCounted (run no_date new_http_transport actions)
run-IsCounted_example = run-IsCounted no_date new_http_transport actions start_IsCounted

start_IsReady : IsReady 1 new_http_transport
unfolding paused
start_IsReady = record {
  queue = refl;
  in_flight = refl;
  uncounted = refl;
  pending = refl;
  open_now = refl;
  running = refl;
  unpaused = refl;
}

flush_overlooks_example :
    (run no_date new_http_transport
      (offers 1 first ∷ takes ∷ finishes 1 well ∷ offers 1 other ∷ counts ∷ [])).queue
    ≡ other ∷ []
unfolding verdict
flush_overlooks_example =
    (flush_overlooks no_date well 1 first other new_http_transport start_IsReady refl refl).0

taken-accepted_example :
    new_http_transport.queue ++ accepted no_date new_http_transport actions
    ≡ taken no_date new_http_transport actions ++ (run no_date new_http_transport actions).queue
taken-accepted_example = taken-accepted no_date new_http_transport actions

abbrev loaded : Transport
loaded = record new_http_transport { queue = first ∷ other ∷ []; pending = pos 2 }

post-by_answers_example : post no_date shaky loaded ≡ by_answers no_date shaky loaded
post-by_answers_example = post-by_answers no_date shaky loaded

limited_overflow_example :
    paused 9 (settled 7 loaded (verdict no_date 7 (answered 429 (codes "10000000000")))) ≡ false
unfolding atoi digits
limited_overflow_example =
    limited_overflow no_date (codes "10000000000") 7 10000000000 9 loaded refl (omega arith)
      (omega arith)

-- A Send that has queued its event and not yet counted it.
abbrev half_sent : Transport
unfolding offer
half_sent = offer 5 first new_http_transport

Reach-drains_example :
    (2 + left (finish no_date 9 well (take_next half_sent)) ≡ left half_sent)
    × (AtRest (finish no_date 9 well (take_next half_sent))
        ⊎ ((v : Transport) × Work no_date 9 well (finish no_date 9 well (take_next half_sent)) v))
unfolding offer half_sent take_next
Reach-drains_example =
    Reach-drains no_date 2 9 well half_sent (finish no_date 9 well (take_next half_sent))
      (then_step made (sending new_http_transport 5 first))
      (then_work 9 well (then_work 8 well rest (taking half_sent first [] refl refl))
        (finishing (take_next half_sent) first refl))
