-- ===== src/Transport.antt =====
-- transport.go: the queue, its worker and the pauses the server asks for. Goroutines are an
-- explicit sequence of actions; the clock is unix nanoseconds, an argument of each action.
mod Tests
pub mod Retry
pub mod Counting
pub mod Order
pub mod Delivery
pub mod Pause
pub mod Reach
use bugfree_go_sdk.Base.{
  Bool, List, Option, Text, [], false, if◌then◌else◌, leb, length, ltb, ltb_ℤ, negsuc, none, pos,
  some, suc, true, zero, ℕ, ℤ, ◌&&◌, ◌++◌, ◌+ℤ◌, ◌==◌, ◌∷◌,
}
use bugfree_go_sdk.Event.{Event}
use Retry.{second, wrap, parse_retry_after}

-- type httpTransport struct. `uncounted` is how many calls of Send stand between the channel and
-- pending.Add(1); `in_flight` is the event that the worker has taken.
pub record Transport : Type 0 where
  pub queue : List Event
  pub in_flight : Option Event
  pub uncounted : ℕ
  pub pending : ℤ
  pub paused_until : ℤ
  pub dropped_full : ℕ
  pub dropped_paused : ℕ
  pub closed : Bool
  pub cancelled : Bool

-- queueSize
abbrev pub queue_size : ℕ
queue_size = 100

-- newHTTPTransport
abbrev pub new_http_transport : Transport
new_http_transport = record {
  queue = [];
  in_flight = none;
  uncounted = 0;
  pending = pos 0;
  paused_until = pos 0;
  dropped_full = 0;
  dropped_paused = 0;
  closed = false;
  cancelled = false;
}

-- paused
unfoldable pub paused : ℕ → Transport → Bool
paused now t = ltb_ℤ (pos now) t.paused_until

-- pause
unfoldable pub pause : ℤ → ℕ → Transport → Transport
pause wait now t = record t { paused_until = wrap (pos now +ℤ wait) }

-- Send, up to and including the select on the queue; the counter of an accepted event comes later.
unfoldable pub offer : ℕ → Event → Transport → Transport
unfolding paused
offer now event t =
    if t.closed
    then t
    else if paused now t
    then record t { dropped_paused = suc t.dropped_paused }
    else if ltb (length t.queue) queue_size
    then record t { queue = t.queue ++ event ∷ []; uncounted = suc t.uncounted }
    else record t { dropped_full = suc t.dropped_full }

-- t.pending.Add(1), the end of a Send whose event was accepted.
unfoldable pub count : Transport → Transport
count t = elim t.uncounted [
  | zero ↦ t
  | suc n ↦ record t { uncounted = n; pending = t.pending +ℤ pos 1 }
]

-- for event := range t.queue: the worker takes the oldest event.
unfoldable pub take_next : Transport → Transport
take_next t = elim t.in_flight [
  | some event ↦ t
  | none ↦ elim t.queue [
    | [] ↦ t
    | event ∷ rest ↦ record t { queue = rest; in_flight = some event }
  ]
]

-- What a request came to: it could not be made or got no answer, or a status and a Retry-After.
pub data Reply : Type 0 where
  no_answer : Reply
  answered : ℕ → Text → Reply

pub data Verdict : Type 0 where
  stored rejected transient : Verdict
  limited : ℤ → Verdict

-- One worker's surroundings while it delivers an event: the clock and the reply at each attempt,
-- whether the event can be encoded, and whether ctx ends during the wait between the attempts.
pub record Conditions : Type 0 where
  pub clock : ℕ → ℕ
  pub reply : ℕ → Reply
  pub encodable : Bool
  pub aborted : Bool

-- Close: no Send is under way while it holds the lock.
unfoldable pub close : Transport → Transport
close t = elim t.uncounted [ zero ↦ record t { closed = true } | suc n ↦ t ]

-- t.cancel(), when the wait of Close is over.
unfoldable pub cancel : Transport → Transport
cancel t = if t.closed then record t { cancelled = true } else t

pub data Action : Type 0 where
  offers : ℕ → Event → Action
  counts takes closes cancels : Action
  finishes : ℕ → Conditions → Action

-- The body of post's loop on the verdict of an attempt, `again` being the rest of the loop.
unfoldable pub after_verdict :
    Conditions → ℕ → Transport → Transport × ℕ × Verdict → Verdict → Transport × ℕ × Verdict
unfolding pause
after_verdict c attempt t again stored = (t, suc attempt, stored)
after_verdict c attempt t again rejected = (t, suc attempt, rejected)
after_verdict c attempt t again transient =
    if attempt == 0 && c.aborted then (t, suc attempt, transient) else again
after_verdict c attempt t again (limited wait) =
    (pause wait (c.clock attempt) t, suc attempt, limited wait)

module _ (date : Text → Option ℕ) where
  -- do, and what post makes of its status: retryAfter is read from a status of 300 or more.
  unfoldable pub verdict : ℕ → Reply → Verdict
  verdict now no_answer = transient
  verdict now (answered status header) =
      if ltb status 300
      then stored
      else if status == 429
      then limited (parse_retry_after date header now)
      else if leb 400 status && ltb status 500
      then rejected
      else transient

  -- The loop of post from an attempt on, `left` rounds before its bound: the transport afterwards,
  -- the number of requests made and the last verdict.
  unfoldable pub attempts : Conditions → ℕ → ℕ → Transport → Transport × ℕ × Verdict
  unfolding verdict after_verdict
  attempts c zero attempt t = (t, attempt, transient)
  attempts c (suc left) attempt t =
      after_verdict c attempt t (attempts c left (suc attempt) t)
        (verdict (c.clock attempt) (c.reply attempt))

  -- post
  unfoldable pub post : Conditions → Transport → Transport × ℕ × Verdict
  unfolding attempts
  post c t = if c.encodable then attempts c 2 0 t else (t, 0, rejected)

  -- The switch in worker's loop, on the event it has taken.
  unfoldable pub deliver : ℕ → Conditions → Transport → Transport × ℕ
  unfolding paused post
  deliver now c t =
      if t.cancelled
      then (t, 0)
      else if paused now t
      then (record t { dropped_paused = suc t.dropped_paused }, 0)
      else ((post c t).0, (post c t).1)

  -- The rest of the round: t.pending.Add(-1).
  unfoldable pub finish : ℕ → Conditions → Transport → Transport
  unfolding deliver
  finish now c t = elim t.in_flight [
    | none ↦ t
    | some event ↦
        let t' = (deliver now c t).0 in
        record t' { in_flight = none; pending = t'.pending +ℤ negsuc 0 }
  ]

  unfoldable pub act : Transport → Action → Transport
  act t (offers now event) = offer now event t
  act t counts = count t
  act t takes = take_next t
  act t closes = close t
  act t cancels = cancel t
  act t (finishes now c) = finish now c t

  unfoldable pub run : Transport → List Action → Transport
  run t [] = t
  run t (a ∷ actions) = run (act t a) actions

-- Send, when nothing comes between its two halves.
unfoldable pub send : ℕ → Event → Transport → Transport
unfolding offer count
send now event t = count (offer now event t)

-- Flush: what its loop reads of pending at each round before the deadline.
unfoldable pub flush : List ℤ → Bool
flush [] = false
flush (pending ∷ rest) =
    let later = flush rest in
    elim pending [ pos n ↦ if n == 0 then true else later | negsuc n ↦ later ]
