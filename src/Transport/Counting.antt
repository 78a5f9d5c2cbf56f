-- ===== src/Transport/Counting.antt =====
-- transport.go: what the counter `pending` says of the queue and the worker, and what Flush makes
-- of it.
use bugfree_go_sdk.Base.{
  List, Option, Text, [], arith, false, length, length-append, neg_part, none, pos, pos_part, refl,
  some, suc, true, zero, ℕ, ◌+ℤ◌, ◌+◌, ◌↔◌, ◌∷◌, ◌≡◌, ◌≤◌,
}
use bugfree_go_sdk.Event.{Event}
use bugfree_go_sdk.Transport.{
  Action, Conditions, Transport, Verdict, act, after_verdict, attempts, cancel, cancels, close,
  closes, count, counts, deliver, finish, finishes, flush, limited, offer, offers, paused, post,
  queue_size, rejected, run, stored, take_next, takes, transient, verdict,
}

abbrev pub carried : Option Event → ℕ
carried none = 0
carried (some event) = 1

-- The events queued and the one being sent.
abbrev pub unfinished : Transport → ℕ
unfinished t = length t.queue + carried t.in_flight

-- `pending` lags behind the unfinished events by the Sends that have not counted theirs yet; the
-- queue is within its bound; after Close no Send is under way.
pub record IsCounted (t : Transport) : Type 0 where
  pub counter : pos_part t.pending + t.uncounted ≡ neg_part t.pending + unfinished t
  pub bounded : length t.queue ≤ queue_size
  pub quiet : t.closed ≡ true → t.uncounted ≡ 0

offer-IsCounted :
    (now : ℕ) (event : Event) (t : Transport) → IsCounted t → IsCounted (offer now event t)
unfolding offer
offer-IsCounted now event t h = ground (arith, length-append t.queue (event ∷ []), h.quiet)

count-IsCounted : (t : Transport) → IsCounted t → IsCounted (count t)
unfolding count ◌+ℤ◌
count-IsCounted t h = ground (arith, h.quiet)

take_next-IsCounted : (t : Transport) → IsCounted t → IsCounted (take_next t)
unfolding take_next
take_next-IsCounted t h = ground (arith, h.quiet)

close-IsCounted : (t : Transport) → IsCounted t → IsCounted (close t)
unfolding close
close-IsCounted t h = ground (arith, h.quiet)

cancel-IsCounted : (t : Transport) → IsCounted t → IsCounted (cancel t)
unfolding cancel
cancel-IsCounted t h = ground (arith, h.quiet)

-- What a delivery leaves alone.
abbrev pub SameQueue : Transport → Transport → Type 0
SameQueue a b =
    (a.queue ≡ b.queue)
    × (a.in_flight ≡ b.in_flight)
    × (a.uncounted ≡ b.uncounted)
    × (a.pending ≡ b.pending)
    × (a.closed ≡ b.closed)
    × (a.cancelled ≡ b.cancelled)
    × (a.dropped_full ≡ b.dropped_full)

after_verdict-SameQueue :
    (c : Conditions) (attempt : ℕ) (t : Transport) (again : Transport × ℕ × Verdict) (v : Verdict)
    → SameQueue again.0 t
    → SameQueue (after_verdict c attempt t again v).0 t
unfolding after_verdict
after_verdict-SameQueue c attempt t again stored h = ground arith
after_verdict-SameQueue c attempt t again rejected h = ground arith
after_verdict-SameQueue c attempt t again transient h = ground arith
after_verdict-SameQueue c attempt t again (limited wait) h = ground arith

module _ (date : Text → Option ℕ) where
  attempts-SameQueue :
      (c : Conditions) (left attempt : ℕ) (t : Transport)
      → SameQueue (attempts date c left attempt t).0 t
  unfolding attempts
  attempts-SameQueue c zero attempt t = (refl, refl, refl, refl, refl, refl, refl)
  attempts-SameQueue c (suc left) attempt t =
      after_verdict-SameQueue c attempt t (attempts date c left (suc attempt) t)
        (verdict date (c.clock attempt) (c.reply attempt))
        (attempts-SameQueue c left (suc attempt) t)

  pub deliver-SameQueue :
      (now : ℕ) (c : Conditions) (t : Transport) → SameQueue (deliver date now c t).0 t
  unfolding deliver post
  deliver-SameQueue now c t = ground (arith, attempts-SameQueue c 2 0 t)

  finish-IsCounted :
      (now : ℕ) (c : Conditions) (t : Transport) → IsCounted t → IsCounted (finish date now c t)
  unfolding finish ◌+ℤ◌
  finish-IsCounted now c t h = ground (arith, h.quiet, deliver-SameQueue now c t)

  pub act-IsCounted : (t : Transport) (a : Action) → IsCounted t → IsCounted (act date t a)
  unfolding act
  act-IsCounted t (offers now event) h = offer-IsCounted now event t h
  act-IsCounted t counts h = count-IsCounted t h
  act-IsCounted t takes h = take_next-IsCounted t h
  act-IsCounted t closes h = close-IsCounted t h
  act-IsCounted t cancels h = cancel-IsCounted t h
  act-IsCounted t (finishes now c) h = finish-IsCounted now c t h

  -- Whatever Sends, worker rounds, answers, Close and its time-out come in whatever order, the
  -- counter is the number of unfinished events less the Sends that have yet to count theirs, the
  -- queue holds at most 100 events, and a closed transport has no Send under way.
  pub run-IsCounted :
      (t : Transport) (actions : List Action) → IsCounted t → IsCounted (run date t actions)
  unfolding run
  run-IsCounted t [] h = h
  run-IsCounted t (a ∷ actions) h = run-IsCounted (act date t a) actions (act-IsCounted t a h)

-- While no Send stands between its two halves, Flush reads zero exactly when no event is queued
-- and none is being sent.
pub pending_exact :
    (t : Transport)
    → IsCounted t
    → t.uncounted ≡ 0
    → (t.pending ≡ pos 0) ↔ ((t.queue ≡ []) × (t.in_flight ≡ none))
pending_exact t h none_between = (empties t.queue t.in_flight, fills)
  where
    empties :
        (queue : List Event) (in_flight : Option Event)
        → t.pending ≡ pos 0
        → (t.queue ≡ []) × (t.in_flight ≡ none)
    empties queue in_flight zero_read = ground arith

    fills : (t.queue ≡ []) × (t.in_flight ≡ none) → t.pending ≡ pos 0
    fills done = ground arith

-- While Sends stand there, Flush can read zero with work left: it does as soon as they are as many
-- as the unfinished events.
pub pending_overlooks :
    (t : Transport) → IsCounted t → unfinished t ≡ t.uncounted → t.pending ≡ pos 0
pending_overlooks t h equal = ground arith

-- No event is queued, being sent or about to be counted, and the transport takes events.
pub record IsReady (now : ℕ) (t : Transport) : Type 0 where
  pub queue : t.queue ≡ []
  pub in_flight : t.in_flight ≡ none
  pub uncounted : t.uncounted ≡ 0
  pub pending : t.pending ≡ pos 0
  pub open_now : t.closed ≡ false
  pub running : t.cancelled ≡ false
  pub unpaused : paused now t ≡ false

-- A first Send queues its event and is not yet at pending.Add(1), the worker delivers that event,
-- and a second Send runs from its start to its end: the second event is queued and its Send has
-- returned, and Flush answers at once that nothing is pending.
pub flush_overlooks :
    (date : Text → Option ℕ) (c : Conditions) (now : ℕ) (first second : Event) (t : Transport)
    → IsReady now t
    → c.encodable ≡ true
    → verdict date (c.clock 0) (c.reply 0) ≡ stored
    → (((run date t
            (offers now first ∷ takes ∷ finishes now c ∷ offers now second ∷ counts ∷ [])).queue
          ≡ second ∷ [])
        × (flush (
              (run date t (
                offers now first
                ∷ takes
                ∷ finishes now c
                ∷ offers now second
                ∷ counts
                ∷ [])).pending
              ∷ [])
            ≡ true))
unfolding run act offer take_next finish deliver post attempts after_verdict count paused flush ◌+ℤ◌
flush_overlooks date c now first second t ready encodes is_stored = ground arith
