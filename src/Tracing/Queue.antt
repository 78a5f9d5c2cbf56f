-- ===== src/Tracing/Queue.antt =====
-- tracing.go, sendTransaction to postTransaction: the queue of finished transactions. A payload is
-- its JSON text; the transport is not one that takes transactions itself.
use bugfree_go_sdk.Base.{
  Bool, List, Option, Text, [], ap, arith, false, if◌then◌else◌, is_some, leb, length,
  length-append, ltb, none, refl, some, suc, true, ℕ, ◌++◌, ◌+◌, ◌==◌, ◌∷◌, ◌≡◌, ◌≤◌,
}
use bugfree_go_sdk.Transport.{Reply, Transport, answered, no_answer, pause}
use bugfree_go_sdk.Transport.Retry.{parse_retry_after}

-- The fields of Client for transactions: c.traces (none before the first), c.tracesClosed and
-- c.stats.transactions; `posted` and `skipped` are what the sender took from the queue.
pub record Traces : Type 0 where
  pub queue : Option (List Text)
  pub closed : Bool
  pub dropped : ℕ
  pub posted : List Text
  pub skipped : List Text

-- transactionQueueSize
abbrev pub transaction_queue_size : ℕ
transaction_queue_size = 100

-- c.traces, which tracesOnce makes at the first use
abbrev pub queued : Traces → List Text
queued t = elim t.queue [ none ↦ [] | some bodies ↦ bodies ]

-- sendTransaction, on the encoded payload; `none` is one that json.Marshal refuses.
unfoldable pub send_transaction : Option Text → Traces → Traces
send_transaction none t = t
send_transaction (some body) t =
    if t.closed
    then t
    else if ltb (length (queued t)) transaction_queue_size
    then record t { queue = some (queued t ++ body ∷ []) }
    else record t { queue = some (queued t); dropped = suc t.dropped }

-- The first part of closeTraces, behind the lock: false when it was closed before or has no queue,
-- true when the queue is closed and the sender is waited for.
unfoldable pub close_traces : Traces → Traces × Bool
close_traces t = if t.closed then (t, false) else (record t { closed = true }, is_some t.queue)

-- postTransaction, on what the request came to: the transport, and whether it is an error.
unfoldable pub post_transaction : (Text → Option ℕ) → ℕ → Reply → Transport → Transport × Bool
unfolding parse_retry_after pause
post_transaction date now no_answer http = (http, true)
post_transaction date now (answered status header) http =
    let http' =
      if status == 429 then pause (parse_retry_after date header now) now http else http in
    (http', leb 300 status)

-- The body of deliverTransactions' loop, on what the queue holds.
unfoldable pub deliver_from : Bool → Traces → List Text → Traces
deliver_from is_paused t [] = t
deliver_from is_paused t (body ∷ rest) =
    if is_paused
    then record t { queue = some rest; skipped = t.skipped ++ body ∷ [] }
    else record t { queue = some rest; posted = t.posted ++ body ∷ [] }

-- One round of deliverTransactions, with the transport paused or not.
unfoldable pub deliver_next : Bool → Traces → Traces
unfolding deliver_from
deliver_next is_paused t = deliver_from is_paused t (queued t)

pub data TraceAction : Type 0 where
  sends : Option Text → TraceAction
  delivers : Bool → TraceAction
  closes_traces : TraceAction

unfoldable pub act_traces : Traces → TraceAction → Traces
unfolding send_transaction deliver_next close_traces
act_traces t (sends body) = send_transaction body t
act_traces t (delivers is_paused) = deliver_next is_paused t
act_traces t closes_traces = (close_traces t).0

unfoldable pub run_traces : Traces → List TraceAction → Traces
unfolding act_traces
run_traces t [] = t
run_traces t (a ∷ actions) = run_traces (act_traces t a) actions

-- What became of the transactions so far.
abbrev pub accounted : Traces → ℕ
accounted t = length (queued t) + length t.posted + length t.skipped + t.dropped

-- The transactions that an action hands in: none after the close, and none that cannot be encoded.
abbrev pub handed_in : Traces → TraceAction → ℕ
handed_in t (sends none) = 0
handed_in t (sends (some body)) = if t.closed then 0 else 1
handed_in t (delivers is_paused) = 0
handed_in t closes_traces = 0

unfoldable pub all_handed_in : Traces → List TraceAction → ℕ
all_handed_in t [] = 0
all_handed_in t (a ∷ actions) = handed_in t a + all_handed_in (act_traces t a) actions

deliver_from-accounted :
    (is_paused : Bool) (t : Traces) (bodies : List Text)
    → queued t ≡ bodies
    → length (queued t) ≤ transaction_queue_size
    → (accounted (deliver_from is_paused t bodies) ≡ 0 + accounted t)
      × (length (queued (deliver_from is_paused t bodies)) ≤ transaction_queue_size)
unfolding deliver_from
deliver_from-accounted is_paused t [] e h = (omega arith, h)
deliver_from-accounted true t (body ∷ rest) e h =
    let size : length (queued t) ≡ suc (length rest) = ap length e in
    (omega (arith, length-append t.skipped (body ∷ [])), omega arith)
deliver_from-accounted false t (body ∷ rest) e h =
    let size : length (queued t) ≡ suc (length rest) = ap length e in
    (omega (arith, length-append t.posted (body ∷ [])), omega arith)

act_traces-accounted :
    (t : Traces) (a : TraceAction)
    → length (queued t) ≤ transaction_queue_size
    → (accounted (act_traces t a) ≡ handed_in t a + accounted t)
      × (length (queued (act_traces t a)) ≤ transaction_queue_size)
unfolding act_traces send_transaction deliver_next close_traces
act_traces-accounted t (sends none) h = (omega arith, h)
act_traces-accounted t (sends (some body)) h = ground (arith, length-append (queued t) (body ∷ []))
act_traces-accounted t (delivers is_paused) h = deliver_from-accounted is_paused t (queued t) refl h
act_traces-accounted t closes_traces h = ground arith

-- Whatever is sent, delivered and closed in whatever order, every transaction handed in before the
-- close is in the queue, was posted, was skipped for a pause, or is in the count of the dropped
-- ones; the queue never holds more than 100.
pub run_traces-accounted :
    (t : Traces) (actions : List TraceAction)
    → length (queued t) ≤ transaction_queue_size
    → (accounted (run_traces t actions) ≡ all_handed_in t actions + accounted t)
      × (length (queued (run_traces t actions)) ≤ transaction_queue_size)
unfolding run_traces all_handed_in
run_traces-accounted t [] h = (omega arith, h)
run_traces-accounted t (a ∷ actions) h =
    let (e, k) = act_traces-accounted t a h in
    let (f, l) = run_traces-accounted (act_traces t a) actions k in (omega arith, l)
