-- ===== src/Pipeline/Http.antt =====
-- transport.go behind client.go: the SDK's own transport as the carrier of a client's events.
use bugfree_go_sdk.Base.{
  Bool, List, Option, Text, [], arith, false, if◌then◌else◌, leb, length-append, none, not, refl,
  some, suc, zero, ℕ, ◌&&◌, ◌+◌, ◌∷◌, ◌≡◌,
}
use bugfree_go_sdk.Transport.{
  Conditions, Transport, Verdict, after_verdict, attempts, count, deliver, finish, limited, offer,
  paused, post, rejected, stored, take_next, transient, verdict,
}
use bugfree_go_sdk.Transport.Counting.{deliver-SameQueue, unfinished}
use bugfree_go_sdk.Event.{Event}
use bugfree_go_sdk.Client.{Client}
use bugfree_go_sdk.Pipeline.{Carrier, Move, Stats, asked, moves, moves-told_of, stats_of}
use bugfree_go_sdk.Transport.Delivery.{post-requests}

-- The transport, how many events its worker has made a request for, and how many it was through
-- with because they could not be encoded.
abbrev pub Delivery : Type 0
Delivery = Transport × ℕ × ℕ

-- What the transport does besides Send and Close.
pub data HttpWork : Type 0 where
  counts_one takes_one : HttpWork
  finishes_one : ℕ → Conditions → HttpWork

-- The events that a worker's round is through with because they cannot be encoded.
abbrev pub unencoded_by : ℕ → Conditions → Transport → ℕ
unencoded_by now c t = elim t.in_flight [
  | none ↦ 0
  | some event ↦ if not c.encodable && not (paused now t) then 1 else 0
]

abbrev pub total : Stats → ℕ
total s = s.sampled + s.duplicates + s.before_send + s.queue_full + s.rate_limited

-- What Stats counts, the events queued and the one being sent, those requested, and those that
-- could not be encoded.
abbrev pub answered_by : Client × Delivery → ℕ
answered_by (c, (t, n, u)) = total (stats_of c (some t)) + unfinished t + n + u

-- One, where a request was made.
abbrev pub one_if : Bool → ℕ
one_if b = if b then 1 else 0

module _ (date : Text → Option ℕ) where
  -- The events for which a worker's round makes a request, or two.
  abbrev pub requested_by : ℕ → Conditions → Transport → ℕ
  requested_by now c t = elim t.in_flight [
    | none ↦ 0
    | some event ↦ one_if (leb 1 (deliver date now c t).1)
  ]

  abbrev pub work_http : HttpWork → Delivery → Delivery
  work_http counts_one (t, n, u) = (count t, n, u)
  work_http takes_one (t, n, u) = (take_next t, n, u)
  work_http (finishes_one now c) (t, n, u) =
      (finish date now c t, n + requested_by now c t, u + unencoded_by now c t)

  abbrev pub send_http : ℕ → Event → Delivery → Delivery
  send_http now event (t, n, u) = (offer now event t, n, u)

  -- The events that are queued, being sent, requested, not encoded, or counted as dropped.
  abbrev pub known_http : Delivery → ℕ
  known_http (t, n, u) = n + u + unfinished t + t.dropped_full + t.dropped_paused

  abbrev pub IsOpenHttp : Delivery → Type 0
  IsOpenHttp (t, n, u) = (t.closed ≡ false) × (t.cancelled ≡ false)

  after_verdict-dropped :
      (c : Conditions) (attempt : ℕ) (t : Transport) (again : Transport × ℕ × Verdict) (v : Verdict)
      → again.0.dropped_paused ≡ t.dropped_paused
      → (after_verdict c attempt t again v).0.dropped_paused ≡ t.dropped_paused
  unfolding after_verdict
  after_verdict-dropped c attempt t again stored h = refl
  after_verdict-dropped c attempt t again rejected h = refl
  after_verdict-dropped c attempt t again transient h = ground arith
  after_verdict-dropped c attempt t again (limited wait) h = ground arith

  attempts-dropped :
      (c : Conditions) (left attempt : ℕ) (t : Transport)
      → (attempts date c left attempt t).0.dropped_paused ≡ t.dropped_paused
  unfolding attempts
  attempts-dropped c zero attempt t = refl
  attempts-dropped c (suc left) attempt t =
      after_verdict-dropped c attempt t (attempts date c left (suc attempt) t)
        (verdict date (c.clock attempt) (c.reply attempt)) (attempts-dropped c left (suc attempt) t)

  deliver-dropped :
      (now : ℕ) (c : Conditions) (t : Transport)
      → (deliver date now c t).0.dropped_paused
        ≡ (if not t.cancelled && paused now t then suc t.dropped_paused else t.dropped_paused)
  unfolding deliver post
  deliver-dropped now c t = ground (arith, attempts-dropped c 2 0 t)

  deliver-requests :
      (now : ℕ) (c : Conditions) (t : Transport)
      → t.cancelled ≡ false
      → one_if (leb 1 (deliver date now c t).1) ≡ one_if (c.encodable && not (paused now t))
  unfolding deliver
  deliver-requests now c t running = ground (arith, post-requests date c t)

  pub known_http-work_http :
      (w : HttpWork) (s : Delivery) → IsOpenHttp s → known_http (work_http w s) ≡ known_http s
  known_http-work_http counts_one (t, n, u) is_open = unfold count in ground arith
  known_http-work_http takes_one (t, n, u) is_open = unfold take_next in ground arith
  known_http-work_http (finishes_one now c) (t, n, u) is_open =
      unfold finish in
      ground (
        arith,
        deliver-SameQueue date now c t,
        deliver-dropped now c t,
        deliver-requests now c t is_open.1,
      )

  pub work_http-IsOpenHttp :
      (w : HttpWork) (s : Delivery) → IsOpenHttp s → IsOpenHttp (work_http w s)
  work_http-IsOpenHttp counts_one (t, n, u) is_open = unfold count in ground arith
  work_http-IsOpenHttp takes_one (t, n, u) is_open = unfold take_next in ground arith
  work_http-IsOpenHttp (finishes_one now c) (t, n, u) is_open =
      unfold finish in ground (arith, deliver-SameQueue date now c t)

  pub known_http-send_http :
      (now : ℕ) (event : Event) (s : Delivery)
      → IsOpenHttp s
      → known_http (send_http now event s) ≡ suc (known_http s)
  known_http-send_http now event (t, n, u) is_open =
      unfold offer in ground (arith, length-append t.queue (event ∷ []))

  pub send_http-IsOpenHttp :
      (now : ℕ) (event : Event) (s : Delivery) → IsOpenHttp s → IsOpenHttp (send_http now event s)
  send_http-IsOpenHttp now event (t, n, u) is_open = unfold offer in ground arith

  abbrev pub http_carrier : Carrier Delivery HttpWork
  http_carrier = record {
    send = send_http;
    work = work_http;
    known = known_http;
    IsOpen = IsOpenHttp;
    send_opens = send_http-IsOpenHttp;
    send_known = known_http-send_http;
    work_opens = work_http-IsOpenHttp;
    work_known = known_http-work_http;
  }

  -- Of a client with the SDK's own transport, before Close: whatever captures and rounds of the
  -- worker come in whatever order, each capture of something has been answered for exactly once: it
  -- is in one of the counts of Stats, it is queued or being sent, the worker has made a request for
  -- it, or the worker is through with it because it could not be encoded. A client that is not
  -- enabled has captured nothing.
  pub moves-answered_by :
      (all : List (Move HttpWork)) (c : Client) (t : Transport) (n u : ℕ)
      → t.closed ≡ false
      → t.cancelled ≡ false
      → answered_by (moves http_carrier (c, (t, n, u)) all)
        ≡ asked http_carrier c.enabled all + answered_by (c, (t, n, u))
  unfolding stats_of
  moves-answered_by all c t n u is_open running =
      omega (arith, moves-told_of http_carrier all c (t, n, u) (is_open, running))
