-- ===== src/Transport/Reach.antt =====
-- transport.go: the states that a transport comes into, as a step relation, and what it always
-- does from there: come to rest.
use bugfree_go_sdk.Base.{
  List, Option, Text, [], arith, inl, inr, length, none, refl, some, suc, true, zero, ℕ, ◌*◌, ◌+◌,
  ◌∷◌, ◌≡◌, ◌⊎◌,
}
use bugfree_go_sdk.Event.{Event}
use bugfree_go_sdk.Transport.{
  Conditions, Transport, act, cancel, cancels, close, closes, count, counts, finish, finishes,
  flush, new_http_transport, offer, offers, take_next, takes,
}
use bugfree_go_sdk.Transport.Counting.{
  IsCounted, act-IsCounted, carried, deliver-SameQueue, pending_exact,
}

-- The steps that the events of a transport still take: a Send's counting of its event, and for each
-- event that the worker takes and finishes it.
abbrev pub left : Transport → ℕ
left t = t.uncounted + 2 * length t.queue + carried t.in_flight

-- Nothing is queued, being sent or yet to be counted, and Flush answers true.
abbrev pub AtRest : Transport → Type 0
AtRest t =
    (t.queue ≡ []) × (t.in_flight ≡ none) × (t.uncounted ≡ 0) × (flush (t.pending ∷ []) ≡ true)

module _ (date : Text → Option ℕ) where
  -- A step of a Send that has queued its event, or of the worker: it takes an event, or finishes
  -- the one it has, where it meets a clock and conditions.
  pub data Work (now : ℕ) (c : Conditions) : Transport → Transport → Type 0 where
    counting : (t : Transport) (n : ℕ) → t.uncounted ≡ suc n → Work now c t (count t)
    taking :
        (t : Transport) (event : Event) (more : List Event)
        → t.in_flight ≡ none
        → t.queue ≡ event ∷ more
        → Work now c t (take_next t)
    finishing :
        (t : Transport) (event : Event)
        → t.in_flight ≡ some event
        → Work now c t (finish date now c t)

  -- A step of the transport: work, a new Send, Close, or the end of its wait.
  pub data Step : Transport → Transport → Type 0 where
    works : {t u : Transport} (now : ℕ) (c : Conditions) → Work now c t u → Step t u
    sending : (t : Transport) (now : ℕ) (event : Event) → Step t (offer now event t)
    closing : (t : Transport) → t.uncounted ≡ 0 → Step t (close t)
    cancelling : (t : Transport) → t.closed ≡ true → Step t (cancel t)

  -- A number of steps of work, each with a clock and conditions of its own.
  pub data Works (t : Transport) : ℕ → Transport → Type 0 where
    rest : Works t 0 t
    then_work :
        {n : ℕ} {u v : Transport} (now : ℕ) (c : Conditions)
        → Works t n u
        → Work now c u v
        → Works t (suc n) v

  -- The states that newHTTPTransport's comes into.
  pub data Reach : Transport → Type 0 where
    made : Reach new_http_transport
    then_step : {t u : Transport} → Reach t → Step t u → Reach u

  Work-IsCounted :
      {now : ℕ} {c : Conditions} {t u : Transport} → Work now c t u → IsCounted t → IsCounted u
  unfolding act
  Work-IsCounted (counting t n h) k = act-IsCounted date t counts k
  Work-IsCounted (taking t event more h q) k = act-IsCounted date t takes k
  Work-IsCounted {now} {c} (finishing t event h) k = act-IsCounted date t (finishes now c) k

  Works-IsCounted :
      {t : Transport} {n : ℕ} {u : Transport} → Works t n u → IsCounted t → IsCounted u
  Works-IsCounted rest k = k
  Works-IsCounted (then_work now c w s) k = Work-IsCounted s (Works-IsCounted w k)

  Step-IsCounted : {t u : Transport} → Step t u → IsCounted t → IsCounted u
  unfolding act
  Step-IsCounted (works now c w) k = Work-IsCounted w k
  Step-IsCounted (sending t now event) k = act-IsCounted date t (offers now event) k
  Step-IsCounted (closing t h) k = act-IsCounted date t closes k
  Step-IsCounted (cancelling t h) k = act-IsCounted date t cancels k

  new-IsCounted : IsCounted new_http_transport
  new-IsCounted = record { counter = omega arith; bounded = omega arith; quiet = λ h. refl }

  Reach-IsCounted : {t : Transport} → Reach t → IsCounted t
  Reach-IsCounted made = new-IsCounted
  Reach-IsCounted (then_step r s) = Step-IsCounted s (Reach-IsCounted r)

  -- Each step of work leaves one less to do.
  Work-left : {now : ℕ} {c : Conditions} {t u : Transport} → Work now c t u → suc (left u) ≡ left t
  Work-left (counting t n h) = unfold count in ground arith
  Work-left (taking t event more h q) = unfold take_next in ground arith
  Work-left {now} {c} (finishing t event h) =
      unfold finish in ground (arith, deliver-SameQueue date now c t)

  Works-left : {t : Transport} {n : ℕ} {u : Transport} → Works t n u → n + left u ≡ left t
  Works-left rest = omega arith
  Works-left (then_work now c w s) = omega (arith, Works-left w, Work-left s)

  -- A transport is at rest, or there is a step to do, whatever it meets.
  goes_on :
      (now : ℕ) (c : Conditions) (t : Transport)
      → IsCounted t
      → AtRest t ⊎ ((u : Transport) × Work now c t u)
  goes_on now c t k = go t.uncounted t.in_flight t.queue refl refl refl
    where
      go :
          (uncounted : ℕ) (in_flight : Option Event) (queue : List Event)
          → t.uncounted ≡ uncounted
          → t.in_flight ≡ in_flight
          → t.queue ≡ queue
          → AtRest t ⊎ ((u : Transport) × Work now c t u)
      go (suc n) in_flight queue e f q = inr (count t, counting t n e)
      go zero (some event) queue e f q = inr (finish date now c t, finishing t event f)
      go zero none (event ∷ more) e f q = inr (take_next t, taking t event more f q)
      go zero none [] e f q =
          let exact = (pending_exact t k e).1 (q, f) in inl (q, f, e, unfold flush in rw exact refl)

  -- From every state that a transport comes into, by whatever Sends, answers, Close and time-out,
  -- and however the worker and the Sends under way go on, whatever the clock and the conditions
  -- that each of their steps meets: after n steps there are n fewer left than at first, where a
  -- queued event takes two, the event being sent one and a Send that has not counted its event one,
  -- so that they end; and then either nothing is queued, being sent or yet to be counted, and Flush
  -- answers true, or there is a next step, whatever it meets.
  pub Reach-drains :
      (n now : ℕ) (c : Conditions) (t u : Transport)
      → Reach t
      → Works t n u
      → (n + left u ≡ left t) × (AtRest u ⊎ ((v : Transport) × Work now c u v))
  Reach-drains n now c t u r w =
      (Works-left w, goes_on now c u (Works-IsCounted w (Reach-IsCounted r)))
