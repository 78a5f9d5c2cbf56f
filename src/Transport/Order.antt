-- ===== src/Transport/Order.antt =====
-- transport.go: the events that the worker takes are those that Send accepted, in their order.
use mathlib.Core.List.{append_assoc, append-nil}
use bugfree_go_sdk.Base.{
  Bool, List, Option, Text, [], ap, arith, if◌then◌else◌, length, ltb, none, not, refl, some, sym,
  ℕ, ◌&&◌, ◌++◌, ◌∙◌, ◌∷◌, ◌≡◌,
}
use bugfree_go_sdk.Event.{Event}
use bugfree_go_sdk.Transport.{
  Action, Conditions, Transport, act, cancel, cancels, close, closes, count, counts, finish,
  finishes, offer, offers, paused, queue_size, run, take_next, takes,
}
use bugfree_go_sdk.Transport.Counting.{deliver-SameQueue}

abbrev pub accepts : ℕ → Transport → Bool
accepts now t = not t.closed && (not (paused now t) && ltb (length t.queue) queue_size)

-- The event that an action puts in the queue, and the one that it takes out.
abbrev pub accepted_by : Transport → Action → List Event
accepted_by t (offers now event) = if accepts now t then event ∷ [] else []
accepted_by t counts = []
accepted_by t takes = []
accepted_by t closes = []
accepted_by t cancels = []
accepted_by t (finishes now c) = []

-- What a worker has in its hands that had none there before.
abbrev pub newly : Option Event → Option Event → List Event
newly (some event) after = []
newly none none = []
newly none (some event) = event ∷ []

abbrev pub taken_by : Transport → Action → List Event
taken_by t (offers now event) = []
taken_by t counts = []
taken_by t takes = newly t.in_flight (take_next t).in_flight
taken_by t closes = []
taken_by t cancels = []
taken_by t (finishes now c) = []

module _ (date : Text → Option ℕ) where
  unfoldable pub accepted : Transport → List Action → List Event
  accepted t [] = []
  accepted t (a ∷ actions) = accepted_by t a ++ accepted (act date t a) actions

  unfoldable pub taken : Transport → List Action → List Event
  taken t [] = []
  taken t (a ∷ actions) = taken_by t a ++ taken (act date t a) actions

  offer-queue :
      (t : Transport) (now : ℕ) (event : Event)
      → t.queue ++ accepted_by t (offers now event) ≡ (offer now event t).queue
  unfolding offer
  offer-queue t now event = ground (arith, append-nil t.queue)

  take_next-queue :
      (t : Transport) → t.queue ≡ newly t.in_flight (take_next t).in_flight ++ (take_next t).queue
  unfolding take_next
  take_next-queue t = ground arith

  act-queue :
      (t : Transport) (a : Action)
      → t.queue ++ accepted_by t a ≡ taken_by t a ++ (act date t a).queue
  unfolding act count close cancel finish
  act-queue t (offers now event) = offer-queue t now event
  act-queue t counts = append-nil t.queue ∙ ground arith
  act-queue t takes = append-nil t.queue ∙ take_next-queue t
  act-queue t closes = append-nil t.queue ∙ ground arith
  act-queue t cancels = append-nil t.queue ∙ ground arith
  act-queue t (finishes now c) = append-nil t.queue ∙ ground (arith, deliver-SameQueue date now c t)

  -- Over any sequence of actions, what was queued at first and what was accepted since is, in this
  -- order, what came into the worker's hands and what is still queued: no accepted event is lost,
  -- doubled or overtaken on its way from Send to the worker.
  pub taken-accepted :
      (t : Transport) (actions : List Action)
      → t.queue ++ accepted t actions ≡ taken t actions ++ (run date t actions).queue
  unfolding accepted taken run
  taken-accepted t [] = append-nil t.queue
  taken-accepted t (a ∷ actions) =
      let t' = act date t a in
      let rest = taken-accepted t' actions in
      sym (append_assoc t.queue (accepted_by t a) (accepted t' actions))
      ∙ ap (λ (l : List Event). l ++ accepted t' actions) (act-queue t a)
      ∙ append_assoc (taken_by t a) t'.queue (accepted t' actions)
      ∙ ap (λ (l : List Event). taken_by t a ++ l) rest
      ∙ sym (append_assoc (taken_by t a) (taken t' actions) (run date t' actions).queue)

  -- A round of the worker.
  abbrev pub rounds : List (ℕ × Conditions) → List Action
  rounds [] = []
  rounds ((now, c) ∷ rest) = takes ∷ finishes now c ∷ rounds rest

  round :
      (t : Transport) (now : ℕ) (c : Conditions) (event : Event) (rest : List Event)
      → t.queue ≡ event ∷ rest
      → t.in_flight ≡ none
      → ((finish date now c (take_next t)).queue ≡ rest)
        × ((finish date now c (take_next t)).in_flight ≡ none)
  unfolding finish take_next
  round t now c event rest q f =
      ground
        (arith, deliver-SameQueue date now c (record t { queue = rest; in_flight = some event }))

  drain :
      (t : Transport) (queue : List Event) (rs : List (ℕ × Conditions))
      → t.queue ≡ queue
      → t.in_flight ≡ none
      → length rs ≡ length queue
      → ((run date t (rounds rs)).queue ≡ []) × ((run date t (rounds rs)).in_flight ≡ none)
  unfolding run act
  drain t [] [] q f n = (q, f)
  drain t [] (r ∷ rs) q f n = absurd (omega arith)
  drain t (event ∷ rest) [] q f n = absurd (omega arith)
  drain t (event ∷ rest) ((now, c) ∷ rs) q f n =
      let (q', f') = round t now c event rest q f in
      drain (finish date now c (take_next t)) rest rs q' f' (omega arith)

  -- The worker empties the queue in as many rounds as it holds events, whatever is answered and
  -- whether or not Close has given up: so the wait of Close for it ends.
  pub rounds_drain :
      (t : Transport) (rs : List (ℕ × Conditions))
      → t.in_flight ≡ none
      → length rs ≡ length t.queue
      → ((run date t (rounds rs)).queue ≡ []) × ((run date t (rounds rs)).in_flight ≡ none)
  rounds_drain t rs f n = drain t t.queue rs refl f n
