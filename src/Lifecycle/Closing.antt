-- ===== src/Lifecycle/Closing.antt =====
-- client.go, Close: what it leaves, and what a second call does.
use bugfree_go_sdk.Base.{
  Bool, Bool-cases, List, Option, Text, [], ap, arith, false, if◌then◌else◌, inl, inr, length, map,
  map_option, none, refl, some, true, ℕ, ◌+◌, ◌-◌, ◌∙◌, ◌∷◌, ◌≡◌, ◌≤◌,
}
use bugfree_go_sdk.Transport.{Conditions, Transport, act, cancel, close, finish, run, take_next}
use bugfree_go_sdk.Transport.Counting.{carried, deliver-SameQueue, unfinished}
use bugfree_go_sdk.Transport.Order.{rounds}
use bugfree_go_sdk.Lifecycle.{
  Carried, Live, Wait, close_client, foreign, is_drained, own, shut, shut_carried, shut_traces,
  stop_waiting,
}
use bugfree_go_sdk.Event.{Event}
use bugfree_go_sdk.Sessions.Reports.{Reporting, closed, signalled}
use bugfree_go_sdk.Tracing.Queue.{
  Traces, act_traces, close_traces, deliver_from, deliver_next, delivers, queued, run_traces,
}
use bugfree_go_sdk.Profiling.{Profiler, close_profiler}

-- Nothing is queued or being sent, and the transport is closed and its context cancelled.
abbrev pub IsShut : Transport → Type 0
IsShut t = (t.queue ≡ []) × (t.in_flight ≡ none) × (t.closed ≡ true) × (t.cancelled ≡ true)

-- A part that a client has started, with a property.
abbrev pub Holds : {A : Type 0} → (A → Type 0) → Option A → Type 0
Holds P none = Unit
Holds P (some a) = P a

abbrev pub IsQuiet : Carried → Type 0
IsQuiet (own t) = (t.uncounted ≡ 0) × (t.closed ≡ false)
IsQuiet (foreign n) = Unit

abbrev pub IsEnough : Wait → Carried → Type 0
IsEnough x (own t) = unfinished t ≤ length x.in_time + length x.too_late
IsEnough x (foreign n) = Unit

abbrev pub IsShutDown : Carried → Type 0
IsShutDown (own t) = IsShut t
IsShutDown (foreign n) = Unit

-- What a closed client is like.
abbrev pub IsClosed : Live → Type 0
IsClosed l =
    Holds (λ p. p.stopped ≡ true) l.profiler
    × Holds (λ r. r.running ≡ false) l.sessions
    × (l.traces.closed ≡ true)
    × Holds IsShutDown l.transport

module _ (date : Text → Option ℕ) where
  round-unfinished :
      (now : ℕ) (c : Conditions) (t : Transport)
      → unfinished (finish date now c (take_next t)) ≡ unfinished t - 1
  round-unfinished now c t =
      unfold finish take_next in ground (arith, deliver-SameQueue date now c (take_next t))

  rounds-unfinished :
      (rs : List (ℕ × Conditions)) (t : Transport)
      → unfinished (run date t (rounds date rs)) ≡ unfinished t - length rs
  unfolding run act
  rounds-unfinished [] t = omega arith
  rounds-unfinished ((now, c) ∷ rs) t =
      omega
        (arith, rounds-unfinished rs (finish date now c (take_next t)), round-unfinished now c t)

  round_flags :
      (now : ℕ) (c : Conditions) (t : Transport)
      → ((finish date now c (take_next t)).closed ≡ t.closed)
        × ((finish date now c (take_next t)).cancelled ≡ t.cancelled)
  round_flags now c t =
      unfold finish take_next in ground (arith, deliver-SameQueue date now c (take_next t))

  rounds_flags :
      (rs : List (ℕ × Conditions)) (t : Transport)
      → ((run date t (rounds date rs)).closed ≡ t.closed)
        × ((run date t (rounds date rs)).cancelled ≡ t.cancelled)
  unfolding run act
  rounds_flags [] t = (refl, refl)
  rounds_flags ((now, c) ∷ rs) t =
      let (same, kept) = round_flags now c t in
      let (same', kept') = rounds_flags rs (finish date now c (take_next t)) in
      (same' ∙ same, kept' ∙ kept)

  unfinished-none : (t : Transport) → unfinished t ≡ 0 → (t.queue ≡ []) × (t.in_flight ≡ none)
  unfinished-none t h = go t.queue t.in_flight h
    where
      go :
          (queue : List Event) (in_flight : Option Event)
          → length queue + carried in_flight ≡ 0
          → (queue ≡ []) × (in_flight ≡ none)
      go [] none h = (refl, refl)
      go [] (some event) h = absurd (omega arith)
      go (event ∷ rest) in_flight h = absurd (omega arith)

  drained-none : (t : Transport) → is_drained t ≡ true → (t.queue ≡ []) × (t.in_flight ≡ none)
  drained-none t h = ground arith

  cancel-IsShut :
      (t : Transport) → (t.queue ≡ []) × (t.in_flight ≡ none) → t.closed ≡ true → IsShut (cancel t)
  unfolding cancel
  cancel-IsShut t (q, f) h = rw h (q, f, refl, refl)

  cancel-unfinished : (t : Transport) → unfinished (cancel t) ≡ unfinished t
  unfolding cancel
  cancel-unfinished t = ground arith

  cancel_flags :
      (t : Transport) → t.closed ≡ true → ((cancel t).closed ≡ true) × ((cancel t).cancelled ≡ true)
  unfolding cancel
  cancel_flags t h = rw h (refl, refl)

  stop_waiting-IsShut :
      (x : Wait) (t : Transport)
      → t.closed ≡ true
      → unfinished t ≤ length x.too_late
      → IsShut (stop_waiting date x t)
  unfolding stop_waiting run act
  stop_waiting-IsShut x t is_closed enough = elim (Bool-cases (is_drained t)) [
    | inl done ↦ rw done (cancel-IsShut t (drained-none t done) is_closed)
    | inr left ↦
        let (same, kept) = rounds_flags x.too_late (cancel t) in
        let (same', kept') = cancel_flags t is_closed in
        let (q, f) =
          unfinished-none (run date (cancel t) (rounds date x.too_late))
            (omega (arith, rounds-unfinished x.too_late (cancel t), cancel-unfinished t)) in
        rw left (q, f, same ∙ same', kept ∙ kept')
  ]

  close_flags :
      (t : Transport)
      → t.uncounted ≡ 0
      → ((close t).closed ≡ true) × (unfinished (close t) ≡ unfinished t)
  unfolding close
  close_flags t h = rw h (refl, refl)

  shut-stop_waiting :
      (x : Wait) (t : Transport)
      → t.closed ≡ false
      → shut date x t ≡ stop_waiting date x (run date (close t) (rounds date x.in_time))
  unfolding shut run act
  shut-stop_waiting x t is_open =
      ap
        (λ (b : Bool).
          if b then t else stop_waiting date x (run date (close t) (rounds date x.in_time)))
        is_open

  shut-IsShut :
      (x : Wait) (t : Transport)
      → t.closed ≡ false
      → t.uncounted ≡ 0
      → unfinished t ≤ length x.in_time + length x.too_late
      → IsShut (shut date x t)
  shut-IsShut x t is_open none_between enough =
      let waited = run date (close t) (rounds date x.in_time) in
      let (is_closed, same) = close_flags t none_between in
      let shut_now = (rounds_flags x.in_time (close t)).0 ∙ is_closed in
      let left : unfinished waited ≤ length x.too_late =
        omega (arith, rounds-unfinished x.in_time (close t), same) in
      rw (shut-stop_waiting x t is_open) (stop_waiting-IsShut x waited shut_now left)

  signalled_closed :
      (x : Wait) (r : Reporting) → (signalled x.channel r (closed x.report)).running ≡ false
  unfolding signalled
  signalled_closed x r = ground arith

  act_traces-closed : (b : Bool) (t : Traces) → (act_traces t (delivers b)).closed ≡ t.closed
  unfolding act_traces deliver_next
  act_traces-closed b t = go (queued t)
    where
      go : (bodies : List Text) → (deliver_from b t bodies).closed ≡ t.closed
      go [] = unfold deliver_from in refl
      go (body ∷ rest) = unfold deliver_from in ground arith

  run_traces-closed :
      (pauses : List Bool) (t : Traces) → (run_traces t (map delivers pauses)).closed ≡ t.closed
  unfolding run_traces
  run_traces-closed [] t = refl
  run_traces-closed (b ∷ rest) t =
      run_traces-closed rest (act_traces t (delivers b)) ∙ act_traces-closed b t

  shut_traces-closed : (pauses : List Bool) (t : Traces) → (shut_traces pauses t).closed ≡ true
  unfolding shut_traces close_traces
  shut_traces-closed pauses t =
      ground (arith, run_traces-closed pauses (record t { closed = true }))

  -- Close of a client, whose own transport is not closed yet, has no Send between its halves, and
  -- gets from its worker, before the time-out or after it, as many rounds as it has unfinished
  -- events, leaves the profiler stopped, the loop of the sessions over, no transaction taken any
  -- more, and the transport closed and cancelled with nothing queued and nothing being sent.
  pub close_client-IsClosed :
      (x : Wait) (l : Live)
      → Holds IsQuiet l.transport
      → Holds (IsEnough x) l.transport
      → IsClosed (close_client date x l)
  unfolding close_client
  close_client-IsClosed x l quiet enough = (
    profiled l.profiler,
    counted_out l.sessions,
    shut_traces-closed x.pauses l.traces,
    carried_out l.transport quiet enough,
  )
    where
      profiled :
          (o : Option Profiler)
          → Holds (λ (p : Profiler). p.stopped ≡ true) (map_option close_profiler o)
      profiled none = tt
      profiled (some p) = unfold close_profiler in refl

      counted_out :
          (o : Option Reporting)
          → Holds
              (λ (r : Reporting). r.running ≡ false)
              (map_option (λ (r : Reporting). signalled x.channel r (closed x.report)) o)
      counted_out none = tt
      counted_out (some r) = signalled_closed x r

      carried_out :
          (o : Option Carried)
          → Holds IsQuiet o
          → Holds (IsEnough x) o
          → Holds IsShutDown (map_option (shut_carried date x) o)
      carried_out none q e = tt
      carried_out (some (foreign n)) q e = tt
      carried_out (some (own t)) (none_between, is_open) e = shut-IsShut x t is_open none_between e
