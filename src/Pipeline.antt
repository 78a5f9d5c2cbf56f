-- ===== src/Pipeline.antt =====
-- client.go, finish and Stats: a client together with what it hands its events to. The transport is
-- an interface (`Carrier`), as in the code; Pipeline.Http fills it with the SDK's own.
mod Tests
pub mod Http
use bugfree_go_sdk.Base.{
  Bool, List, Option, [], ap, arith, drop, drop-length, drop-length-append, if◌then◌else◌, inl, inr,
  length, length-append, none, not, some, suc, ℕ, ◌+◌, ◌||◌, ◌∷◌, ◌≡◌,
}
use bugfree_go_sdk.Event.{Event, EventModifier}
use bugfree_go_sdk.Client.Accounting.{capture-counted}
use bugfree_go_sdk.Client.Capture.{Subject, capture, is_nothing}
use bugfree_go_sdk.Client.Content.{capture-Answers}
use bugfree_go_sdk.Client.Kept.{capture-SameSetup}
use bugfree_go_sdk.Client.{Client, Moment}
use bugfree_go_sdk.Transport.{Transport}

-- type Stats struct
pub record Stats : Type 0 where
  pub sampled : ℕ
  pub duplicates : ℕ
  pub before_send : ℕ
  pub queue_full : ℕ
  pub rate_limited : ℕ
  pub transactions : ℕ

-- (*Client).Stats; the client is not nil, and the transport is the SDK's own or another.
unfoldable pub stats_of : Client → Option Transport → Stats
stats_of c none = record {
  sampled = c.stats.sampled;
  duplicates = c.stats.duplicates;
  before_send = c.stats.before_send;
  queue_full = 0;
  rate_limited = 0;
  transactions = c.stats.transactions;
}
stats_of c (some t) = record {
  sampled = c.stats.sampled;
  duplicates = c.stats.duplicates;
  before_send = c.stats.before_send;
  queue_full = t.dropped_full;
  rate_limited = t.dropped_paused;
  transactions = c.stats.transactions;
}

-- A transport: its Send, what it does by itself, and the number of events that it can tell of. An
-- open one can tell of every event that it was sent.
pub record Carrier (S W : Type 0) : Type 1 where
  pub send : ℕ → Event → S → S
  pub work : W → S → S
  pub known : S → ℕ
  pub IsOpen : S → Type 0
  pub send_opens : (now : ℕ) (event : Event) (s : S) → IsOpen s → IsOpen (send now event s)
  pub send_known :
      (now : ℕ) (event : Event) (s : S) → IsOpen s → known (send now event s) ≡ suc (known s)
  pub work_opens : (w : W) (s : S) → IsOpen s → IsOpen (work w s)
  pub work_known : (w : W) (s : S) → IsOpen s → known (work w s) ≡ known s

-- What happens to a client: a capture, and work of its transport.
pub data Move (W : Type 0) : Type 0 where
  captures : Moment → Option ℕ → Subject → List (Option EventModifier) → Move W
  carries : W → Move W

module _ {S W : Type 0} (carrier : Carrier S W) where
  abbrev pub send_all : ℕ → List Event → S → S
  send_all now [] s = s
  send_all now (event ∷ rest) s = send_all now rest (carrier.send now event s)

  -- A capture with its call of Send, if it comes to one.
  unfoldable pub capture_into :
      Moment → Option ℕ → Subject → List (Option EventModifier) → Client × S → Client × S
  capture_into m scope subject modifiers (c, s) =
      let c' = (capture m c scope subject modifiers).0 in
      (c', send_all m.now (drop (length c.sent) c'.sent) s)

  unfoldable pub move : Client × S → Move W → Client × S
  unfolding capture_into
  move (c, s) (captures m scope subject modifiers) = capture_into m scope subject modifiers (c, s)
  move (c, s) (carries w) = (c, carrier.work w s)

  unfoldable pub moves : Client × S → List (Move W) → Client × S
  unfolding move
  moves p [] = p
  moves p (a ∷ rest) = moves (move p a) rest

  -- The captures of something; a client that is not enabled captures nothing.
  abbrev pub asked : Bool → List (Move W) → ℕ
  asked enabled [] = 0
  asked enabled (captures m scope subject modifiers ∷ rest) =
      (if not enabled || is_nothing subject then 0 else 1) + asked enabled rest
  asked enabled (carries w ∷ rest) = asked enabled rest

  -- What the client counts of its captures, and the transport knows of.
  abbrev pub told_of : Client × S → ℕ
  told_of (c, s) = c.stats.sampled + c.stats.duplicates + c.stats.before_send + carrier.known s

  capture_into-told_of :
      (m : Moment) (scope : Option ℕ) (subject : Subject) (modifiers : List (Option EventModifier))
      (c : Client) (s : S)
      → carrier.IsOpen s
      → (told_of (capture_into m scope subject modifiers (c, s))
          ≡ (if not c.enabled || is_nothing subject then 0 else 1) + told_of (c, s))
        × carrier.IsOpen (capture_into m scope subject modifiers (c, s)).1
        × ((capture_into m scope subject modifiers (c, s)).0.enabled ≡ c.enabled)
  unfolding capture_into
  capture_into-told_of m scope subject modifiers c s is_open =
      let r = capture m c scope subject modifiers in
      let (_, enabled, _) = capture-SameSetup m c scope subject modifiers in
      elim (capture-counted m c scope subject modifiers) [
        | inl (off, same) ↦ (
          rw (off, same, drop-length c.sent) (omega arith),
          rw (same, drop-length c.sent) is_open,
          enabled,
        )
        | inr (on, counted) ↦ elim (capture-Answers m c scope subject modifiers) [
          | inl (none_sent, id) ↦ (
            rw (on, none_sent, drop-length c.sent) (omega (arith, counted, ap length none_sent)),
            rw (none_sent, drop-length c.sent) is_open,
            enabled,
          )
          | inr (event, sent, id) ↦ (
            rw (on, sent, drop-length-append c.sent (event ∷ []))
                (omega (
                  arith,
                  counted,
                  ap length sent,
                  length-append c.sent (event ∷ []),
                  carrier.send_known m.now event s is_open,
                )),
            rw (sent, drop-length-append c.sent (event ∷ []))
                (carrier.send_opens m.now event s is_open),
            enabled,
          )
        ]
      ]

  pub moves-told_of :
      (all : List (Move W)) (c : Client) (s : S)
      → carrier.IsOpen s
      → told_of (moves (c, s) all) ≡ asked c.enabled all + told_of (c, s)
  unfolding moves move
  moves-told_of [] c s is_open = omega arith
  moves-told_of (captures m scope subject modifiers ∷ rest) c s is_open =
      let p = capture_into m scope subject modifiers (c, s) in
      let (more, still, same) = capture_into-told_of m scope subject modifiers c s is_open in
      omega (arith, more, rw same at (moves-told_of rest p.0 p.1 still))
  moves-told_of (carries w ∷ rest) c s is_open = omega (
    arith,
    carrier.work_known w s is_open,
    moves-told_of rest c (carrier.work w s) (carrier.work_opens w s is_open),
  )
