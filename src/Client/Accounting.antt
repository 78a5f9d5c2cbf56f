-- ===== src/Client/Accounting.antt =====
-- client.go: every capture is sent or counted.
use mathlib.Core.List.{foldl}
use bugfree_go_sdk.Base.{
  Bool-cases, List, Option, Text, [], arith, codes, drop, false, if◌then◌else◌, inl, inr, keep,
  length, length-append, none, not, refl, some, suc, true, ℕ, ◌++◌, ◌+◌, ◌||◌, ◌∷◌, ◌≡◌, ◌⊎◌,
}
use bugfree_go_sdk.Errors.{
  Err, Recovered, callers, describe, error, error_type, message, other, plain,
}
use bugfree_go_sdk.Event.{Event, EventModifier, Level, level_error, level_fatal}
use bugfree_go_sdk.Client.Capture.{
  Subject, capture, capture_subject, chain_of_recovered, chain_onto, exception, frames_for, id_or,
  is_nothing, panicked, plain_message, ready,
}
use bugfree_go_sdk.Client.{
  Client, Moment, before_send_of, finish, hand_over, modify_event, new_event, sampled,
}
use bugfree_go_sdk.Frames.{Frame, capture_stack}

-- The captures that a client has answered for: those handed to the transport, and those of Stats.
abbrev pub answered_for : Client → ℕ
answered_for c = length c.sent + c.stats.sampled + c.stats.duplicates + c.stats.before_send

abbrev pub waiting : Option Event → ℕ
waiting none = 0
waiting (some event) = 1

waiting-chain : (err : Err) (event : Option Event) → waiting (chain_onto err event) ≡ waiting event
waiting-chain err none = refl
waiting-chain err (some event) = refl

waiting-recovered :
    (r : Recovered) (event : Option Event) → waiting (chain_of_recovered r event) ≡ waiting event
waiting-recovered (plain s) event = refl
waiting-recovered (error err) event = waiting-chain err event
waiting-recovered (other s) event = refl

module _ (m : Moment) where
  pub new_event-counted :
      (c : Client) (scope : Option ℕ) (level : Level) (event_type message : Text)
      (frames : List Frame)
      → answered_for (new_event m c scope level event_type message frames).0
          + waiting (new_event m c scope level event_type message frames).1
        ≡ suc (answered_for c)
  unfolding new_event
  new_event-counted c scope level event_type message frames = ground arith

  pub finish-counted :
      (c : Client) (event : Option Event) (modifiers : List (Option EventModifier))
      → answered_for (finish c event modifiers).0 ≡ answered_for c + waiting event
  unfolding finish
  finish-counted c none modifiers = omega arith
  finish-counted c (some event) modifiers =
      handed (before_send_of c.options.before_send (foldl modify_event event modifiers))
    where
      handed : (o : Option Event) → answered_for (hand_over c o).0 ≡ answered_for c + 1
      handed none = unfold hand_over in omega arith
      handed (some e) = unfold hand_over in omega (arith, length-append c.sent (e ∷ []))

  subject_counted :
      (c : Client) (scope : Option ℕ) (subject : Subject) (modifiers : List (Option EventModifier))
      → is_nothing subject ≡ false
      → answered_for (capture_subject m c scope subject modifiers).0 ≡ suc (answered_for c)
  unfolding capture_subject
  subject_counted c scope (exception none callers) modifiers h = cc
  subject_counted c scope (exception (some err) callers) modifiers h =
      let made =
        new_event m c scope level_error (error_type err) (message err) (frames_for m err callers) in
      omega (
        arith,
        new_event-counted c scope level_error (error_type err) (message err)
            (frames_for m err callers),
        finish-counted made.0 (chain_onto err made.1) modifiers,
        waiting-chain err made.1,
      )
  subject_counted c scope (plain_message level text) modifiers h =
      let frames = capture_stack m.shown 1 m.stack in
      let made = new_event m c scope level (codes "Message") text frames in
      omega (
        arith,
        new_event-counted c scope level (codes "Message") text frames,
        finish-counted made.0 made.1 modifiers,
      )
  subject_counted c scope (panicked none skip) modifiers h = cc
  subject_counted c scope (panicked (some recovered) skip) modifiers h =
      let frames = capture_stack m.shown (suc skip) m.stack in
      let text = codes "panic: " ++ describe recovered in
      let made = new_event m c scope level_fatal (codes "runtime.Error") text frames in
      omega (
        arith,
        new_event-counted c scope level_fatal (codes "runtime.Error") text frames,
        finish-counted made.0 (chain_of_recovered recovered made.1) modifiers,
        waiting-recovered recovered made.1,
      )
  subject_counted c scope (ready none) modifiers h = cc
  subject_counted c scope (ready (some event)) modifiers h =
      omega (arith, finish-counted c (some (id_or m.id event)) [])

  pub sampled-counted :
      (c : Client)
      → answered_for (sampled m c).0 + (if (sampled m c).1 then 1 else 0) ≡ suc (answered_for c)
  unfolding sampled
  sampled-counted c = ground arith

  -- A capture by a disabled client, or of nothing, changes nothing at all. Any other is answered
  -- for exactly once: by one event handed to the transport, or by one more in the count of the
  -- events left out by sampling, of the duplicates or of those that BeforeSend dropped.
  pub capture-counted :
      (c : Client) (scope : Option ℕ) (subject : Subject) (modifiers : List (Option EventModifier))
      → (((not c.enabled || is_nothing subject) ≡ true)
          × (capture m c scope subject modifiers ≡ (c, [])))
        ⊎ (((not c.enabled || is_nothing subject) ≡ false)
            × (answered_for (capture m c scope subject modifiers).0 ≡ suc (answered_for c)))
  unfolding capture
  capture-counted c scope subject modifiers =
      elim (Bool-cases (not c.enabled || is_nothing subject)) [
        | inl off ↦ inl (off, rw off)
        | inr on ↦ inr (on, rw on (go on (Bool-cases (sampled m c).1)))
      ]
    where
      go :
          (not c.enabled || is_nothing subject) ≡ false
          → (((sampled m c).1 ≡ true) ⊎ ((sampled m c).1 ≡ false))
          → answered_for
              (if (sampled m c).1
                then capture_subject m (sampled m c).0 scope subject modifiers
                else ((sampled m c).0, [])).0
            ≡ suc (answered_for c)
      go on (inl keep) = rw keep (
          omega (
            arith,
            subject_counted (sampled m c).0 scope subject modifiers (ground arith),
            rw keep at (sampled-counted c),
          ))
      go on (inr drop) = rw drop (omega (arith, rw drop at (sampled-counted c)))
