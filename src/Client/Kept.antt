-- ===== src/Client/Kept.antt =====
-- client.go: what no capture changes of a client.
use mathlib.Core.List.{foldl}
use bugfree_go_sdk.Base.{
  Bool-cases, List, Option, Text, [], arith, codes, drop, inl, inr, keep, none, not, refl, some,
  suc, ℕ, ◌++◌, ◌||◌, ◌∙◌, ◌≡◌,
}
use bugfree_go_sdk.Errors.{callers, describe, error_type, message}
use bugfree_go_sdk.Event.{Event, EventModifier, Level, level_error, level_fatal}
use bugfree_go_sdk.Frames.{Frame, capture_stack}
use bugfree_go_sdk.Client.Capture.{
  Subject, capture, capture_subject, chain_of_recovered, chain_onto, exception, frames_for, id_or,
  is_nothing, panicked, plain_message, ready,
}
use bugfree_go_sdk.Client.{
  Client, Moment, before_send_of, finish, hand_over, modify_event, new_event, sampled,
}

abbrev pub SameSetup : Client → Client → Type 0
SameSetup a b = (a.options ≡ b.options) × (a.enabled ≡ b.enabled) × (a.scope ≡ b.scope)

SameSetup-trans : (a b c : Client) → SameSetup a b → SameSetup b c → SameSetup a c
SameSetup-trans a b c (o, e, s) (o', e', s') = (o ∙ o', e ∙ e', s ∙ s')

hand_over-SameSetup : (c : Client) (o : Option Event) → SameSetup (hand_over c o).0 c
unfolding hand_over
hand_over-SameSetup c none = (refl, refl, refl)
hand_over-SameSetup c (some event) = (refl, refl, refl)

finish-SameSetup :
    (c : Client) (event : Option Event) (modifiers : List (Option EventModifier))
    → SameSetup (finish c event modifiers).0 c
unfolding finish
finish-SameSetup c none modifiers = (refl, refl, refl)
finish-SameSetup c (some event) modifiers =
    hand_over-SameSetup c
      (before_send_of c.options.before_send (foldl modify_event event modifiers))

module _ (m : Moment) where
  new_event-SameSetup :
      (c : Client) (scope : Option ℕ) (level : Level) (event_type message : Text)
      (frames : List Frame)
      → SameSetup (new_event m c scope level event_type message frames).0 c
  unfolding new_event
  new_event-SameSetup c scope level event_type message frames = ground arith

  sampled-SameSetup : (c : Client) → SameSetup (sampled m c).0 c
  unfolding sampled
  sampled-SameSetup c = ground arith

  finished_new :
      (c : Client) (scope : Option ℕ) (level : Level) (event_type message : Text)
      (frames : List Frame) (event : Option Event) (modifiers : List (Option EventModifier))
      → SameSetup
          (finish (new_event m c scope level event_type message frames).0 event modifiers).0
          c
  finished_new c scope level event_type message frames event modifiers =
      let made = (new_event m c scope level event_type message frames).0 in
      SameSetup-trans (finish made event modifiers).0 made c (finish-SameSetup made event modifiers)
        (new_event-SameSetup c scope level event_type message frames)

  capture_subject-SameSetup :
      (c : Client) (scope : Option ℕ) (subject : Subject) (modifiers : List (Option EventModifier))
      → SameSetup (capture_subject m c scope subject modifiers).0 c
  unfolding capture_subject
  capture_subject-SameSetup c scope (exception none callers) modifiers = (refl, refl, refl)
  capture_subject-SameSetup c scope (exception (some err) callers) modifiers =
      let frames = frames_for m err callers in
      finished_new c scope level_error (error_type err) (message err) frames
        (chain_onto err (new_event m c scope level_error (error_type err) (message err) frames).1)
        modifiers
  capture_subject-SameSetup c scope (plain_message level text) modifiers =
      let frames = capture_stack m.shown 1 m.stack in
      finished_new c scope level (codes "Message") text frames
        (new_event m c scope level (codes "Message") text frames).1 modifiers
  capture_subject-SameSetup c scope (panicked none skip) modifiers = (refl, refl, refl)
  capture_subject-SameSetup c scope (panicked (some recovered) skip) modifiers =
      let frames = capture_stack m.shown (suc skip) m.stack in
      let text = codes "panic: " ++ describe recovered in
      finished_new c scope level_fatal (codes "runtime.Error") text frames
        (chain_of_recovered recovered
          (new_event m c scope level_fatal (codes "runtime.Error") text frames).1)
        modifiers
  capture_subject-SameSetup c scope (ready none) modifiers = (refl, refl, refl)
  capture_subject-SameSetup c scope (ready (some event)) modifiers =
      finish-SameSetup c (some (id_or m.id event)) []

  -- No capture changes the options, whether the client is enabled, or its global scope.
  pub capture-SameSetup :
      (c : Client) (scope : Option ℕ) (subject : Subject) (modifiers : List (Option EventModifier))
      → SameSetup (capture m c scope subject modifiers).0 c
  unfolding capture
  capture-SameSetup c scope subject modifiers =
      elim (Bool-cases (not c.enabled || is_nothing subject)) [
        | inl off ↦ rw off (refl, refl, refl)
        | inr on ↦ rw on (elim (Bool-cases (sampled m c).1) [
          | inl keep ↦ rw keep (
              SameSetup-trans (capture_subject m (sampled m c).0 scope subject modifiers).0
                (sampled m c).0 c
                (capture_subject-SameSetup (sampled m c).0 scope subject modifiers)
                (sampled-SameSetup c))
          | inr drop ↦ rw drop (sampled-SameSetup c)
        ])
      ]
