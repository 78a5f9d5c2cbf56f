-- ===== src/Client/Content.antt =====
-- client.go: the id that a capture returns, and a repeat of the same error.
use mathlib.Core.List.{foldl}
use bugfree_go_sdk.Base.{
  Bool-cases, List, Option, Text, [], ap, arith, codes, drop, false, inl, inr, keep, ltb_ℤ, none,
  not, pos, refl, some, sub_ℕ, suc, true, ℕ, ◌++◌, ◌||◌, ◌∙◌, ◌∷◌, ◌≡◌, ◌⊎◌,
}
use bugfree_go_sdk.Errors.{callers, describe, error_type, message}
use bugfree_go_sdk.Event.{Event, EventModifier, Level, level_error, level_fatal}
use bugfree_go_sdk.Client.Capture.{
  Subject, capture, capture_subject, chain_of_recovered, chain_onto, exception, frames_for, id_or,
  is_nothing, panicked, plain_message, ready,
}
use bugfree_go_sdk.Client.{
  Client, Moment, before_send_of, finish, hand_over, modify_event, new_event, sampled, signature,
}
use bugfree_go_sdk.Frames.{Frame, capture_stack, culprit_of, mark_in_app}
use bugfree_go_sdk.Dedupe.{admit}
use bugfree_go_sdk.Dedupe.Window.{admit_again}

-- The answer of a capture: nothing was handed over and the id is empty, or one event was, behind
-- those before it, and the id is its own.
abbrev pub Answers : Client → Client × Text → Type 0
Answers c (c', id) =
    ((c'.sent ≡ c.sent) × (id ≡ []))
    ⊎ ((event : Event) × (c'.sent ≡ c.sent ++ event ∷ []) × (id ≡ event.event_id))

module _ (m : Moment) where
  new_event-sent :
      (c : Client) (scope : Option ℕ) (level : Level) (event_type message : Text)
      (frames : List Frame)
      → (new_event m c scope level event_type message frames).0.sent ≡ c.sent
  unfolding new_event
  new_event-sent c scope level event_type message frames = ground arith

  finish-Answers :
      (c : Client) (event : Option Event) (modifiers : List (Option EventModifier))
      → Answers c (finish c event modifiers)
  unfolding finish
  finish-Answers c none modifiers = inl (refl, refl)
  finish-Answers c (some event) modifiers =
      handed (before_send_of c.options.before_send (foldl modify_event event modifiers))
    where
      handed : (o : Option Event) → Answers c (hand_over c o)
      handed none = unfold hand_over in inl (refl, refl)
      handed (some e) = unfold hand_over in inr (e, refl, refl)

  after : (c c' : Client) (r : Client × Text) → c'.sent ≡ c.sent → Answers c' r → Answers c r
  after c c' r e (inl (same, id)) = inl (same ∙ e, id)
  after c c' r e (inr (event, more, id)) =
      inr (event, more ∙ ap (λ (l : List Event). l ++ event ∷ []) e, id)

  subject-Answers :
      (c : Client) (scope : Option ℕ) (subject : Subject) (modifiers : List (Option EventModifier))
      → Answers c (capture_subject m c scope subject modifiers)
  unfolding capture_subject
  subject-Answers c scope (exception none callers) modifiers = inl (refl, refl)
  subject-Answers c scope (exception (some err) callers) modifiers =
      let frames = frames_for m err callers in
      let made = new_event m c scope level_error (error_type err) (message err) frames in
      after c made.0 (finish made.0 (chain_onto err made.1) modifiers)
        (new_event-sent c scope level_error (error_type err) (message err) frames)
        (finish-Answers made.0 (chain_onto err made.1) modifiers)
  subject-Answers c scope (plain_message level text) modifiers =
      let frames = capture_stack m.shown 1 m.stack in
      let made = new_event m c scope level (codes "Message") text frames in
      after c made.0 (finish made.0 made.1 modifiers)
        (new_event-sent c scope level (codes "Message") text frames)
        (finish-Answers made.0 made.1 modifiers)
  subject-Answers c scope (panicked none skip) modifiers = inl (refl, refl)
  subject-Answers c scope (panicked (some recovered) skip) modifiers =
      let frames = capture_stack m.shown (suc skip) m.stack in
      let text = codes "panic: " ++ describe recovered in
      let made = new_event m c scope level_fatal (codes "runtime.Error") text frames in
      after c made.0 (finish made.0 (chain_of_recovered recovered made.1) modifiers)
        (new_event-sent c scope level_fatal (codes "runtime.Error") text frames)
        (finish-Answers made.0 (chain_of_recovered recovered made.1) modifiers)
  subject-Answers c scope (ready none) modifiers = inl (refl, refl)
  subject-Answers c scope (ready (some event)) modifiers =
      finish-Answers c (some (id_or m.id event)) []

  sampled-sent : (c : Client) → (sampled m c).0.sent ≡ c.sent
  unfolding sampled
  sampled-sent c = ground arith

  pub capture-Answers :
      (c : Client) (scope : Option ℕ) (subject : Subject) (modifiers : List (Option EventModifier))
      → Answers c (capture m c scope subject modifiers)
  unfolding capture
  capture-Answers c scope subject modifiers =
      elim (Bool-cases (not c.enabled || is_nothing subject)) [
        | inl off ↦ rw off (inl (refl, refl))
        | inr on ↦ rw on (elim (Bool-cases (sampled m c).1) [
          | inl keep ↦ rw keep (
              after c (sampled m c).0 (capture_subject m (sampled m c).0 scope subject modifiers)
                (sampled-sent c) (subject-Answers (sampled m c).0 scope subject modifiers))
          | inr drop ↦ rw drop (inl (sampled-sent c, refl))
        ])
      ]

-- What new_event asks the filter.
abbrev pub key_of : Moment → Client → Text → Text → List Frame → Text
key_of m c event_type message frames =
    signature event_type (culprit_of (mark_in_app c.options.in_app_prefixes m.build frames)) message

new_event-event :
    (m : Moment) (c : Client) (scope : Option ℕ) (level : Level) (event_type message : Text)
    (frames : List Frame)
    → ((admit c.dedupe (key_of m c event_type message frames) m.now).2 ≡ false
        → ((new_event m c scope level event_type message frames).1 ≡ none)
          × ((new_event m c scope level event_type message frames).0.stats.duplicates
              ≡ suc c.stats.duplicates))
      × ((new_event m c scope level event_type message frames).0.dedupe
          ≡ (admit c.dedupe (key_of m c event_type message frames) m.now).0)
      × ((new_event m c scope level event_type message frames).0.options ≡ c.options)
unfolding new_event
new_event-event m c scope level event_type message frames =
    (λ held. rw held (refl, refl), ground arith, ground arith)

new_event-none :
    (m : Moment) (c : Client) (scope : Option ℕ) (level : Level) (event_type message : Text)
    (frames : List Frame) (event : Event)
    → (new_event m c scope level event_type message frames).1 ≡ some event
    → (admit c.dedupe (key_of m c event_type message frames) m.now).2 ≡ true
unfolding new_event
new_event-none m c scope level event_type message frames event h = ground arith

module _ (m m' : Moment) (c : Client) (scope scope' : Option ℕ) (level level' : Level) where
  -- An event was built for an error; when the same error (type, message and frames, in the same
  -- build) comes again before the window is over, no event is built for it, whatever its level and
  -- its scope: the duplicates are counted one up.
  pub new_event_repeat :
      (event_type message : Text) (frames : List Frame) (event : Event)
      → ltb_ℤ c.dedupe.window (pos 0) ≡ false
      → m'.build ≡ m.build
      → ltb_ℤ (sub_ℕ m'.now m.now) c.dedupe.window ≡ true
      → (new_event m c scope level event_type message frames).1 ≡ some event
      → ((new_event m'
            (new_event m c scope level event_type message frames).0
            scope'
            level'
            event_type
            message
            frames).1
          ≡ none)
        × ((new_event m'
              (new_event m c scope level event_type message frames).0
              scope'
              level'
              event_type
              message
              frames).0.stats.duplicates
            ≡ suc (new_event m c scope level event_type message frames).0.stats.duplicates)
  new_event_repeat event_type message frames event on same soon built =
      let c' = (new_event m c scope level event_type message frames).0 in
      let (_, dedupe, options) = new_event-event m c scope level event_type message frames in
      let key = key_of m c event_type message frames in
      let key' : key_of m' c' event_type message frames ≡ key = rw (options, same) refl in
      let sent = new_event-none m c scope level event_type message frames event built in
      let (held, _, _) = new_event-event m' c' scope' level' event_type message frames in
      held (rw (key', dedupe) (admit_again c.dedupe key m.now m'.now on sent soon))
