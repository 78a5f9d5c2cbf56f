-- ===== src/Feedback.antt =====
-- feedback.go: what a user wrote about a problem, sent while the caller waits.
mod Tests
use bugfree_go_sdk.Base.{
  Bool-cases, List, Option, Text, [], false, if◌then◌else◌, inl, inr, is_empty, none, not, refl,
  some, true, ◌∷◌, ◌≡◌, ◌≢◌, ◌⊎◌,
}
use bugfree_go_sdk.Client.{Client}
use bugfree_go_sdk.Posting.{
  Action, Exchange, Posts, Result, empty_message, err, ok, post, post-Posts, pure, raise_if, ◌>>=◌,
  ◌>>◌,
}

-- type Feedback struct
pub record Feedback : Type 0 where
  pub event_id : Text
  pub name : Text
  pub email : Text
  pub message : Text
  pub url : Text
  pub environment : Text
  pub release : Text

-- The environment and the release that CaptureFeedback fills in.
unfoldable pub complete : Client → Feedback → Feedback
complete c f = record f {
  environment = if is_empty f.environment then c.options.environment else f.environment;
  release = if is_empty f.release then c.options.release else f.release;
}

-- (*Client).CaptureFeedback
unfoldable pub capture_feedback : Client → Exchange → Feedback → Action Feedback (Unit {0})
unfolding complete post
capture_feedback c x f =
    if not c.enabled
    then pure tt
    else do raise_if (is_empty f.message) empty_message; post x (complete c f)

-- CaptureFeedback, on Current()
unfoldable pub capture_feedback_current :
    Option Client → Exchange → Feedback → Action Feedback (Unit {0})
unfolding capture_feedback
capture_feedback_current none x f = pure tt
capture_feedback_current (some c) x f = capture_feedback c x f

-- A value that stands where it is not empty, or the client's.
abbrev pub IsOr : Text → Text → Text → Type 0
IsOr given own sent = ((given ≡ []) × (sent ≡ own)) ⊎ ((given ≢ []) × (sent ≡ given))

-- What is sent for a feedback: all of it, with the client's environment and release where it has
-- none.
abbrev pub IsCompleted : Client → Feedback → Feedback → Type 0
IsCompleted c f sent =
    (sent.event_id ≡ f.event_id)
    × (sent.name ≡ f.name)
    × (sent.email ≡ f.email)
    × (sent.message ≡ f.message)
    × (sent.url ≡ f.url)
    × IsOr f.environment c.options.environment sent.environment
    × IsOr f.release c.options.release sent.release

complete-IsCompleted : (c : Client) (f : Feedback) → IsCompleted c f (complete c f)
unfolding complete is_empty
complete-IsCompleted c f = (
  refl,
  refl,
  refl,
  refl,
  refl,
  either f.environment c.options.environment,
  either f.release c.options.release,
)
  where
    either : (given own : Text) → IsOr given own (if is_empty given then own else given)
    either [] own = inl (refl, refl)
    either (b ∷ s) own = inr (λ e. cc e, refl)

-- What a call returns and requests, on each of its ways: nothing of a client that is not enabled;
-- an error and no request for an empty message; else the post of the completed feedback.
abbrev pub Told :
    Client → Exchange → Feedback → List Feedback → Result (Unit {0}) × List Feedback → Type 0
Told c x f bodies (r, bodies') =
    ((c.enabled ≡ false) × (bodies' ≡ bodies) × (r ≡ ok tt))
    ⊎ ((c.enabled ≡ true) × (f.message ≡ []) × (bodies' ≡ bodies) × (r ≡ err empty_message))
    ⊎ ((c.enabled ≡ true)
        × (f.message ≢ [])
        × ((sent : Feedback) × (IsCompleted c f sent × Posts x sent bodies (r, bodies'))))

-- A call of CaptureFeedback ends in one of these ways and no other: of a client that is not enabled
-- it returns nil and requests nothing; for an empty message it returns that error and requests
-- nothing; when the feedback cannot be encoded or the request not be made it returns that error and
-- requests nothing; and else it makes one request, with all of the feedback and the client's
-- environment and release exactly where it has none, and returns nil if the answer's status is below
-- 300 and else an error, with the status and at most 8 KiB of the answer where there is one.
pub capture_feedback-Told :
    (c : Client) (x : Exchange) (f : Feedback) (bodies : List Feedback)
    → Told c x f bodies (capture_feedback c x f bodies)
unfolding capture_feedback is_empty
capture_feedback-Told c x f bodies = elim (Bool-cases c.enabled) [
  | inl on ↦ elim (Bool-cases (is_empty f.message)) [
    | inl e ↦ inr (inl (on, emptied f.message e, rw (on, e) refl, rw (on, e) refl))
    | inr e ↦ inr (
        inr (
          on,
          filled f.message e,
          (
            complete c f,
            (complete-IsCompleted c f, rw (on, e) (post-Posts x (complete c f) bodies)),
          ),
        ))
  ]
  | inr off ↦ inl (off, rw off refl, rw off refl)
]
  where
    emptied : (s : Text) → is_empty s ≡ true → s ≡ []
    emptied [] h = refl
    emptied (b ∷ s) h = cc h

    filled : (s : Text) → is_empty s ≡ false → s ≢ []
    filled [] h = cc h
    filled (b ∷ s) h = λ e. cc e
