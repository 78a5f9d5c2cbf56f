-- ===== src/Feedback/Tests.antt =====
-- Feedback that the server refuses, and feedback without a message.
use bugfree_go_sdk.Base.{[], codes, is_empty, refl, true, ◌≡◌}
use bugfree_go_sdk.Samples.{client}
use bugfree_go_sdk.Posting.{Exchange, arrived, err, refused}
use bugfree_go_sdk.Feedback.{Feedback, Told, capture_feedback, capture_feedback-Told}

abbrev written : Feedback
written = record {
  event_id = codes "id";
  name = [];
  email = [];
  message = codes "it broke";
  url = [];
  environment = [];
  release = [];
}

abbrev refusal : Exchange
refusal = record { encodable = true; addressable = true; answer = arrived 413 (codes "too large") }

capture_feedback-Told_example :
    Told client refusal written [] (capture_feedback client refusal written [])
capture_feedback-Told_example = capture_feedback-Told client refusal written []

refused_feedback :
    (capture_feedback client refusal written []).0 ≡ err (refused 413 (codes "too large"))
unfolding capture_feedback is_empty
refused_feedback = refl
