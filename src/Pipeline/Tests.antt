-- ===== src/Pipeline/Tests.antt =====
-- Two captures and a round of the worker.
use bugfree_go_sdk.Base.{
  List, Option, Text, [], codes, false, is_empty, none, refl, some, true, ℕ, ◌∷◌, ◌≡◌,
}
use bugfree_go_sdk.Samples.{client, moment}
use bugfree_go_sdk.Client.Capture.{plain_message}
use bugfree_go_sdk.Transport.{Conditions, answered, new_http_transport}
use bugfree_go_sdk.Pipeline.{Move, captures, carries, moves, stats_of}
use bugfree_go_sdk.Pipeline.Http.{
  HttpWork, answered_by, counts_one, finishes_one, http_carrier, moves-answered_by, takes_one,
}

abbrev no_date : Text → Option ℕ
no_date value = none

abbrev served : Conditions
served = record {
  clock = λ attempt. 10;
  reply = λ attempt. answered 200 [];
  encodable = true;
  aborted = false;
}

abbrev day : List (Move HttpWork)
day =
    captures (moment 5) (some 0) (plain_message (codes "info") (codes "up")) []
    ∷ carries counts_one
    ∷ carries takes_one
    ∷ carries (finishes_one 9 served)
    ∷ captures (moment 9) (some 0) (plain_message (codes "info") []) []
    ∷ []

moves-answered_by_example :
    answered_by (moves (http_carrier no_date) (client, (new_http_transport, 0, 0)) day) ≡ 1
unfolding stats_of is_empty
moves-answered_by_example = moves-answered_by no_date day client new_http_transport 0 0 refl refl
