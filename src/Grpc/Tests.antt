-- ===== src/Grpc/Tests.antt =====
-- A call of which the handler answers with the code Internal.
use bugfree_go_sdk.Base.{Option, [], codes, false, none, refl, some, true, ℕ, ◌∷◌, ◌≡◌}
use bugfree_go_sdk.Errors.{Err, leaf}
use bugfree_go_sdk.Client.Accounting.{answered_for}
use bugfree_go_sdk.Samples.{client, moment, root_span, service}
use bugfree_go_sdk.Grpc.{
  Call, GrpcOptions, Library, capture_error, ended, intercept, passed, session_of_call,
}
use bugfree_go_sdk.Grpc.Calls.{intercept-IsFinishedAt}
use bugfree_go_sdk.Grpc.Faults.{captured_errored}

abbrev boom : Err
boom = leaf (codes "T") (codes "boom") []

abbrev code_of_boom : Option Err → ℕ
code_of_boom none = 0
code_of_boom (some err) = 13

abbrev library : Library
library = record {
  code_of = code_of_boom;
  code_text = λ code. codes "Internal";
  is_end = λ err. false;
}

abbrev call : Call
call = record {
  method = codes "/shop.Cart/Add";
  metadata = some ((codes "x-request-id", codes "r" ∷ []) ∷ []);
  over = λ reading. false;
}

abbrev grpc_options : GrpcOptions
grpc_options = record {
  repanic = false;
  capture_errors = true;
  error_codes = [];
  user_resolver = none;
}

intercept-IsFinishedAt_example :
    (intercept library
      (moment 9)
      call
      grpc_options
      none
      none
      (some 0)
      (ended (some boom))
      service).1
    ≡ passed (some boom)
intercept-IsFinishedAt_example =
    (intercept-IsFinishedAt library (moment 9) call grpc_options none none 0 (ended (some boom))
      service refl (root_span, refl)).2

captured_errored_example :
    answered_for (capture_error library (moment 9) call grpc_options none none (some boom) client)
    ≡ 1
unfolding session_of_call
captured_errored_example =
    captured_errored library (moment 9) call grpc_options none none (some boom) client refl refl
      refl refl
