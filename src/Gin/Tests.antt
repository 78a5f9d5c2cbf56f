-- ===== src/Gin/Tests.antt =====
-- Requests behind gin's Recovery: one that panics, and one that attaches an error.
use bugfree_go_sdk.Base.{[], codes, false, none, refl, some, true, ◌∷◌, ◌≡◌}
use bugfree_go_sdk.Errors.{Err, leaf, plain}
use bugfree_go_sdk.Samples.{moment, root_span, service}
use bugfree_go_sdk.Recover.{panicked_with}
use bugfree_go_sdk.Gin.{GinContext, GinOptions, aborted_with_500, recovery}
use bugfree_go_sdk.Gin.Requests.{recovery-IsFinishedAt}

abbrev boom : Err
boom = leaf (codes "T") (codes "boom") []

abbrev gin_context : GinContext
gin_context = record {
  method = codes "GET";
  path = codes "/users/7";
  address = codes "/users/7";
  full_address = codes "/users/7?key=1";
  user_agent = [];
  route = codes "/users/:id";
  body_bytes = none;
  request_id_key = [];
  request_id_header = codes "r";
  client_ip = codes "10.0.0.1";
  status = 502;
  errors = (moment 9, boom) ∷ [];
}

abbrev gin_options : GinOptions
gin_options = record {
  repanic = false;
  send_request_body = false;
  send_query_string = false;
  user_resolver = none;
  omit_client_ip = false;
  request_id_resolver = none;
  on_panic = false;
  capture_errors = true;
}

recovery-IsFinishedAt_example :
    (recovery
      (moment 9)
      gin_context
      gin_options
      none
      none
      (some 0)
      (panicked_with (plain (codes "boom")))
      service).1
    ≡ aborted_with_500
recovery-IsFinishedAt_example =
    (recovery-IsFinishedAt (moment 9) gin_context gin_options none none 0
      (panicked_with (plain (codes "boom"))) service refl (root_span, refl)).2
