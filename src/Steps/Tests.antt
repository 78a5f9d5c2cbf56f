-- ===== src/Steps/Tests.antt =====
-- A request inside a transaction.
use bugfree_go_sdk.Base.{
  [], arith, codes, false, get_elem?, has_prefix, none, refl, some, true, ◌∷◌, ◌≡◌,
}
use bugfree_go_sdk.Samples.{three_scopes}
use bugfree_go_sdk.Scope.{Context}
use bugfree_go_sdk.Tracing.{Span}
use bugfree_go_sdk.Steps.{Trail, came_back, round_trip}
use bugfree_go_sdk.Steps.Finished.{round_trip_joins}

abbrev open_root : Span
open_root = record {
  trace_id = codes "t";
  span_id = codes "s";
  parent_span_id = [];
  op = codes "http.server";
  name = codes "GET /";
  description = [];
  status = codes "ok";
  http_status = 0;
  start = 5;
  sampled = true;
  transaction = 0;
  caller_sampled = none;
  finished = false;
  duration = 0;
  attributes = [];
  tags = [];
  children = [];
}

abbrev traced : Context
traced = record { scope = some 1; span = some 0 }

abbrev trail : Trail
trail = record { scopes = three_scopes; spans = open_root ∷ [] }

round_trip_joins_example :
    get_elem?
      (round_trip
        (codes "app/1")
        (codes "GET http://b/")
        (some traced)
        (some 0)
        (codes "c")
        6
        9
        (came_back 503 (codes "3ms"))
        trail).1.spans
      0
    ≡ some (record open_root { children = 1 ∷ [] })
unfolding has_prefix
round_trip_joins_example =
    round_trip_joins (codes "app/1") (codes "GET http://b/") (codes "c") (some traced) (some 0) 6 9
      (came_back 503 (codes "3ms")) trail open_root open_root refl refl refl refl (omega arith)
