-- ===== src/CheckIn/Tests.antt =====
-- A run of a monitored job that panics.
use bugfree_go_sdk.Base.{Text, [], codes, none, true}
use bugfree_go_sdk.Transport.{answered, new_http_transport}
use bugfree_go_sdk.CheckIn.{CheckIn, Reporter, Surroundings, check_in_sender}

abbrev reporter : Reporter
reporter = record {
  enabled = true;
  environment = codes "production";
  release = [];
  channel = check_in_sender;
  http = new_http_transport;
  sent = [];
}

abbrev around : Text → Surroundings
around id = record {
  date = λ value. none;
  now = 5;
  answer_at = 6;
  id = id;
  reply = answered 202 [];
  encodable = true;
}
