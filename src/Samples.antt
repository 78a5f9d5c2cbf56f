-- ===== src/Samples.antt =====
-- Values that the tests of several modules share: an event, options, a client and a moment.
use bugfree_go_sdk.Base.{Bool, List, Option, Text, [], codes, false, none, pos, some, true, ℕ, ◌∷◌}
use bugfree_go_sdk.Build.{no_info}
use bugfree_go_sdk.Event.{Breadcrumb, Event, blank, level_error}
use bugfree_go_sdk.Options.{Options, Url, one}
use bugfree_go_sdk.Scope.{Scope, Scopes}
use bugfree_go_sdk.Source.{new_source_reader}
use bugfree_go_sdk.Dedupe.{default_window}
use bugfree_go_sdk.Client.{Client, Moment}
use bugfree_go_sdk.Tracing.{Span}
use bugfree_go_sdk.Recover.{Service}

abbrev pub event_of : Text → Event
event_of id = record {
  event_id = id;
  level = level_error;
  type = codes "T";
  message = codes "boom";
  culprit = [];
  platform = codes "go";
  environment = [];
  release = [];
  server_name = [];
  runtime = [];
  os = [];
  request = none;
  user = none;
  trace_id = [];
  stacktrace = [];
  breadcrumbs = [];
  tags = [];
  extra = [];
  memory = [];
  fingerprint = [];
  occurred_at = blank;
}

abbrev pub crumb_of : Text → Breadcrumb
crumb_of text = record {
  category = codes "http";
  message = text;
  details = [];
  level = codes "info";
  at = blank;
}

abbrev pub scope_of : Option ℕ → Bool → List Breadcrumb → Scope
scope_of parent global crumbs = record {
  parent = parent;
  global = global;
  crumbs = crumbs;
  limit = 2;
  tag_map = [];
  person = none;
}

-- A global scope and two requests' scopes below it.
abbrev pub three_scopes : Scopes
three_scopes =
    scope_of none true []
    ∷ scope_of (some 0) false (crumb_of (codes "GET /a") ∷ [])
    ∷ scope_of (some 0) false []
    ∷ []

abbrev pub options : Options
options = record {
  dsn = [];
  environment = codes "production";
  release = [];
  server_name = [];
  sample_rate = one;
  dedupe_window = pos 0;
  source_context_lines = pos 0;
  in_app_prefixes = [];
  profiling_interval = pos 0;
  profile_duration = pos 0;
  traces_sample_rate = one;
  trust_incoming_sampling = false;
  track_sessions = true;
  max_breadcrumbs = pos 0;
  flush_timeout = pos 0;
  shutdown_timeout = pos 0;
  debug = false;
  before_send = none;
}

abbrev pub address : Url
address = record {
  scheme = codes "https";
  user = some (codes "key");
  host = codes "host";
  path = codes "/ingest/";
}

abbrev pub always : Text → Option Url
always text = some address

abbrev pub with_address : Options
with_address = record options { dsn = codes " https://key@host/ingest/ " }

abbrev pub client : Client
client = record {
  options = options;
  enabled = true;
  scope = 0;
  dedupe = record { window = default_window; entries = [] };
  source = new_source_reader [];
  stats = record { sampled = 0; duplicates = 0; before_send = 0; transactions = 0 };
  sent = [];
}

abbrev pub moment : ℕ → Moment
moment now = record {
  now = now;
  draw = 0;
  id = codes "id";
  stack = [];
  shown = λ pc. [];
  scopes = three_scopes;
  build = no_info;
  runtime = codes "go1.22";
  os = codes "linux";
  memory = [];
  fsys = none;
  files = λ path. none;
}

abbrev pub root_span : Span
root_span = record {
  trace_id = codes "t";
  span_id = codes "s";
  parent_span_id = [];
  op = codes "http.server";
  name = codes "GET /";
  description = [];
  status = codes "ok";
  http_status = 0;
  start = 5;
  sampled = true;
  transaction = 0;
  caller_sampled = none;
  finished = false;
  duration = 0;
  attributes = [];
  tags = [];
  children = [];
}

abbrev pub service : Service
service = record {
  client = client;
  sessions = some (record { release = []; environment = []; minutes = [] });
  spans = root_span ∷ [];
}
