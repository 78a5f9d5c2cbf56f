-- ===== src/Lifecycle/Tests.antt =====
-- A client with an event in the queue, closed, and what NewClient makes of an address.
use bugfree_go_sdk.Base.{
  Bool, Option, Text, [], arith, codes, false, is_empty, is_some, map_option, none, pos, refl, some,
  text_eq, true, ℕ, ℤ, ◌∷◌, ◌≡◌,
}
use bugfree_go_sdk.Samples.{always, client, event_of, with_address}
use bugfree_go_sdk.Transport.{Conditions, Transport, answered, new_http_transport}
use bugfree_go_sdk.Posting.{lost}
use bugfree_go_sdk.Sessions.Reports.{new_reporting, over_http}
use bugfree_go_sdk.Profiling.{Profiler, new_profiler}
use bugfree_go_sdk.Lifecycle.{Live, Wait, close_client, own}
use bugfree_go_sdk.Lifecycle.Closing.{IsClosed, close_client-IsClosed}
use bugfree_go_sdk.Options.{Options, is_space, parse_dsn, trim, trim_left, trim_right}
use bugfree_go_sdk.Lifecycle.Starting.{
  IsStarted, Started, not_started, start_client, start_client-IsStarted, started,
}
use bugfree_go_sdk.Build.{no_info}

abbrev no_date : Text → Option ℕ
no_date value = none

abbrev served : Conditions
served = record {
  clock = λ attempt. 10;
  reply = λ attempt. answered 200 [];
  encodable = true;
  aborted = false;
}

abbrev waiting : Transport
waiting = record new_http_transport { queue = event_of (codes "1") ∷ []; pending = pos 1 }

abbrev live : Live
unfolding new_profiler
live = record {
  client = client;
  transport = some (own waiting);
  sessions = some (new_reporting [] []);
  profiler = some (new_profiler (pos 5) (pos 1));
  traces = record { queue = none; closed = false; dropped = 0; posted = []; skipped = [] };
}

abbrev closing : Wait
closing = record {
  channel = over_http;
  report = record { encodable = true; addressable = true; answer = lost };
  pauses = [];
  in_time = [];
  too_late = (5, served) ∷ [];
}

close_client-IsClosed_example : IsClosed (close_client no_date closing live)
unfolding live
close_client-IsClosed_example =
    close_client-IsClosed no_date closing live (refl, refl) (omega arith)

abbrev profiled : Options
profiled = record with_address { profiling_interval = pos 60; profile_duration = pos 90 }

start_client-IsStarted_example :
    IsStarted no_date always profiled (start_client always no_info none [] [] false profiled)
start_client-IsStarted_example =
    start_client-IsStarted no_date always no_info none [] [] false profiled

-- The sessions and the profiler of a client that was started, by their durations and minutes.
abbrev parts_of : Started → Option (Option ℤ × Bool)
parts_of (not_started e) = none
parts_of (started l scopes d) =
    some (map_option (λ (p : Profiler). p.duration) l.profiler, is_some l.sessions)

started_parts :
    parts_of (start_client always no_info none [] [] false profiled) ≡ some (some (pos 60), true)
unfolding start_client parse_dsn trim trim_left trim_right is_space text_eq
    bugfree_go_sdk.Base.is_empty
started_parts = refl
