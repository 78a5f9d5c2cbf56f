-- ===== src/Lifecycle.antt =====
-- client.go, Init, Flush, Scope, Close and the shortcuts on the current client: a client together
-- with the parts that it starts and shuts down. What the parts meet while Close waits for them is
-- an argument.
mod Tests
pub mod Closing
pub mod Starting
use bugfree_go_sdk.Base.{
  Bool, List, Option, Text, [], false, if◌then◌else◌, map, map_option, none, not, some, suc, true,
  ℕ, ℤ, ◌∷◌,
}
use bugfree_go_sdk.Event.{Breadcrumb, User, Value}
use bugfree_go_sdk.Scope.{Scopes, add_breadcrumb, set_tag, set_user}
use bugfree_go_sdk.Client.{Client}
use bugfree_go_sdk.Transport.{Conditions, Transport, cancel, cancels, closes, flush, run}
use bugfree_go_sdk.Transport.Order.{rounds}
use bugfree_go_sdk.Posting.{Exchange}
use bugfree_go_sdk.Sessions.Reports.{Reporting, SessionChannel, closed, signalled}
use bugfree_go_sdk.Profiling.{Profiler, close_profiler}
use bugfree_go_sdk.Tracing.Queue.{Traces, close_traces, delivers, run_traces}

-- c.transport: the SDK's own, or another, by how often its Close was called.
pub data Carried : Type 0 where
  own : Transport → Carried
  foreign : ℕ → Carried

-- A client with the parts that it has started.
pub record Live : Type 0 where
  pub client : Client
  pub transport : Option Carried
  pub sessions : Option Reporting
  pub profiler : Option Profiler
  pub traces : Traces

-- What a call of Close meets: the last report of the sessions, whether the transport is paused at
-- each of the transactions still queued, and the rounds of the worker before the time-out and after
-- it.
pub record Wait : Type 0 where
  pub channel : SessionChannel
  pub report : Exchange
  pub pauses : List Bool
  pub in_time : List (ℕ × Conditions)
  pub too_late : List (ℕ × Conditions)

abbrev pub is_drained : Transport → Bool
is_drained t = elim t.queue [
  | [] ↦ elim t.in_flight [ none ↦ true | some event ↦ false ]
  | event ∷ rest ↦ false
]

-- The select of (*httpTransport).Close and what follows it, on the transport at the end of the
-- wait.
unfoldable pub stop_waiting : (Text → Option ℕ) → Wait → Transport → Transport
unfolding run cancel
stop_waiting date x t =
    if is_drained t then cancel t else run date t (cancels ∷ rounds date x.too_late)

-- (*httpTransport).Close
unfoldable pub shut : (Text → Option ℕ) → Wait → Transport → Transport
unfolding run stop_waiting
shut date x t =
    if t.closed then t else stop_waiting date x (run date t (closes ∷ rounds date x.in_time))

abbrev pub shut_carried : (Text → Option ℕ) → Wait → Carried → Carried
shut_carried date x (own t) = own (shut date x t)
shut_carried date x (foreign n) = foreign (suc n)

-- closeTraces, with what the sender does while it is waited for
unfoldable pub shut_traces : List Bool → Traces → Traces
unfolding close_traces run_traces
shut_traces pauses t =
    let closed_now = close_traces t in
    if closed_now.1 then run_traces closed_now.0 (map delivers pauses) else closed_now.0

-- (*Client).Close
unfoldable pub close_client : (Text → Option ℕ) → Wait → Live → Live
unfolding signalled close_profiler shut_traces shut
close_client date x l = record l {
  profiler = map_option close_profiler l.profiler;
  sessions = map_option (λ r. signalled x.channel r (closed x.report)) l.sessions;
  traces = shut_traces x.pauses l.traces;
  transport = map_option (shut_carried date x) l.transport;
}

-- Close, on Current(); a nil client has nothing to close.
unfoldable pub close_current : (Text → Option ℕ) → Wait → Option Live → Option Live
unfolding close_client
close_current date x current = map_option (close_client date x) current

-- Init, on what NewClient came to: the current client afterwards, and the one before, closed.
unfoldable pub init :
    (Text → Option ℕ) → Wait → Option Live → Option Live → Option Live × Option Live
unfolding close_client
init date x none current = (current, none)
init date x (some live) previous = (some live, map_option (close_client date x) previous)

-- (*Client).Scope
unfoldable pub scope_of_client : Option Client → Option ℕ
scope_of_client none = none
scope_of_client (some c) = some c.scope

-- (*Client).Flush, on what the loop of the transport's Flush reads
unfoldable pub flush_client : Option Client → List ℤ → Bool
unfolding flush
flush_client none readings = true
flush_client (some c) readings = if not c.enabled then true else flush readings

-- AddBreadcrumb, SetTag and SetUser, on Current()
unfoldable pub add_breadcrumb_current : Option Client → ℕ → Breadcrumb → Scopes → Scopes
unfolding add_breadcrumb
add_breadcrumb_current none now crumb scopes = scopes
add_breadcrumb_current (some c) now crumb scopes = add_breadcrumb scopes (some c.scope) now crumb

unfoldable pub set_tag_current : Option Client → Text → Value → Scopes → Scopes
unfolding set_tag
set_tag_current none key value scopes = scopes
set_tag_current (some c) key value scopes = set_tag scopes (some c.scope) key value

unfoldable pub set_user_current : Option Client → User → Scopes → Scopes
unfolding set_user
set_user_current none user scopes = scopes
set_user_current (some c) user scopes = set_user scopes (some c.scope) user
