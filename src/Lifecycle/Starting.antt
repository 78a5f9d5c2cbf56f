-- ===== src/Lifecycle/Starting.antt =====
-- client.go, NewClient: the parts that a client starts, and what Close makes of them.
use bugfree_go_sdk.Base.{
  Bool, Bool-cases, List, Option, Text, [], arith, false, if◌then◌else◌, inl, inr, is_empty,
  is_some, leb_ℤ, ltb_ℤ, none, pos, refl, some, true, ℕ, ◌++◌, ◌∷◌, ◌≡◌,
}
use bugfree_go_sdk.Profiling.{Profiler, new_profiler}
use bugfree_go_sdk.Client.{Client}
use bugfree_go_sdk.Options.{
  Dsn, DsnError, Options, Parsed, Url, is_space, normalize, parse_dsn, parsed, refused, trim,
}
use bugfree_go_sdk.Tracing.Queue.{Traces}
use bugfree_go_sdk.Client.Start.{
  Created, base_client, created, new_client, not_created, settled_options, settled_options-IsNormal,
  with_dsn,
}
use bugfree_go_sdk.Lifecycle.{Carried, Live, Wait, close_client, foreign, own}
use bugfree_go_sdk.Lifecycle.Closing.{Holds, IsClosed, close_client-IsClosed}
use bugfree_go_sdk.Scope.{Scopes, new_global_scope}
use bugfree_go_sdk.Sessions.Reports.{Reporting, new_reporting}
use bugfree_go_sdk.Build.{BuildInfo}
use bugfree_go_sdk.Transport.{new_http_transport}
use bugfree_go_sdk.Options.Parsing.{Accepts, parse_dsn-Accepts}
use bugfree_go_sdk.Options.Defaults.{IsNormal}
use bugfree_go_sdk.Profiling.Rounds.{new_profiler-IsBounded}

-- What NewClient returns: an error, or a client with its parts, the store that holds its scope and
-- its DSN.
pub data Started : Type 0 where
  not_started : DsnError → Started
  started : Live → Scopes → Option Dsn → Started

-- No transaction has been sent; the sender starts with the first.
abbrev pub no_traces : Traces
no_traces = record { queue = none; closed = false; dropped = 0; posted = []; skipped = [] }

-- options.Transport, if there is one, or newHTTPTransport
abbrev pub transport_for : Bool → Carried
transport_for replaced = if replaced then foreign 0 else own new_http_transport

-- if options.TrackSessions
abbrev pub sessions_for : Options → Option Reporting
sessions_for o = if o.track_sessions then some (new_reporting o.release o.environment) else none

-- if options.ProfilingInterval > 0
unfoldable pub profiler_for : Options → Option Profiler
unfolding new_profiler
profiler_for o =
    if ltb_ℤ (pos 0) o.profiling_interval
    then some (new_profiler o.profiling_interval o.profile_duration)
    else none

-- The parts of a client, by whether it has a DSN.
unfoldable pub with_parts : Bool → Created → Started
unfolding profiler_for
with_parts replaced (not_created e) = not_started e
with_parts replaced (created c scopes none) =
    started
      (record {
        client = c;
        transport = none;
        sessions = none;
        profiler = none;
        traces = no_traces;
      })
      scopes none
with_parts replaced (created c scopes (some d)) =
    started
      (record {
        client = c;
        transport = some (transport_for replaced);
        sessions = sessions_for c.options;
        profiler = profiler_for c.options;
        traces = no_traces;
      })
      scopes (some d)

-- NewClient with the parts; `replaced` says that the options have a transport.
unfoldable pub start_client :
    (Text → Option Url)
    → BuildInfo
    → Option Text
    → List (Text × Text)
    → Scopes
    → Bool
    → Options
    → Started
unfolding new_client with_parts
start_client parse build host roots scopes replaced o =
    with_parts replaced (new_client parse build host roots scopes o)

-- A client closes whatever Close meets.
abbrev pub Closes : (Text → Option ℕ) → Live → Type 0
Closes date l = (x : Wait) → IsClosed (close_client date x l)

-- A profiler runs for longer than nothing and at most as long as the pause between two.
abbrev pub IsPaced : Profiler → Type 0
IsPaced p = (ltb_ℤ (pos 0) p.duration ≡ true) × (leb_ℤ p.duration p.interval ≡ true)

-- What NewClient promises of what it returns, for a DSN.
abbrev pub IsStarted : (Text → Option ℕ) → (Text → Option Url) → Options → Started → Type 0
IsStarted date parse o (not_started e) =
    (is_empty (trim is_space o.dsn) ≡ false) × (parse_dsn parse o.dsn ≡ refused e)
IsStarted date parse o (started l scopes none) =
    (is_empty (trim is_space o.dsn) ≡ true)
    × (l.client.enabled ≡ false)
    × (l.transport ≡ none)
    × (l.sessions ≡ none)
    × (l.profiler ≡ none)
    × Closes date l
IsStarted date parse o (started l scopes (some d)) =
    Accepts parse o.dsn d
    × IsNormal l.client.options
    × (l.client.enabled ≡ true)
    × (is_some l.transport ≡ true)
    × (is_some l.sessions ≡ o.track_sessions)
    × (is_some l.profiler ≡ ltb_ℤ (pos 0) o.profiling_interval)
    × Holds IsPaced l.profiler
    × Closes date l

sessions_for-some : (o : Options) → is_some (sessions_for o) ≡ o.track_sessions
sessions_for-some o = ground arith

profiler_for-some : (o : Options) → is_some (profiler_for o) ≡ ltb_ℤ (pos 0) o.profiling_interval
unfolding profiler_for
profiler_for-some o = ground arith

profiler_for-IsPaced : (o : Options) → Holds IsPaced (profiler_for o)
unfolding profiler_for
profiler_for-IsPaced o = elim (Bool-cases (ltb_ℤ (pos 0) o.profiling_interval)) [
  | inl runs ↦
      let (longer, shorter, exact) =
        new_profiler-IsBounded o.profiling_interval o.profile_duration runs in
      rw runs (longer, unfold new_profiler in shorter)
  | inr off ↦ rw off tt
]

-- A transport that is new closes without a round of its worker.
transport_for-Closes :
    (date : Text → Option ℕ) (replaced : Bool) (c : Client) (r : Option Reporting)
    (p : Option Profiler)
    → Closes date (record {
      client = c;
      transport = some (transport_for replaced);
      sessions = r;
      profiler = p;
      traces = no_traces;
    })
transport_for-Closes date true c r p x = close_client-IsClosed date x _ tt tt
transport_for-Closes date false c r p x = close_client-IsClosed date x _ (refl, refl) (omega arith)

-- NewClient returns parseDSN's error for a DSN that is not blank and that parseDSN refuses. For a
-- blank DSN it returns a client that is not enabled and has no transport, sessions or profiler. And
-- else the DSN is one that parseDSN accepts, http or https with a key and a host, with the store's
-- address; the client is enabled, its options are normal, it has a transport, it counts sessions
-- exactly if TrackSessions says so, and it has a profiler exactly for a ProfilingInterval above
-- zero, whose CPU profiles run for longer than nothing and at most for the interval. In both of
-- these cases, Close of the client leaves it closed, whatever it meets.
pub start_client-IsStarted :
    (date : Text → Option ℕ) (parse : Text → Option Url) (build : BuildInfo) (host : Option Text)
    (roots : List (Text × Text)) (scopes : Scopes) (replaced : Bool) (o : Options)
    → IsStarted date parse o (start_client parse build host roots scopes replaced o)
unfolding start_client new_client with_dsn with_parts
start_client-IsStarted date parse build host roots scopes replaced o =
    go (is_empty (trim is_space o.dsn)) (parse_dsn parse o.dsn) refl refl
  where
    base : Client
    base = base_client build host roots scopes o

    store : Scopes
    store = scopes ++ new_global_scope (normalize o).max_breadcrumbs ∷ []

    go :
        (blank : Bool) (p : Parsed)
        → is_empty (trim is_space o.dsn) ≡ blank
        → parse_dsn parse o.dsn ≡ p
        → IsStarted date parse o (with_parts replaced (with_dsn base store blank p))
    go true p is_blank q = (
      is_blank,
      unfold base_client in refl,
      refl,
      refl,
      refl,
      λ x. close_client-IsClosed date x _ tt tt,
    )
    go false (refused e) is_blank q = (is_blank, q)
    go false (parsed d) is_blank q = (
      parse_dsn-Accepts parse o.dsn d q,
      unfold base_client in settled_options-IsNormal build host o,
      refl,
      refl,
      unfold base_client settled_options normalize in sessions_for-some base.options,
      unfold base_client settled_options normalize in profiler_for-some base.options,
      profiler_for-IsPaced base.options,
      transport_for-Closes date replaced _ _ _,
    )
