-- ===== src/Sessions.antt =====
-- sessions.go: request sessions counted by minute. A minute is named by its start, in nanoseconds
-- since year 1 (UTC); the order in which take lists the minutes is that of their first session,
-- where the Go map has none. The delivery of the counts over HTTP is not modelled.
mod Tests
pub mod Totals
pub mod Status
pub mod Reports
pub mod Unordered
use bugfree_go_sdk.Base.{List, Text, [], if◌then◌else◌, leb, map, suc, ℕ, ◌%◌, ◌-◌, ◌==◌, ◌∷◌}

-- type SessionStatus string: its three constants, and any other string
pub data SessionStatus : Type 0 where
  session_ok session_errored session_crashed : SessionStatus
  session_other : Text → SessionStatus

-- type SessionCounts struct
pub record SessionCounts : Type 0 where
  pub release : Text
  pub environment : Text
  pub started : ℕ
  pub total : ℕ
  pub errored : ℕ
  pub crashed : ℕ

-- type sessionAggregator struct, with the two options it reads.
pub record Aggregator : Type 0 where
  pub release : Text
  pub environment : Text
  pub minutes : List (ℕ × SessionCounts)

abbrev pub minute_length : ℕ
minute_length = 60000000000

-- at.UTC().Truncate(time.Minute)
abbrev pub minute_of : ℕ → ℕ
minute_of at = at - at % minute_length

-- counts.Total++ and the switch after it
unfoldable pub bump : SessionStatus → SessionCounts → SessionCounts
bump session_ok c = record c { total = suc c.total }
bump (session_other status) c = record c { total = suc c.total }
bump session_errored c = record c { total = suc c.total; errored = suc c.errored }
bump session_crashed c = record c {
  total = suc c.total;
  errored = suc c.errored;
  crashed = suc c.crashed;
}

-- The entry of the minute, made where there is none, bumped.
unfoldable pub bump_minute :
    Text → Text → ℕ → SessionStatus → List (ℕ × SessionCounts) → List (ℕ × SessionCounts)
unfolding bump
bump_minute release environment minute status [] =
    (
      minute,
      bump status (record {
        release = release;
        environment = environment;
        started = minute;
        total = 0;
        errored = 0;
        crashed = 0;
      }),
    )
    ∷ []
bump_minute release environment minute status ((m, c) ∷ rest) =
    if m == minute
    then (m, bump status c) ∷ rest
    else (m, c) ∷ bump_minute release environment minute status rest

-- (*sessionAggregator).record
unfoldable pub record_session : Aggregator → SessionStatus → ℕ → Aggregator
unfolding bump_minute
record_session a status at = record a {
  minutes = bump_minute a.release a.environment (minute_of at) status a.minutes;
}

-- take
unfoldable pub take_counts : Aggregator → Aggregator × List SessionCounts
take_counts a = (record a { minutes = [] }, map (λ entry. entry.1) a.minutes)

-- sessionForStatus
unfoldable pub session_for_status : ℕ → SessionStatus
session_for_status status = if leb 500 status then session_errored else session_ok

-- type statusWriter struct: 0 while no header is written.
pub record StatusWriter : Type 0 where
  pub status : ℕ

-- WriteHeader, and Write with its implied 200.
unfoldable pub write_header : ℕ → StatusWriter → StatusWriter
write_header status w = if w.status == 0 then record w { status = status } else w

unfoldable pub write_body : StatusWriter → StatusWriter
write_body w = if w.status == 0 then record w { status = 200 } else w
