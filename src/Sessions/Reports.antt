-- ===== src/Sessions/Reports.antt =====
-- sessions.go, run, flush and close: the counts on their way to the server. A ticker's tick, a
-- session and a close are steps in some order.
use bugfree_go_sdk.Base.{
  All, Bool, Bool-cases, List, Text, [], arith, false, if◌then◌else◌, inl, inr, map, true, ℕ, ◌&&◌,
  ◌++◌, ◌+◌, ◌∷◌, ◌≡◌,
}
use bugfree_go_sdk.Posting.{Exchange, post, post-Posts}
use bugfree_go_sdk.Sessions.{
  Aggregator, SessionCounts, SessionStatus, minute_of, record_session, take_counts,
}
use bugfree_go_sdk.Sessions.Totals.{adds, bump_minute-sum, field_of, held_sum, sum_of, sum_of-map}

-- Whether the client's transport takes sessions itself.
pub data SessionChannel : Type 0 where
  session_sender over_http : SessionChannel

-- The aggregator with its background loop; `reports` is what was handed to the sender or requested.
pub record Reporting : Type 0 where
  pub aggregator : Aggregator
  pub running : Bool
  pub reports : List (List SessionCounts)

-- newSessionAggregator
abbrev pub new_reporting : Text → Text → Reporting
new_reporting release environment = record {
  aggregator = record { release = release; environment = environment; minutes = [] };
  running = true;
  reports = [];
}

-- The tail of flush, on the counts taken; the error of postSessions is only logged.
unfoldable pub report_counts :
    SessionChannel
    → Exchange
    → List SessionCounts
    → List (List SessionCounts)
    → List (List SessionCounts)
unfolding post
report_counts channel x [] reports = reports
report_counts session_sender x (c ∷ counts) reports = reports ++ (c ∷ counts) ∷ []
report_counts over_http x (c ∷ counts) reports = (post x (c ∷ counts) reports).1

-- flush
unfoldable pub flush_sessions : SessionChannel → Exchange → Reporting → Reporting
unfolding take_counts report_counts
flush_sessions channel x r = record r {
  aggregator = (take_counts r.aggregator).0;
  reports = report_counts channel x (take_counts r.aggregator).1 r.reports;
}

-- A session recorded, a tick of the ticker, and a call of close, each with what a request comes to.
pub data Signal : Type 0 where
  counted : SessionStatus → ℕ → Signal
  ticked closed : Exchange → Signal

-- record, run and close; the loop is over after close, which record does not look at.
unfoldable pub signalled : SessionChannel → Reporting → Signal → Reporting
unfolding record_session flush_sessions
signalled channel r (counted status at) = record r {
  aggregator = record_session r.aggregator status at;
}
signalled channel r (ticked x) = if r.running then flush_sessions channel x r else r
signalled channel r (closed x) =
    if r.running then record (flush_sessions channel x r) { running = false } else r

unfoldable pub signals : SessionChannel → Reporting → List Signal → Reporting
unfolding signalled
signals channel r [] = r
signals channel r (s ∷ rest) = signals channel (signalled channel r s) rest

-- A report can be encoded and requested.
abbrev pub IsPostable : Signal → Type 0
IsPostable (counted status at) = Unit
IsPostable (ticked x) = x.encodable && x.addressable ≡ true
IsPostable (closed x) = x.encodable && x.addressable ≡ true

abbrev pub reported_sum : (SessionCounts → ℕ) → List (List SessionCounts) → ℕ
reported_sum f [] = 0
reported_sum f (counts ∷ rest) = sum_of f counts + reported_sum f rest

abbrev pub signal_adds : SessionStatus → List Signal → ℕ
signal_adds which [] = 0
signal_adds which (counted status at ∷ rest) = adds which status + signal_adds which rest
signal_adds which (ticked x ∷ rest) = signal_adds which rest
signal_adds which (closed x ∷ rest) = signal_adds which rest

-- The sessions of the reports and of the minutes still held.
abbrev pub known : SessionStatus → Reporting → ℕ
known which r =
    reported_sum (field_of which) r.reports + held_sum (field_of which) r.aggregator.minutes

reported_sum-append :
    (f : SessionCounts → ℕ) (xs : List (List SessionCounts)) (ys : List SessionCounts)
    → reported_sum f (xs ++ ys ∷ []) ≡ reported_sum f xs + sum_of f ys
reported_sum-append f [] ys = omega arith
reported_sum-append f (x ∷ xs) ys = omega (arith, reported_sum-append f xs ys)

report_counts-sum :
    (f : SessionCounts → ℕ) (channel : SessionChannel) (x : Exchange) (counts : List SessionCounts)
    (reports : List (List SessionCounts))
    → x.encodable && x.addressable ≡ true
    → reported_sum f (report_counts channel x counts reports)
      ≡ reported_sum f reports + sum_of f counts
unfolding report_counts
report_counts-sum f channel x [] reports can = omega arith
report_counts-sum f session_sender x (c ∷ counts) reports can =
    reported_sum-append f reports (c ∷ counts)
report_counts-sum f over_http x (c ∷ counts) reports can =
    elim (post-Posts x (c ∷ counts) reports) [
      | inl (cannot, same, r) ↦ absurd (never can cannot)
      | inr (posted, more, r) ↦ rw more (reported_sum-append f reports (c ∷ counts))
    ]
  where
    never : {b : Bool} → b ≡ true → b ≡ false → ⊥
    never h k = cc

flush_sessions-known :
    (which : SessionStatus) (channel : SessionChannel) (x : Exchange) (r : Reporting)
    → x.encodable && x.addressable ≡ true
    → known which (flush_sessions channel x r) ≡ known which r
unfolding flush_sessions take_counts
flush_sessions-known which channel x r can =
    let counts = map (λ (entry : ℕ × SessionCounts). entry.1) r.aggregator.minutes in
    omega (
      arith,
      report_counts-sum (field_of which) channel x counts r.reports can,
      sum_of-map (field_of which) r.aggregator.minutes,
    )

signalled-known :
    (which : SessionStatus) (channel : SessionChannel) (r : Reporting) (s : Signal)
    → IsPostable s
    → known which (signalled channel r s) ≡ known which r + signal_adds which (s ∷ [])
unfolding signalled record_session
signalled-known which channel r (counted status at) can = omega (
  arith,
  bump_minute-sum which r.aggregator.release r.aggregator.environment (minute_of at) status
      r.aggregator.minutes,
)
signalled-known which channel r (ticked x) can = elim (Bool-cases r.running) [
  | inl on ↦ rw on (omega (arith, flush_sessions-known which channel x r can))
  | inr off ↦ rw off (omega arith)
]
signalled-known which channel r (closed x) can = elim (Bool-cases r.running) [
  | inl on ↦ rw on (omega (arith, flush_sessions-known which channel x r can))
  | inr off ↦ rw off (omega arith)
]

signal_adds-cons :
    (which : SessionStatus) (s : Signal) (rest : List Signal)
    → signal_adds which (s ∷ rest) ≡ signal_adds which (s ∷ []) + signal_adds which rest
signal_adds-cons which (counted status at) rest = omega arith
signal_adds-cons which (ticked x) rest = omega arith
signal_adds-cons which (closed x) rest = omega arith

-- Whatever sessions, ticks and closes come in whatever order, where every report can be encoded and
-- requested: the sessions in the reports and in the minutes still held are those known before and
-- those recorded since, and so are the errored and the crashed ones. A report that the server
-- refuses counts among the reports: its sessions are not counted again.
pub signals_known :
    (which : SessionStatus) (channel : SessionChannel) (r : Reporting) (all : List Signal)
    → All IsPostable all
    → known which (signals channel r all) ≡ known which r + signal_adds which all
unfolding signals
signals_known which channel r [] can = omega arith
signals_known which channel r (s ∷ rest) (here, can) = omega (
  arith,
  signalled-known which channel r s here,
  signals_known which channel (signalled channel r s) rest can,
  signal_adds-cons which s rest,
)
