-- ===== src/Sessions/Totals.antt =====
-- sessions.go: no session is lost or counted twice on its way into a report.
use bugfree_go_sdk.Base.{
  All, All-append, Bool-cases, List, Text, [], ap, arith, inl, inr, map, refl, ℕ, ◌++◌, ◌+◌, ◌==◌,
  ◌∷◌, ◌≡◌, ◌≤◌,
}
use bugfree_go_sdk.Sessions.{
  Aggregator, SessionCounts, SessionStatus, bump, bump_minute, minute_of, record_session,
  session_crashed, session_errored, session_ok, session_other, take_counts,
}

-- The sessions of some reports, those of them that errored and those that crashed.
abbrev pub sum_of : (SessionCounts → ℕ) → List SessionCounts → ℕ
sum_of f [] = 0
sum_of f (c ∷ rest) = f c + sum_of f rest

abbrev pub held_sum : (SessionCounts → ℕ) → List (ℕ × SessionCounts) → ℕ
held_sum f [] = 0
held_sum f ((m, c) ∷ rest) = f c + held_sum f rest

-- What the aggregator is asked to do: count a session, or report.
pub data Call : Type 0 where
  records : SessionStatus → ℕ → Call
  takes : Call

-- The aggregator after some calls, and everything reported by them, in order.
unfoldable pub serve : Aggregator → List Call → Aggregator × List SessionCounts
serve a [] = (a, [])
serve a (records status at ∷ calls) = serve (record_session a status at) calls
serve a (takes ∷ calls) =
    let (a', counts) = take_counts a in let (a'', more) = serve a' calls in (a'', counts ++ more)

-- What one session adds to a count.
abbrev pub adds : SessionStatus → SessionStatus → ℕ
adds session_ok status = 1
adds (session_other other) status = 1
adds session_errored session_ok = 0
adds session_errored session_errored = 1
adds session_errored session_crashed = 1
adds session_errored (session_other status) = 0
adds session_crashed session_ok = 0
adds session_crashed session_errored = 0
adds session_crashed session_crashed = 1
adds session_crashed (session_other status) = 0

-- The field that counts the sessions which ended so or worse.
abbrev pub field_of : SessionStatus → SessionCounts → ℕ
field_of session_ok c = c.total
field_of (session_other other) c = c.total
field_of session_errored c = c.errored
field_of session_crashed c = c.crashed

abbrev pub called : SessionStatus → List Call → ℕ
called which [] = 0
called which (records status at ∷ calls) = adds which status + called which calls
called which (takes ∷ calls) = called which calls

bump-adds :
    (which status : SessionStatus) (c : SessionCounts)
    → field_of which (bump status c) ≡ adds which status + field_of which c
unfolding bump
bump-adds session_ok status c = ground arith
bump-adds (session_other other) status c = ground arith
bump-adds session_errored status c = ground arith
bump-adds session_crashed status c = ground arith

zero_field :
    (which : SessionStatus) (release environment : Text) (minute : ℕ)
    → field_of which (record {
      release = release;
      environment = environment;
      started = minute;
      total = 0;
      errored = 0;
      crashed = 0;
    })
      ≡ 0
zero_field session_ok release environment minute = refl
zero_field (session_other other) release environment minute = refl
zero_field session_errored release environment minute = refl
zero_field session_crashed release environment minute = refl

pub bump_minute-sum :
    (which : SessionStatus) (release environment : Text) (minute : ℕ) (status : SessionStatus)
    (minutes : List (ℕ × SessionCounts))
    → held_sum (field_of which) (bump_minute release environment minute status minutes)
      ≡ adds which status + held_sum (field_of which) minutes
unfolding bump_minute
bump_minute-sum which release environment minute status [] = omega (
  arith,
  bump-adds which status (record {
    release = release;
    environment = environment;
    started = minute;
    total = 0;
    errored = 0;
    crashed = 0;
  }),
  zero_field which release environment minute,
)
bump_minute-sum which release environment minute status ((m, c) ∷ rest) =
    elim (Bool-cases (m == minute)) [
      | inl same ↦ rw same (omega (arith, bump-adds which status c))
      | inr other ↦
          rw other (omega (arith, bump_minute-sum which release environment minute status rest))
    ]

pub sum_of-map :
    (f : SessionCounts → ℕ) (minutes : List (ℕ × SessionCounts))
    → sum_of f (map (λ (entry : ℕ × SessionCounts). entry.1) minutes) ≡ held_sum f minutes
sum_of-map f [] = refl
sum_of-map f ((m, c) ∷ rest) = ap (λ (n : ℕ). f c + n) (sum_of-map f rest)

sum_of-append :
    (f : SessionCounts → ℕ) (xs ys : List SessionCounts)
    → sum_of f (xs ++ ys) ≡ sum_of f xs + sum_of f ys
sum_of-append f [] ys = omega arith
sum_of-append f (x ∷ xs) ys = omega (arith, sum_of-append f xs ys)

-- Over any calls, with reports at any moments between them: the sessions reported and those still
-- held are those held before and those counted since. So for all sessions, for those that errored
-- (a crash among them) and for those that crashed.
pub serve_sums :
    (which : SessionStatus) (a : Aggregator) (calls : List Call)
    → sum_of (field_of which) (serve a calls).1
        + held_sum (field_of which) (serve a calls).0.minutes
      ≡ held_sum (field_of which) a.minutes + called which calls
unfolding serve record_session take_counts
serve_sums which a [] = omega arith
serve_sums which a (records status at ∷ calls) = omega (
  arith,
  serve_sums which (record_session a status at) calls,
  bump_minute-sum which a.release a.environment (minute_of at) status a.minutes,
)
serve_sums which a (takes ∷ calls) =
    let counts = map (λ (entry : ℕ × SessionCounts). entry.1) a.minutes in
    omega (
      arith,
      serve_sums which (record a { minutes = [] }) calls,
      sum_of-append (field_of which) counts (serve (record a { minutes = [] }) calls).1,
      sum_of-map (field_of which) a.minutes,
    )

-- In every minute at most the errored sessions crashed, and at most all errored.
abbrev pub Ordered : SessionCounts → Type 0
Ordered c = (c.crashed ≤ c.errored) × (c.errored ≤ c.total)

bump-Ordered : (status : SessionStatus) (c : SessionCounts) → Ordered c → Ordered (bump status c)
unfolding bump
bump-Ordered session_ok c h = omega arith
bump-Ordered (session_other other) c h = omega arith
bump-Ordered session_errored c h = omega arith
bump-Ordered session_crashed c h = omega arith

bump_minute-Ordered :
    (release environment : Text) (minute : ℕ) (status : SessionStatus)
    (minutes : List (ℕ × SessionCounts))
    → All (λ entry. Ordered entry.1) minutes
    → All (λ entry. Ordered entry.1) (bump_minute release environment minute status minutes)
unfolding bump_minute bump
bump_minute-Ordered release environment minute session_ok [] h = (omega arith, tt)
bump_minute-Ordered release environment minute (session_other other) [] h = (omega arith, tt)
bump_minute-Ordered release environment minute session_errored [] h = (omega arith, tt)
bump_minute-Ordered release environment minute session_crashed [] h = (omega arith, tt)
bump_minute-Ordered release environment minute status ((m, c) ∷ rest) (h, hs) =
    elim (Bool-cases (m == minute)) [
      | inl same ↦ rw same (bump-Ordered status c h, hs)
      | inr other ↦ rw other (h, bump_minute-Ordered release environment minute status rest hs)
    ]

map-Ordered :
    (minutes : List (ℕ × SessionCounts))
    → All (λ entry. Ordered entry.1) minutes
    → All Ordered (map (λ (entry : ℕ × SessionCounts). entry.1) minutes)
map-Ordered [] h = tt
map-Ordered (entry ∷ rest) (h, hs) = (h, map-Ordered rest hs)

-- In every minute ever reported, and in every minute still held, the crashed sessions are among the
-- errored ones and those among all: a crash-free rate never leaves the range from 0 to 1.
pub serve-Ordered :
    (a : Aggregator) (calls : List Call)
    → All (λ entry. Ordered entry.1) a.minutes
    → All Ordered (serve a calls).1 × All (λ entry. Ordered entry.1) (serve a calls).0.minutes
unfolding serve record_session take_counts
serve-Ordered a [] h = (tt, h)
serve-Ordered a (records status at ∷ calls) h =
    serve-Ordered (record_session a status at) calls
      (bump_minute-Ordered a.release a.environment (minute_of at) status a.minutes h)
serve-Ordered a (takes ∷ calls) h =
    let (more, held) = serve-Ordered (record a { minutes = [] }) calls tt in
    (
      All-append Ordered (map (λ (entry : ℕ × SessionCounts). entry.1) a.minutes)
          (serve (record a { minutes = [] }) calls).1 (map-Ordered a.minutes h) more,
      held,
    )
