-- ===== src/Sessions/Unordered.antt =====
-- sessions.go, record: the map of minutes has no order, which a quotient forgets; in it the order
-- of the sessions does not matter.
use mathlib.Core.Quot
use mathlib.Core.Quot.{Quot, Quot-set}
use bugfree_go_sdk.Base.{
  List, Option, Text, [], arith, if◌then◌else◌, none, refl, some, ℕ, ◌==◌, ◌∷◌, ◌≡◌,
}
use bugfree_go_sdk.Sessions.{
  Aggregator, SessionCounts, SessionStatus, bump, bump_minute, minute_of, record_session,
  session_crashed, session_errored, session_ok, session_other,
}

-- The counts of a minute.
abbrev pub counts_of : ℕ → List (ℕ × SessionCounts) → Option SessionCounts
counts_of minute [] = none
counts_of minute ((m, c) ∷ rest) = if m == minute then some c else counts_of minute rest

-- Two lists hold the same counts for each minute: they stand for the same map.
abbrev pub SameMinutes : List (ℕ × SessionCounts) → List (ℕ × SessionCounts) → Type 0
SameMinutes xs ys = (minute : ℕ) → counts_of minute xs ≡ counts_of minute ys

-- a.minutes as the map it is
abbrev pub MinuteMap : Type 0
MinuteMap = Quot SameMinutes

module _ (release environment : Text) where
  abbrev pub started_at : ℕ → SessionCounts
  started_at minute = record {
    release = release;
    environment = environment;
    started = minute;
    total = 0;
    errored = 0;
    crashed = 0;
  }

  abbrev pub or_started : ℕ → Option SessionCounts → SessionCounts
  or_started minute none = started_at minute
  or_started minute (some c) = c

  counts_of-bump :
      (minute other : ℕ) (status : SessionStatus) (xs : List (ℕ × SessionCounts))
      → counts_of other (bump_minute release environment minute status xs) ≡ (
          if minute == other
          then some (bump status (or_started minute (counts_of minute xs)))
          else counts_of other xs)
  unfolding bump_minute
  counts_of-bump minute other status [] = refl
  counts_of-bump minute other status ((m, c) ∷ rest) =
      ground (arith, counts_of-bump minute other status rest)

  pub bump_minute-SameMinutes :
      (minute : ℕ) (status : SessionStatus) (xs ys : List (ℕ × SessionCounts))
      → SameMinutes xs ys
      → SameMinutes
          (bump_minute release environment minute status xs)
          (bump_minute release environment minute status ys)
  bump_minute-SameMinutes minute status xs ys same other =
      rw
        (
          counts_of-bump minute other status xs,
          counts_of-bump minute other status ys,
          same minute,
          same other,
        )
        refl

  -- record on the map, for a session at a time
  unfoldable pub record_in : SessionStatus → ℕ → MinuteMap → MinuteMap
  unfolding bump_minute
  record_in status at =
      Quot.lift Quot-set (λ xs. Quot.mk (bump_minute release environment (minute_of at) status xs))
        (λ xs ys same. Quot.sound (bump_minute-SameMinutes (minute_of at) status xs ys same))

  bump_comm : (s s' : SessionStatus) (c : SessionCounts) → bump s (bump s' c) ≡ bump s' (bump s c)
  unfolding bump
  bump_comm session_ok session_ok c = refl
  bump_comm session_ok session_errored c = refl
  bump_comm session_ok session_crashed c = refl
  bump_comm session_errored session_ok c = refl
  bump_comm session_errored session_errored c = refl
  bump_comm session_errored session_crashed c = refl
  bump_comm session_crashed session_ok c = refl
  bump_comm session_crashed session_errored c = refl
  bump_comm session_crashed session_crashed c = refl
  bump_comm session_ok (session_other s') c = refl
  bump_comm session_errored (session_other s') c = refl
  bump_comm session_crashed (session_other s') c = refl
  bump_comm (session_other s) session_ok c = refl
  bump_comm (session_other s) session_errored c = refl
  bump_comm (session_other s) session_crashed c = refl
  bump_comm (session_other s) (session_other s') c = refl

  bumps_comm :
      (minute minute' : ℕ) (s s' : SessionStatus) (xs : List (ℕ × SessionCounts))
      → SameMinutes
          (bump_minute release environment minute s (bump_minute release environment minute' s' xs))
          (bump_minute release environment minute' s' (bump_minute release environment minute s xs))
  bumps_comm minute minute' s s' xs other = ground (
    arith,
    counts_of-bump minute other s (bump_minute release environment minute' s' xs),
    counts_of-bump minute' other s' (bump_minute release environment minute s xs),
    counts_of-bump minute' minute s' xs,
    counts_of-bump minute minute' s xs,
    counts_of-bump minute' other s' xs,
    counts_of-bump minute other s xs,
    bump_comm s s' (or_started minute (counts_of minute xs)),
  )

  -- Two sessions leave the same map of minutes in whichever order they are recorded, at whatever
  -- times they ended.
  pub record_in_comm :
      (s s' : SessionStatus) (at at' : ℕ) (m : MinuteMap)
      → record_in s at (record_in s' at' m) ≡ record_in s' at' (record_in s at m)
  unfolding record_in
  record_in_comm s s' at at' =
      Quot.ind (λ m. Quot-set _ _)
        (λ xs. Quot.sound (bumps_comm (minute_of at) (minute_of at') s s' xs))

-- The map stands for what the aggregator holds.
pub record_in-record_session :
    (a : Aggregator) (s : SessionStatus) (at : ℕ)
    → record_in a.release a.environment s at (Quot.mk a.minutes)
      ≡ Quot.mk (record_session a s at).minutes
unfolding record_in record_session
record_in-record_session a s at = refl
