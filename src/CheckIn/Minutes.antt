-- ===== src/CheckIn/Minutes.antt =====
-- check-in.go, wholeMinutes.
use bugfree_go_sdk.Base.{
  arith, false, ltb, pos, true, ℕ, ◌%◌, ◌*◌, ◌+◌, ◌-◌, ◌/◌, ◌<◌, ◌==◌, ◌^◌, ◌≡◌, ◌≤◌,
}
use bugfree_go_sdk.Transport.Retry.{of_word, word_mod, wrap}
use bugfree_go_sdk.CheckIn.{minute, whole_minutes}

-- A duration above zero is rounded up to whole minutes: they cover it, and one less would not. From
-- a minute under the largest int64 on, the sum in the code would wrap around.
pub whole_minutes_up :
    (n : ℕ)
    → 0 < n
    → n + minute ≤ 2 ^ 63
    → (m : ℕ) × (whole_minutes (pos n) ≡ pos m) × (n ≤ m * minute) × (m * minute < n + minute)
unfolding whole_minutes wrap of_word
whole_minutes_up n p fits =
    let positive : (n == 0) ≡ false = ground arith in
    let small : (n + minute - 1) % word_mod ≡ n + minute - 1 = omega arith in
    let below : ltb (n + minute - 1) (2 ^ 63) ≡ true = ground arith in
    ((n + minute - 1) / minute, rw (positive, small, below), omega arith, omega arith)
