-- ===== src/Transport/Pause.antt =====
-- transport.go: what a 429 does to the events that follow, by its Retry-After.
use native.Mathlib.Nat.{add-zero}
use bugfree_go_sdk.Base.{
  Option, Text, arith, false, ltb, lt→ltb, negsuc, pos, some, ℕ, ◌%◌, ◌*◌, ◌+ℤ◌, ◌+◌, ◌-◌, ◌<◌, ◌^◌,
  ◌≡◌, ◌≤◌,
}
use bugfree_go_sdk.Transport.Retry.{
  atoi, parse_retry_after-seconds, parse_retry_after_overflow, second, word_mod, wrap,
}
use bugfree_go_sdk.Transport.{Transport, answered, pause, paused, verdict}
use bugfree_go_sdk.Transport.Delivery.{settled}

wrap_fits : (m : ℕ) → m < 2 ^ 63 → wrap (pos m) ≡ pos m
unfolding wrap
wrap_fits m h = let e : m % word_mod ≡ m = omega arith in rw (e, lt→ltb m (2 ^ 63) h)

wrap_below : (j : ℕ) → j < 2 ^ 63 → wrap (negsuc j) ≡ negsuc j
unfolding wrap
wrap_below j h =
    let e : j % word_mod ≡ j = omega arith in
    let over : ltb (word_mod - 1 - j) (2 ^ 63) ≡ false = ground arith in
    let back : word_mod - (word_mod - 1 - j) - 1 ≡ j = omega arith in rw (e, over, back)

add_later : (now w : ℕ) → pos now +ℤ pos w ≡ pos (now + w)
unfolding ◌+ℤ◌
add_later now w = ground arith

add_before : (now k : ℕ) → now ≤ k → pos now +ℤ negsuc k ≡ negsuc (k - now)
unfolding ◌+ℤ◌
add_before now k h = ground arith

pause_fits :
    (w now later : ℕ) (t : Transport)
    → now + w < 2 ^ 63
    → paused later (pause (pos w) now t) ≡ ltb later (now + w)
unfolding pause paused
pause_fits w now later t h =
    rw (add_later now w, wrap_fits (now + w) h, add-zero later, add-zero (now + w))

pause_wraps :
    (n now later : ℕ) (t : Transport)
    → 2 ^ 63 ≤ n
    → now + n < 2 ^ 64
    → paused later (pause (negsuc (2 ^ 64 - n - 1)) now t) ≡ false
unfolding pause paused
pause_wraps n now later t h k =
    let j = 2 ^ 64 - n - 1 - now in
    rw (add_before now (2 ^ 64 - n - 1) (omega arith), wrap_below j (omega arith)) (ground arith)

-- A 429 that names a number of seconds stops the sending for exactly that long from the answer,
-- as long as the product with a second fits int64 and the end lies before the last int64 time.
pub limited_pause :
    (date : Text → Option ℕ) (value : Text) (now n later : ℕ) (t : Transport)
    → atoi value ≡ some (pos n)
    → 0 < n
    → n ≤ 9223372036
    → now + n * second < 2 ^ 63
    → paused later (settled now t (verdict date now (answered 429 value)))
      ≡ ltb later (now + n * second)
unfolding verdict
limited_pause date value now n later t e h k fits =
    rw (parse_retry_after-seconds date value now n e h k) (pause_fits (n * second) now later t fits)

-- After a 429 with a Retry-After of at least 9223372037 seconds, as long as the clock and the
-- nanoseconds of the pause add up to less than 2 ^ 64, the transport is not paused, at any time:
-- the product has wrapped below zero.
pub limited_overflow :
    (date : Text → Option ℕ) (value : Text) (now n later : ℕ) (t : Transport)
    → atoi value ≡ some (pos n)
    → 9223372037 ≤ n
    → now + n * second < 2 ^ 64
    → paused later (settled now t (verdict date now (answered 429 value))) ≡ false
unfolding verdict
limited_overflow date value now n later t e h fits =
    rw (parse_retry_after_overflow date value now n e h (omega arith))
      (pause_wraps (n * second) now later t (omega arith) fits)
