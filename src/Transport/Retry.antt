-- ===== src/Transport/Retry.antt =====
-- transport.go, parseRetryAfter: the header of a 429 answer. Durations are int64 nanoseconds.
use bugfree_go_sdk.Base.{
  Option, Text, [], arith, false, if◌then◌else◌, leb, ltb, lt→ltb, min, negsuc, none, pos, some,
  suc, zero, ℕ, ℤ, ◌%◌, ◌&&◌, ◌*◌, ◌+◌, ◌-◌, ◌<◌, ◌==◌, ◌^◌, ◌∷◌, ◌≡◌, ◌≤◌,
}

abbrev pub second : ℕ
second = 1000000000

abbrev pub word_mod : ℕ
word_mod = 2 ^ 64

-- The int64 that a product or a sum wraps to.
unfoldable pub of_word : ℕ → ℤ
of_word w = if ltb w (2 ^ 63) then pos w else negsuc (word_mod - w - 1)

unfoldable pub wrap : ℤ → ℤ
unfolding of_word
wrap (pos n) = of_word (n % word_mod)
wrap (negsuc n) = of_word (word_mod - 1 - n % word_mod)

-- The digits of strconv.Atoi, after a value so far.
unfoldable pub digits : ℕ → Text → Option ℕ
digits n [] = some n
digits n (c ∷ s) = if leb b'0' c && leb c b'9' then digits (10 * n + (c - b'0')) s else none

abbrev pub some_digits : Text → Option ℕ
some_digits [] = none
some_digits (c ∷ s) = digits 0 (c ∷ s)

-- A value out of int64's range is an error.
abbrev pub positive : Option ℕ → Option ℤ
positive none = none
positive (some n) = if ltb n (2 ^ 63) then some (pos n) else none

abbrev pub negative : Option ℕ → Option ℤ
negative none = none
negative (some zero) = some (pos 0)
negative (some (suc n)) = if ltb n (2 ^ 63) then some (negsuc n) else none

-- strconv.Atoi; `none` is an error.
unfoldable pub atoi : Text → Option ℤ
unfolding digits
atoi [] = none
atoi (c ∷ s) =
    if c == b'-'
    then negative (some_digits s)
    else if c == b'+'
    then positive (some_digits s)
    else positive (some_digits (c ∷ s))

-- defaultRetryAfter: time.Minute
abbrev pub default_retry_after : ℤ
default_retry_after = pos (60 * second)

-- The second half of parseRetryAfter: at.Sub(now) for a date after now, which stops at the largest
-- int64.
abbrev pub until_date : Option ℕ → ℕ → ℤ
until_date none now = default_retry_after
until_date (some at) now =
    if ltb now at then pos (min (at - now) (2 ^ 63 - 1)) else default_retry_after

-- The first half, on what Atoi answered.
abbrev pub retry_of : Option ℤ → Option ℕ → ℕ → ℤ
retry_of none date now = until_date date now
retry_of (some (negsuc n)) date now = until_date date now
retry_of (some (pos zero)) date now = until_date date now
retry_of (some (pos (suc n))) date now = wrap (pos (suc n * second))

-- parseRetryAfter; `date` is what http.ParseTime makes of a header value.
unfoldable pub parse_retry_after : (Text → Option ℕ) → Text → ℕ → ℤ
unfolding atoi wrap
parse_retry_after date value now = retry_of (atoi value) (date value) now

-- A number of seconds up to 9223372036 is read as written, whatever the clock says and whatever
-- else the header might mean.
pub parse_retry_after-seconds :
    (date : Text → Option ℕ) (value : Text) (now n : ℕ)
    → atoi value ≡ some (pos n)
    → 0 < n
    → n ≤ 9223372036
    → parse_retry_after date value now ≡ pos (n * second)
unfolding parse_retry_after
parse_retry_after-seconds date value now zero e h k = absurd (omega arith)
parse_retry_after-seconds date value now (suc n) e h k =
    rw e (wrap_small (suc n * second) (omega arith))
  where
    wrap_small : (m : ℕ) → m < 2 ^ 63 → wrap (pos m) ≡ pos m
    wrap_small m h =
        let e : m % word_mod ≡ m = omega arith in unfold wrap in rw (e, lt→ltb m (2 ^ 63) h)

-- From 9223372037 to 18446744073 seconds the product with time.Second overflows int64: the wait is
-- read as a negative duration.
pub parse_retry_after_overflow :
    (date : Text → Option ℕ) (value : Text) (now n : ℕ)
    → atoi value ≡ some (pos n)
    → 9223372037 ≤ n
    → n ≤ 18446744073
    → parse_retry_after date value now ≡ negsuc (2 ^ 64 - n * second - 1)
unfolding parse_retry_after
parse_retry_after_overflow date value now zero e h k = absurd (omega arith)
parse_retry_after_overflow date value now (suc n) e h k =
    rw e (wrap_large (suc n * second) (omega arith) (omega arith))
  where
    wrap_large : (m : ℕ) → 2 ^ 63 ≤ m → m < word_mod → wrap (pos m) ≡ negsuc (word_mod - m - 1)
    wrap_large m h k =
        let e : m % word_mod ≡ m = omega arith in
        let over : ltb m (2 ^ 63) ≡ false = ground arith in unfold wrap in rw (e, over)
