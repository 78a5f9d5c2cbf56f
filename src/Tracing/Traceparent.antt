-- ===== src/Tracing/Traceparent.antt =====
-- tracing.go: the W3C traceparent header, written and read.
use bugfree_go_sdk.Base.{
  All, Bool, List, Option, Text, [], arith, codes, false, if◌then◌else◌, leb, length, none, not,
  refl, some, text_eq, true, ℕ, ◌%◌, ◌&&◌, ◌++◌, ◌+◌, ◌-◌, ◌==◌, ◌||◌, ◌∷◌, ◌≡◌,
}
use bugfree_go_sdk.Options.{is_space, trim, trim_left, trim_right}

-- What a traceparent header names.
pub record Continued : Type 0 where
  pub trace_id : Text
  pub parent_id : Text
  pub sampled : Bool

-- strings.ToLower of an ASCII text
unfoldable pub lower : ℕ → ℕ
lower c = if leb b'A' c && leb c b'Z' then c + 32 else c

unfoldable pub to_lower : Text → Text
unfolding lower
to_lower [] = []
to_lower (c ∷ s) = lower c ∷ to_lower s

abbrev pub onto_first : ℕ → List Text → List Text
onto_first c [] = (c ∷ []) ∷ []
onto_first c (part ∷ rest) = (c ∷ part) ∷ rest

-- strings.Split(s, sep) for a separator of one byte
unfoldable pub split : ℕ → Text → List Text
split sep [] = [] ∷ []
split sep (c ∷ s) = let parts = split sep s in if c == sep then [] ∷ parts else onto_first c parts

-- A digit that hex.DecodeString takes.
unfoldable pub is_hex_digit : ℕ → Bool
is_hex_digit c =
    (leb b'0' c && leb c b'9') || ((leb b'a' c && leb c b'f') || (leb b'A' c && leb c b'F'))

unfoldable pub all_hex : Text → Bool
all_hex [] = true
all_hex (c ∷ s) = is_hex_digit c && all_hex s

-- isHex, for an even length
unfoldable pub is_hex : Text → ℕ → Bool
unfolding all_hex is_hex_digit
is_hex value n = (length value == n) && all_hex value

-- value == strings.Repeat("0", …) of its own length
unfoldable pub all_zero : Text → Bool
all_zero [] = true
all_zero (c ∷ s) = (c == b'0') && all_zero s

unfoldable pub hex_value : ℕ → ℕ
hex_value c =
    if leb b'0' c && leb c b'9'
    then c - b'0'
    else if leb b'a' c && leb c b'f'
    then c - b'a' + 10
    else c - b'A' + 10

-- flagBits[0]&1 == 1, of two hexadecimal digits
unfoldable pub low_bit : Text → Bool
unfolding hex_value
low_bit [] = false
low_bit (c ∷ []) = hex_value c % 2 == 1
low_bit (c ∷ d ∷ s) = low_bit (d ∷ s)

-- parseTraceparent, on the parts between the dashes; `none` is its false.
unfoldable pub from_parts : List Text → Option Continued
unfolding is_hex all_zero low_bit
from_parts (version ∷ trace ∷ parent ∷ flags ∷ rest) =
    if not (length version == 2) || text_eq version (codes "ff")
    then none
    else if not (is_hex trace 32)
        || (not (is_hex parent 16) || (not (is_hex flags 2) || (all_zero trace || all_zero parent)))
    then none
    else some (record { trace_id = trace; parent_id = parent; sampled = low_bit flags })
from_parts _ = none

unfoldable pub parse_traceparent : Text → Option Continued
unfolding from_parts to_lower split trim is_space
parse_traceparent header = from_parts (split b'-' (trim is_space (to_lower header)))

-- Traceparent of a span that is not nil
unfoldable pub traceparent : Text → Text → Bool → Text
traceparent trace span sampled =
    codes "00-"
    ++ (trace ++ (b'-' ∷ (span ++ (b'-' ∷ (if sampled then codes "01" else codes "00")))))

-- Lower-case hexadecimal digits, as hex.EncodeToString writes them.
unfoldable pub is_lower_hex : ℕ → Bool
is_lower_hex c = (leb b'0' c && leb c b'9') || (leb b'a' c && leb c b'f')

abbrev pub LowerHex : Text → Type 0
LowerHex = All (λ c. is_lower_hex c ≡ true)

-- What holds of a digit.
digit_facts :
    (c : ℕ)
    → is_lower_hex c ≡ true
    → (lower c ≡ c) × ((c == b'-') ≡ false) × (is_hex_digit c ≡ true) × (is_space c ≡ false)
unfolding is_lower_hex lower is_hex_digit is_space
digit_facts c h = (ground arith, ground arith, ground arith, ground arith)

to_lower-hex : (s t : Text) → LowerHex s → to_lower (s ++ t) ≡ s ++ to_lower t
unfolding to_lower
to_lower-hex [] t h = refl
to_lower-hex (c ∷ s) t (h, hs) = rw ((digit_facts c h).0, to_lower-hex s t hs)

split-hex : (s t : Text) → LowerHex s → split b'-' (s ++ b'-' ∷ t) ≡ s ∷ split b'-' t
unfolding split
split-hex [] t h = refl
split-hex (c ∷ s) t (h, hs) = rw ((digit_facts c h).1, split-hex s t hs)

split-hex_end : (s : Text) → LowerHex s → split b'-' s ≡ s ∷ []
unfolding split
split-hex_end [] h = refl
split-hex_end (c ∷ s) (h, hs) = rw ((digit_facts c h).1, split-hex_end s hs)

all_hex-lower : (s : Text) → LowerHex s → all_hex s ≡ true
unfolding all_hex
all_hex-lower [] h = refl
all_hex-lower (c ∷ s) (h, hs) = rw ((digit_facts c h).2, all_hex-lower s hs)

trim_right-cons :
    (cut : ℕ → Bool) (c : ℕ) (s : Text) (d : ℕ) (t : Text)
    → trim_right cut (s ++ d ∷ t) ≡ s ++ d ∷ t
    → trim_right cut (c ∷ (s ++ d ∷ t)) ≡ c ∷ (s ++ d ∷ t)
unfolding trim_right
trim_right-cons cut c [] d t h = rw h
trim_right-cons cut c (e ∷ s) d t h = rw h

trim_right-append :
    (cut : ℕ → Bool) (s : Text) (d : ℕ) (t : Text)
    → trim_right cut (d ∷ t) ≡ d ∷ t
    → trim_right cut (s ++ d ∷ t) ≡ s ++ d ∷ t
unfolding trim_right
trim_right-append cut [] d t h = h
trim_right-append cut (c ∷ s) d t h = trim_right-cons cut c s d t (trim_right-append cut s d t h)

-- The decision, as the header writes it.
abbrev pub flags_of : Bool → Text
flags_of sampled = if sampled then codes "01" else codes "00"

abbrev pub spelled : Text → Text → Text → Text
spelled trace span flags = codes "00-" ++ (trace ++ (b'-' ∷ (span ++ (b'-' ∷ flags))))

to_lower-spelled :
    (trace span : Text) (sampled : Bool)
    → LowerHex trace
    → LowerHex span
    → to_lower (spelled trace span (flags_of sampled)) ≡ spelled trace span (flags_of sampled)
unfolding to_lower lower
to_lower-spelled trace span true ht hs = rw (
  to_lower-hex trace (b'-' ∷ (span ++ (b'-' ∷ codes "01"))) ht,
  to_lower-hex span (b'-' ∷ codes "01") hs,
)
to_lower-spelled trace span false ht hs = rw (
  to_lower-hex trace (b'-' ∷ (span ++ (b'-' ∷ codes "00"))) ht,
  to_lower-hex span (b'-' ∷ codes "00") hs,
)

trim_right-flags :
    (trace span : Text) (sampled : Bool)
    → trim_right is_space (spelled trace span (flags_of sampled))
      ≡ spelled trace span (flags_of sampled)
unfolding trim_right is_space
trim_right-flags trace span true =
    trim_right-append is_space (codes "00-" ++ trace) b'-' (span ++ (b'-' ∷ codes "01"))
      (trim_right-append is_space (b'-' ∷ span) b'-' (codes "01") refl)
trim_right-flags trace span false =
    trim_right-append is_space (codes "00-" ++ trace) b'-' (span ++ (b'-' ∷ codes "00"))
      (trim_right-append is_space (b'-' ∷ span) b'-' (codes "00") refl)

trim-spelled :
    (trace span : Text) (sampled : Bool)
    → trim is_space (spelled trace span (flags_of sampled)) ≡ spelled trace span (flags_of sampled)
unfolding trim trim_left is_space
trim-spelled trace span sampled = trim_right-flags trace span sampled

split-spelled :
    (trace span : Text) (sampled : Bool)
    → LowerHex trace
    → LowerHex span
    → split b'-' (spelled trace span (flags_of sampled))
      ≡ codes "00" ∷ trace ∷ span ∷ flags_of sampled ∷ []
unfolding split
split-spelled trace span true ht hs =
    rw (split-hex trace (span ++ (b'-' ∷ codes "01")) ht, split-hex span (codes "01") hs)
split-spelled trace span false ht hs =
    rw (split-hex trace (span ++ (b'-' ∷ codes "00")) ht, split-hex span (codes "00") hs)

from_parts-spelled :
    (trace span : Text) (sampled : Bool)
    → is_hex trace 32 ≡ true
    → is_hex span 16 ≡ true
    → all_zero trace ≡ false
    → all_zero span ≡ false
    → from_parts (codes "00" ∷ trace ∷ span ∷ flags_of sampled ∷ [])
      ≡ some (record { trace_id = trace; parent_id = span; sampled = sampled })
unfolding from_parts is_hex all_hex is_hex_digit low_bit hex_value text_eq
from_parts-spelled trace span true ht hs zt zs = rw (ht, hs, zt, zs)
from_parts-spelled trace span false ht hs zt zs = rw (ht, hs, zt, zs)

is_hex-lower : (s : Text) (n : ℕ) → length s ≡ n → LowerHex s → is_hex s n ≡ true
unfolding is_hex
is_hex-lower s n e h = let a = all_hex-lower s h in ground arith

-- A header written for a span is read back as that span, with its decision: so the service that a
-- request goes to continues the very trace. The ids are those of the SDK's own form, 32 and 16
-- lower-case hexadecimal digits not all zero.
pub parse_traceparent-traceparent :
    (trace span : Text) (sampled : Bool)
    → length trace ≡ 32
    → length span ≡ 16
    → LowerHex trace
    → LowerHex span
    → all_zero trace ≡ false
    → all_zero span ≡ false
    → parse_traceparent (traceparent trace span sampled)
      ≡ some (record { trace_id = trace; parent_id = span; sampled = sampled })
unfolding parse_traceparent traceparent
parse_traceparent-traceparent trace span sampled lt ls ht hs zt zs = rw (
  to_lower-spelled trace span sampled ht hs,
  trim-spelled trace span sampled,
  split-spelled trace span sampled ht hs,
  from_parts-spelled trace span sampled (is_hex-lower trace 32 lt ht) (is_hex-lower span 16 ls hs)
      zt zs,
)
