-- ===== src/Tracing/Propagation.antt =====
-- tracing.go: the random ids, and a trace that goes from one service to the next by its header.
use bugfree_go_sdk.Base.{
  All, Bool, List, Option, Text, [], arith, false, get_elem?, get_elem?-last, if◌then◌else◌,
  is_empty, length, none, refl, some, suc, true, zero, ℕ, ◌%◌, ◌*◌, ◌/◌, ◌<◌, ◌∷◌, ◌≡◌,
}
use bugfree_go_sdk.Client.Ids.{hex, hex_digit}
use bugfree_go_sdk.Tracing.Traceparent.{
  LowerHex, all_zero, is_lower_hex, parse_traceparent, parse_traceparent-traceparent, traceparent,
}
use bugfree_go_sdk.Tracing.{
  Span, Spans, continue_trace, new_transaction, start_transaction, tracing_enabled, with_op,
}
use bugfree_go_sdk.Options.{Options}
use bugfree_go_sdk.Scope.{Context}
use bugfree_go_sdk.Tracing.Sampling.{trace_sampled}

-- strings.Repeat("0", n)
abbrev pub zeros : ℕ → Text
zeros zero = []
zeros (suc n) = b'0' ∷ zeros n

-- randomHex; none is a failure of the random source.
unfoldable pub random_hex : ℕ → Option (List ℕ) → Text
unfolding hex
random_hex bytes none = zeros (bytes * 2)
random_hex bytes (some drawn) = hex drawn

-- newTraceID and newSpanID
unfoldable pub new_trace_id : Option (List ℕ) → Text
unfolding random_hex
new_trace_id drawn = random_hex 16 drawn

unfoldable pub new_span_id : Option (List ℕ) → Text
unfolding random_hex
new_span_id drawn = random_hex 8 drawn

abbrev pub IsByte : ℕ → Type 0
IsByte b = b < 256

hex_digit-is_lower_hex : (n : ℕ) → n < 16 → is_lower_hex (hex_digit n) ≡ true
unfolding hex_digit is_lower_hex
hex_digit-is_lower_hex n h = ground arith

hex-LowerHex : (bytes : List ℕ) → All IsByte bytes → LowerHex (hex bytes)
unfolding hex
hex-LowerHex [] h = tt
hex-LowerHex (b ∷ rest) (here, h) = (
  hex_digit-is_lower_hex (b / 16) (omega arith),
  (hex_digit-is_lower_hex (b % 16) (omega arith), hex-LowerHex rest h),
)

length-hex : (bytes : List ℕ) → length (hex bytes) ≡ length bytes * 2
unfolding hex
length-hex [] = refl
length-hex (b ∷ rest) = omega (arith, length-hex rest)

-- Where a service has found the trace and the span of a header.
abbrev pub Continues : Options → Text → Text → Bool → Span → Type 0
Continues o trace parent sampled s =
    (s.trace_id ≡ trace)
    × (s.parent_span_id ≡ parent)
    × (s.caller_sampled ≡ some sampled)
    × (s.sampled
        ≡ (if o.trust_incoming_sampling then sampled else trace_sampled trace o.traces_sample_rate))

new_transaction-Continues :
    (o : Options) (name : Text) (now : ℕ) (span_id trace_id op header : Text) (place : ℕ)
    (trace parent : Text) (sampled : Bool)
    → parse_traceparent header
      ≡ some (record { trace_id = trace; parent_id = parent; sampled = sampled })
    → is_empty trace ≡ false
    → Continues o trace parent sampled (
        new_transaction o name now span_id trace_id place (with_op op ∷ continue_trace header ∷ []))
unfolding new_transaction with_op continue_trace
new_transaction-Continues o name now span_id trace_id op header place trace parent sampled
      header_read there =
    rw (header_read, there) (refl, refl, refl, refl)

nonempty : (s : Text) → length s ≡ 32 → is_empty s ≡ false
unfolding is_empty
nonempty [] h = absurd (omega arith)
nonempty (c ∷ s) h = refl

-- One service draws the ids of a transaction, of which neither is all zero, and sends the header;
-- another, with tracing on, starts a transaction that continues it: the transaction is in the same
-- trace, its parent is the first service's span, the caller's decision is known, and it counts only
-- where the options trust it: else the trace id decides.
pub propagated-Continues :
    (o : Options) (trace span : List ℕ) (sampled : Bool) (spans : Spans) (ctx : Option Context)
    (name : Text) (now : ℕ) (span_id trace_id op : Text)
    → length trace ≡ 16
    → length span ≡ 8
    → All IsByte trace
    → All IsByte span
    → all_zero (new_trace_id (some trace)) ≡ false
    → all_zero (new_span_id (some span)) ≡ false
    → tracing_enabled true o ≡ true
    → (s : Span) × (get_elem?
          (start_transaction true o spans ctx name now span_id trace_id (
            with_op op
            ∷ continue_trace
                (traceparent (new_trace_id (some trace)) (new_span_id (some span)) sampled)
            ∷ [])).0
          (length spans)
        ≡ some s)
      × Continues o (new_trace_id (some trace)) (new_span_id (some span)) sampled s
unfolding start_transaction new_trace_id new_span_id random_hex
propagated-Continues o trace span sampled spans ctx name now span_id trace_id op lt ls bt bs zt zs
      on =
    let header_read =
      parse_traceparent-traceparent (hex trace) (hex span) sampled (omega (arith, length-hex trace))
        (omega (arith, length-hex span)) (hex-LowerHex trace bt) (hex-LowerHex span bs) zt zs in
    let header = traceparent (hex trace) (hex span) sampled in
    let s =
      new_transaction o name now span_id trace_id (length spans)
        (with_op op ∷ continue_trace header ∷ []) in
    (
      s,
      rw on (get_elem?-last spans s),
      new_transaction-Continues o name now span_id trace_id op header (length spans) (hex trace)
          (hex span) sampled header_read (nonempty (hex trace) (omega (arith, length-hex trace))),
    )
