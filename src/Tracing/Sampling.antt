-- ===== src/Tracing/Sampling.antt =====
-- tracing.go, traceSampled: the decision from a trace id.
use native.Mathlib.Nat.{
  mul-lt-mul_of_pos_right, mul-le-mul_right, lt_of_mul-lt-mul_right, le_of_mul-le-mul_right,
}
use bugfree_go_sdk.Base.{
  Bool, Text, [], ap, arith, false, if◌then◌else◌, length, ltb, negsuc, not, pos, refl, take, true,
  ℕ, ◌*◌, ◌+◌, ◌<◌, ◌^◌, ◌||◌, ◌∷◌, ◌≡◌, ◌≤◌,
}
use bugfree_go_sdk.Options.{Rate, at_least_one, at_most_zero}
use bugfree_go_sdk.Tracing.Traceparent.{all_hex, hex_value}

-- The number that hexadecimal digits write, after a value so far.
unfoldable pub hex_number : ℕ → Text → ℕ
unfolding hex_value
hex_number n [] = n
hex_number n (c ∷ s) = hex_number (16 * n + hex_value c) s

-- float64(head) / float64(1<<32) < rate: both sides are exact.
unfoldable pub below_rate : ℕ → Rate → Bool
below_rate head r = elim r.num [ pos n ↦ ltb (head * r.den) (n * 2 ^ 32) | negsuc n ↦ false ]

-- traceSampled
unfoldable pub trace_sampled : Text → Rate → Bool
unfolding all_hex hex_number below_rate
trace_sampled trace_id r =
    if at_least_one r
    then true
    else if at_most_zero r || ltb (length trace_id) 8
    then false
    else if not (all_hex (take 8 trace_id))
    then false
    else below_rate (hex_number 0 (take 8 trace_id)) r

-- A rate that is not negative.
abbrev pub fraction : ℕ → ℕ → Rate
fraction n d = record { num = pos n; den = d }

-- The order of two fractions carries over to a bound below which a number lies.
below_larger : (a p n d n' d' : ℕ) → 0 < d' → n * d' ≤ n' * d → a * d < n * p → a * d' < n' * p
below_larger a p n d n' d' pos' le lt =
    let scaled : a * d * d' < n * p * d' = mul-lt-mul_of_pos_right lt pos' in
    let wider : n * d' * p ≤ n' * d * p = mul-le-mul_right p le in
    lt_of_mul-lt-mul_right d (omega arith)

below_rate_mono :
    (head n d n' d' : ℕ)
    → 0 < d'
    → n * d' ≤ n' * d
    → below_rate head (fraction n d) ≡ true
    → below_rate head (fraction n' d') ≡ true
unfolding below_rate
below_rate_mono head n d n' d' p le h =
    let lt : head * d < n * 2 ^ 32 = ground arith in
    let lt' : head * d' < n' * 2 ^ 32 = below_larger head (2 ^ 32) n d n' d' p le lt in ground arith

at_least_one_mono :
    (n d n' d' : ℕ)
    → 0 < d
    → n * d' ≤ n' * d
    → at_least_one (fraction n d) ≡ true
    → at_least_one (fraction n' d') ≡ true
unfolding at_least_one
at_least_one_mono n d n' d' p le h =
    let whole : d ≤ n = ground arith in
    let wider : d * d' ≤ n * d' = mul-le-mul_right d' whole in
    let le' : d' ≤ n' = le_of_mul-le-mul_right (omega arith) p in ground arith

at_most_zero_mono :
    (n d n' d' : ℕ)
    → 0 < d'
    → n * d' ≤ n' * d
    → at_most_zero (fraction n' d') ≡ true
    → at_most_zero (fraction n d) ≡ true
unfolding at_most_zero
at_most_zero_mono n d n' d' p le h =
    let nothing : n' ≡ 0 = ground arith in
    let none' : n * d' ≤ 0 * d' = omega (arith, ap (λ (k : ℕ). k * d) nothing) in
    let zero' : n ≤ 0 = le_of_mul-le-mul_right none' p in ground arith

-- How traceSampled combines its tests.
abbrev pub combine : Bool → Bool → Bool → Bool → Bool → Bool
combine all nothing short digits below =
    if all then true else if nothing || short then false else if not digits then false else below

combine_mono :
    (all all' nothing nothing' short digits below below' : Bool)
    → (all ≡ true → all' ≡ true)
    → (nothing' ≡ true → nothing ≡ true)
    → (below ≡ true → below' ≡ true)
    → combine all nothing short digits below ≡ true
    → combine all' nothing' short digits below' ≡ true
combine_mono all true nothing nothing' short digits below below' f g k h = refl
combine_mono true false nothing nothing' short digits below below' f g k h = absurd (never (f refl))
  where
    never : false ≡ true → ⊥
    never e = cc
combine_mono false false true nothing' short digits below below' f g k h = absurd (never h)
  where
    never : false ≡ true → ⊥
    never e = cc
combine_mono false false false true short digits below below' f g k h = g refl
combine_mono false false false false true digits below below' f g k h = h
combine_mono false false false false false false below below' f g k h = h
combine_mono false false false false false true below below' f g k h = k h

-- A trace that is recorded at one rate is recorded at every larger rate: services with different
-- rates keep nested sets of traces.
pub trace_sampled_mono :
    (trace_id : Text) (n d n' d' : ℕ)
    → 0 < d
    → 0 < d'
    → n * d' ≤ n' * d
    → trace_sampled trace_id (fraction n d) ≡ true
    → trace_sampled trace_id (fraction n' d') ≡ true
unfolding trace_sampled
trace_sampled_mono trace_id n d n' d' p p' le h =
    combine_mono (at_least_one (fraction n d)) (at_least_one (fraction n' d'))
      (at_most_zero (fraction n d)) (at_most_zero (fraction n' d')) (ltb (length trace_id) 8)
      (all_hex (take 8 trace_id)) (below_rate (hex_number 0 (take 8 trace_id)) (fraction n d))
      (below_rate (hex_number 0 (take 8 trace_id)) (fraction n' d'))
      (at_least_one_mono n d n' d' p le) (at_most_zero_mono n d n' d' p' le)
      (below_rate_mono (hex_number 0 (take 8 trace_id)) n d n' d' p' le) h
