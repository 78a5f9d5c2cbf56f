-- ===== src/Options/Defaults.antt =====
-- options.go, normalize: the ranges of the options after it.
use bugfree_go_sdk.Base.{
  Bool-cases, Text, arith, codes, false, if◌then◌else◌, inl, inr, is_empty, leb_ℤ, pos, refl, ℤ,
  ◌||◌, ◌≡◌,
}
use bugfree_go_sdk.Options.{Options, Rate, above_one, at_most_zero, normalize, one, or_default}

-- What the rest of the SDK relies on.
pub record IsNormal (o : Options) : Type 0 where
  pub rate_positive : at_most_zero o.sample_rate ≡ false
  pub rate_at_most_one : above_one o.sample_rate ≡ false
  pub steps : leb_ℤ o.max_breadcrumbs (pos 0) ≡ false
  pub flush : leb_ℤ o.flush_timeout (pos 0) ≡ false
  pub shutdown : leb_ℤ o.shutdown_timeout (pos 0) ≡ false
  pub named : is_empty o.environment ≡ false

or_default_positive : (v f : ℤ) → leb_ℤ f (pos 0) ≡ false → leb_ℤ (or_default v f) (pos 0) ≡ false
or_default_positive v f h = ground arith

abbrev rate_or_one : Rate → Rate
rate_or_one r = if at_most_zero r || above_one r then one else r

rate_or_one-range :
    (r : Rate) → (at_most_zero (rate_or_one r) ≡ false) × (above_one (rate_or_one r) ≡ false)
rate_or_one-range r = elim (Bool-cases (at_most_zero r || above_one r)) [
  | inl out ↦ rw out (unfold at_most_zero above_one in (refl, refl))
  | inr fits ↦ rw fits (ground arith, ground arith)
]

named_default : (t : Text) → is_empty (if is_empty t then codes "development" else t) ≡ false
named_default t = elim (Bool-cases (is_empty t)) [
  | inl e ↦ rw e (unfold is_empty in refl)
  | inr e ↦ rw e e
]

normalize_range : (o : Options) → IsNormal (normalize o)
unfolding normalize
normalize_range o = record {
  rate_positive = (rate_or_one-range o.sample_rate).0;
  rate_at_most_one = (rate_or_one-range o.sample_rate).1;
  steps = or_default_positive o.max_breadcrumbs (pos 30) refl;
  flush = or_default_positive o.flush_timeout (pos 2000000000) refl;
  shutdown = or_default_positive o.shutdown_timeout (pos 5000000000) refl;
  named = named_default o.environment;
}

normalize_fixed : (o : Options) → IsNormal o → normalize o ≡ o
unfolding normalize
normalize_fixed o h = ground arith

-- After normalize the sample rate is above 0 and at most 1, the breadcrumb limit and both time-outs
-- are positive and the environment has a name; normalizing again changes nothing.
pub normalize-IsNormal :
    (o : Options) → IsNormal (normalize o) × (normalize (normalize o) ≡ normalize o)
normalize-IsNormal o = (normalize_range o, normalize_fixed (normalize o) (normalize_range o))
