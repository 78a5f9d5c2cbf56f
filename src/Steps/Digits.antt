-- ===== src/Steps/Digits.antt =====
-- http-breadcrumbs.go, the number in a step's text: how its digits are found.
use bugfree_go_sdk.Base.{
  Bool-cases, Text, [], arith, false, inl, inr, suc, zero, ℕ, ◌%◌, ◌+◌, ◌/◌, ◌<◌, ◌==◌, ◌∷◌, ◌≡◌,
}
use bugfree_go_sdk.Steps.{decimal, decimal_from}

-- Any fuel above the number gives the same digits, so `decimal` has enough.
pub decimal_from_enough :
    (f g n : ℕ) (text : Text) → n < f → n < g → decimal_from f n text ≡ decimal_from g n text
unfolding decimal_from
decimal_from_enough zero g n text h k = absurd (omega arith)
decimal_from_enough (suc f) zero n text h k = absurd (omega arith)
decimal_from_enough (suc f) (suc g) n text h k = elim (Bool-cases (n / 10 == 0)) [
  | inl e ↦ rw e
  | inr e ↦
      let more : 0 < n / 10 = ground arith in
      rw e (decimal_from_enough f g (n / 10) ((b'0' + n % 10) ∷ text) (omega arith) (omega arith))
]

-- decimal writes the last digit behind those of the tenth.
pub decimal_step :
    (n : ℕ)
    → (n / 10 == 0) ≡ false
    → decimal n ≡ decimal_from (suc (n / 10)) (n / 10) ((b'0' + n % 10) ∷ [])
unfolding decimal decimal_from
decimal_step n e =
    let more : 0 < n / 10 = ground arith in
    rw e (
      decimal_from_enough n (suc (n / 10)) (n / 10) ((b'0' + n % 10) ∷ []) (omega arith)
        (omega arith))
