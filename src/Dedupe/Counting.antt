-- ===== src/Dedupe/Counting.antt =====
-- dedupe.go: the repeats reported over any sequence of calls, against those held back.
use bugfree_go_sdk.Base.{
  Bool, Bool-cases, IsMap, List, Option, Text, [], arith, false, if◌then◌else◌, inl, inr, leb,
  length, length-insert-le, lookup, lookup-insert, ltb_ℤ, none, pos, some, subst, suc, text_eq,
  text_eq_iff, true, ℕ, ℤ, ◌+◌, ◌<◌, ◌∷◌, ◌≡◌, ◌≤◌,
}
use bugfree_go_sdk.Dedupe.{Dedupe, Entry, admit, admit_now, admit_seen, evict, max_entries, within}
use bugfree_go_sdk.Dedupe.Table.{IsBounded, admit-IsBounded, evict_exact, kept}
use bugfree_go_sdk.Dedupe.Window.{admit-other, admit_own, spec_admit}

-- Calls of admit, in the order in which the lock lets them through.
unfoldable pub run : Dedupe → List (Text × ℕ) → Dedupe
run d [] = d
run d ((k, t) ∷ calls) = run (admit d k t).0 calls

-- The calls of signature s that were not sent.
unfoldable pub held : Text → Dedupe → List (Text × ℕ) → ℕ
held s d [] = 0
held s d ((k, t) ∷ calls) =
    (if text_eq k s then if (admit d k t).2 then 0 else 1 else 0) + held s (admit d k t).0 calls

-- The repeats that the calls of signature s reported.
unfoldable pub reported : Text → Dedupe → List (Text × ℕ) → ℕ
reported s d [] = 0
reported s d ((k, t) ∷ calls) =
    (if text_eq k s then (admit d k t).1 else 0) + reported s (admit d k t).0 calls

abbrev pub dropped_of : Option Entry → ℕ
dropped_of none = 0
dropped_of (some e) = e.dropped

-- The repeats held back and not yet reported.
abbrev pub outstanding : Text → Dedupe → ℕ
outstanding s d = dropped_of (lookup s d.entries)

own_step :
    (w : ℤ) (o : Option Entry) (t : ℕ)
    → (spec_admit w o t).1 + dropped_of (spec_admit w o t).0
      ≡ dropped_of o + (if (spec_admit w o t).2 then 0 else 1)
own_step w none t = omega arith
own_step w (some e) t = ground arith

-- An admit of the signature itself moves repeats from held back to reported, and loses none.
outstanding-admit_own :
    (d : Dedupe) (s : Text) (t : ℕ)
    → (admit d s t).1 + outstanding s (admit d s t).0
      ≡ outstanding s d + (if (admit d s t).2 then 0 else 1)
outstanding-admit_own d s t = elim (Bool-cases (ltb_ℤ d.window (pos 0))) [
  | inl off ↦ off_step off
  | inr on ↦
      let (after, count, sent) = admit_own d s t on in
      rw (after, count, sent) (own_step d.window (lookup s d.entries) t)
]
  where
    off_step :
        ltb_ℤ d.window (pos 0) ≡ true
        → (admit d s t).1 + outstanding s (admit d s t).0
          ≡ outstanding s d + (if (admit d s t).2 then 0 else 1)
    off_step off = unfold admit in rw off (omega arith)

kept_dropped : (p : Entry → Bool) (o : Option Entry) → dropped_of (kept p o) ≤ dropped_of o
kept_dropped p none = omega arith
kept_dropped p (some e) = ground arith

outstanding-evict :
    (d : Dedupe) (s : Text) (now : ℕ)
    → IsMap d.entries
    → outstanding s (evict d now) ≤ outstanding s d
unfolding lookup
outstanding-evict d s now h = elim ((evict_exact d now h).1) [
  | inl exact ↦ rw (exact s) (kept_dropped (within d.window now) (lookup s d.entries))
  | inr (_, gone) ↦ rw gone (omega arith)
]

module _ (d : Dedupe) (k s : Text) (t : ℕ) (ne : text_eq k s ≡ false) where
  admit_now-le : (r : ℕ) → IsMap d.entries → outstanding s (admit_now d k t r).0 ≤ outstanding s d
  unfolding admit_now
  admit_now-le r h = elim (Bool-cases (leb max_entries (length d.entries))) [
    | inl full ↦ rw full (simp lookup-insert (rw ne (outstanding-evict d s t h)))
    | inr room ↦ rw room (simp lookup-insert (rw ne (omega arith)))
  ]

  admit_seen-le :
      (found : Option Entry)
      → IsMap d.entries
      → outstanding s (admit_seen d k t found).0 ≤ outstanding s d
  unfolding admit_seen
  admit_seen-le none h = admit_now-le 0 h
  admit_seen-le (some e) h = elim (Bool-cases (within d.window t e)) [
    | inl inside ↦ rw inside (simp lookup-insert (rw ne (omega arith)))
    | inr over ↦ rw over (admit_now-le e.dropped h)
  ]

  -- An admit of another signature reports none of this one's repeats, and may forget them.
  outstanding-admit_other : IsMap d.entries → outstanding s (admit d k t).0 ≤ outstanding s d
  unfolding admit
  outstanding-admit_other h = elim (Bool-cases (ltb_ℤ d.window (pos 0))) [
    | inl off ↦ rw off (omega arith)
    | inr on ↦ rw on (admit_seen-le (lookup k d.entries) h)
  ]

  outstanding-admit_room :
      length d.entries < max_entries → outstanding s (admit d k t).0 ≡ outstanding s d
  outstanding-admit_room room = rw (admit-other d k s t ne room)

-- Over any calls, in any order and at any times, the repeats reported of a signature and those
-- still counted on its entry are at most those counted before and those held back.
pub reported-le-held :
    (s : Text) (d : Dedupe) (calls : List (Text × ℕ))
    → IsBounded d
    → reported s d calls + outstanding s (run d calls) ≤ outstanding s d + held s d calls
unfolding run reported held
reported-le-held s d [] h = omega arith
reported-le-held s d ((k, t) ∷ calls) h =
    let rest = reported-le-held s (admit d k t).0 calls (admit-IsBounded d k t h) in
    elim (Bool-cases (text_eq k s)) [
      | inl same ↦
          let moved = outstanding-admit_own d k t in
          let e = (text_eq_iff k s).0 same in
          rw same (
            omega (
              arith,
              rest,
              subst
                  (λ (x : Text).
                    (admit d k t).1 + outstanding x (admit d k t).0
                    ≡ outstanding x d + (if (admit d k t).2 then 0 else 1))
                  e moved,
            ))
      | inr other ↦ rw other (omega (arith, rest, outstanding-admit_other d k s t other h.distinct))
    ]

length-admit_now :
    (d : Dedupe) (k : Text) (t r : ℕ)
    → length d.entries < max_entries
    → length (admit_now d k t r).0.entries ≤ suc (length d.entries)
unfolding admit_now
length-admit_now d k t r room =
    ground (arith, length-insert-le k (record { sent_at = t; dropped = 0 }) d.entries)

length-admit_seen :
    (d : Dedupe) (k : Text) (t : ℕ) (found : Option Entry)
    → length d.entries < max_entries
    → length (admit_seen d k t found).0.entries ≤ suc (length d.entries)
unfolding admit_seen
length-admit_seen d k t none room = length-admit_now d k t 0 room
length-admit_seen d k t (some e) room = elim (Bool-cases (within d.window t e)) [
  | inl inside ↦ rw inside (length-insert-le k _ d.entries)
  | inr over ↦ rw over (length-admit_now d k t e.dropped room)
]

length-admit :
    (d : Dedupe) (k : Text) (t : ℕ)
    → length d.entries < max_entries
    → length (admit d k t).0.entries ≤ suc (length d.entries)
unfolding admit
length-admit d k t room = elim (Bool-cases (ltb_ℤ d.window (pos 0))) [
  | inl off ↦ rw off (omega arith)
  | inr on ↦ rw on (length-admit_seen d k t (lookup k d.entries) room)
]

-- Over any calls that are, with the entries at their start, no more than the table has room for: of
-- the repeats of a signature none is lost, every one held back is reported with a later event or
-- still counted on the signature's entry.
pub reported-eq-held :
    (s : Text) (d : Dedupe) (calls : List (Text × ℕ))
    → length d.entries + length calls ≤ max_entries
    → reported s d calls + outstanding s (run d calls) ≡ outstanding s d + held s d calls
unfolding run reported held
reported-eq-held s d [] h = omega arith
reported-eq-held s d ((k, t) ∷ calls) h =
    let rest =
      reported-eq-held s (admit d k t).0 calls (omega (arith, length-admit d k t (omega arith))) in
    elim (Bool-cases (text_eq k s)) [
      | inl same ↦
          let moved = outstanding-admit_own d k t in
          let e = (text_eq_iff k s).0 same in
          rw same (
            omega (
              arith,
              rest,
              subst
                  (λ (x : Text).
                    (admit d k t).1 + outstanding x (admit d k t).0
                    ≡ outstanding x d + (if (admit d k t).2 then 0 else 1))
                  e moved,
            ))
      | inr other ↦
          rw other (omega (arith, rest, outstanding-admit_room d k s t other (omega arith)))
    ]
