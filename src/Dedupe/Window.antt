-- ===== src/Dedupe/Window.antt =====
-- dedupe.go: what one signature sees of the filter, and what the others see.
use bugfree_go_sdk.Base.{
  All, Bool, Bool-cases, List, Option, Text, [], arith, false, if◌then◌else◌, inl, inr, length,
  lookup, lookup-insert, lookup-insert_self, ltb_ℤ, none, pos, refl, some, sub_ℕ, suc, sym, text_eq,
  true, ℕ, ℤ, ◌+◌, ◌<◌, ◌∙◌, ◌∷◌, ◌≡◌,
}
use bugfree_go_sdk.Dedupe.{Dedupe, Entry, admit, admit_now, admit_seen, evict, max_entries, within}

-- The filter of one signature alone, with no table: its memory is at most one entry.
abbrev pub spec_admit : ℤ → Option Entry → ℕ → Option Entry × ℕ × Bool
spec_admit window none now = (some (record { sent_at = now; dropped = 0 }), 0, true)
spec_admit window (some e) now =
    if within window now e
    then (some (record e { dropped = suc e.dropped }), 0, false)
    else (some (record { sent_at = now; dropped = 0 }), e.dropped, true)

module _ (d : Dedupe) (signature : Text) (now : ℕ) (on : ltb_ℤ d.window (pos 0) ≡ false) where
  admit_seen-own :
      (found : Option Entry)
      → (lookup signature (admit_seen d signature now found).0.entries
          ≡ (spec_admit d.window found now).0)
        × ((admit_seen d signature now found).1 ≡ (spec_admit d.window found now).1)
        × ((admit_seen d signature now found).2 ≡ (spec_admit d.window found now).2)
  unfolding admit_seen
  admit_seen-own none = (simp lookup-insert_self, refl, refl)
  admit_seen-own (some e) = elim (Bool-cases (within d.window now e)) [
    | inl held ↦ rw held (simp lookup-insert_self, refl, refl)
    | inr over ↦ rw over (simp lookup-insert_self, refl, refl)
  ]

  -- With the filter on, admit refines the filter of its signature alone: the decision, the number
  -- of repeats reported and the signature's new entry are those of `spec_admit` on its old entry,
  -- however full the table is.
  pub admit_own :
      (lookup signature (admit d signature now).0.entries
        ≡ (spec_admit d.window (lookup signature d.entries) now).0)
      × ((admit d signature now).1 ≡ (spec_admit d.window (lookup signature d.entries) now).1)
      × ((admit d signature now).2 ≡ (spec_admit d.window (lookup signature d.entries) now).2)
  unfolding admit
  admit_own = rw on (admit_seen-own (lookup signature d.entries))

module _ (d : Dedupe) (signature other : Text) (now : ℕ)
    (ne : text_eq signature other ≡ false) where
  admit_now-other :
      (repeats : ℕ)
      → length d.entries < max_entries
      → lookup other (admit_now d signature now repeats).0.entries ≡ lookup other d.entries
  unfolding admit_now
  admit_now-other repeats room =
      ground
        (arith, lookup-insert signature other (record { sent_at = now; dropped = 0 }) d.entries)

  -- While the table has room, an admit leaves the memory of every other signature alone.
  pub admit-other :
      length d.entries < max_entries
      → lookup other (admit d signature now).0.entries ≡ lookup other d.entries
  unfolding admit admit_seen
  admit-other room = elim (Bool-cases (ltb_ℤ d.window (pos 0))) [
    | inl off ↦ rw off
    | inr on ↦ rw on (go (lookup signature d.entries))
  ]
    where
      go :
          (found : Option Entry)
          → lookup other (admit_seen d signature now found).0.entries ≡ lookup other d.entries
      go none = admit_now-other 0 room
      go (some e) = elim (Bool-cases (within d.window now e)) [
        | inl held ↦ rw held (simp lookup-insert (rw ne))
        | inr over ↦ rw over (admit_now-other e.dropped room)
      ]

admit-window : (d : Dedupe) (s : Text) (now : ℕ) → (admit d s now).0.window ≡ d.window
unfolding admit admit_seen admit_now evict
admit-window d s now = ground arith

-- A burst of calls of one signature.
unfoldable pub burst : Dedupe → Text → List ℕ → Dedupe
burst d s [] = d
burst d s (t ∷ ts) = burst (admit d s t).0 s ts

-- Copies of an error seen while its window runs are counted on its entry, one by one.
burst-held :
    (d : Dedupe) (s : Text) (e : Entry) (ts : List ℕ)
    → ltb_ℤ d.window (pos 0) ≡ false
    → lookup s d.entries ≡ some e
    → All (λ t. within d.window t e ≡ true) ts
    → (lookup s (burst d s ts).entries ≡ some (record e { dropped = e.dropped + length ts }))
      × ((burst d s ts).window ≡ d.window)
unfolding burst
burst-held d s e [] on seen inside = (ground (arith, seen), refl)
burst-held d s e (t ∷ ts) on seen (inside, rest) =
    let e' : Entry = record e { dropped = suc e.dropped } in
    let d' = (admit d s t).0 in
    let same : d'.window ≡ d.window = admit-window d s t in
    let found : lookup s d'.entries ≡ some e' = (admit_own d s t on).0 ∙ rw (seen, inside) in
    let (held, window) =
      burst-held d' s e' ts (rw same on) found (unfold within in rw same (unfold within in rest)) in
    (held ∙ ground arith, window ∙ same)

abbrev fresh : ℕ → Entry
fresh t = record { sent_at = t; dropped = 0 }

spec_admit_sent :
    (w : ℤ) (o : Option Entry) (t : ℕ)
    → (spec_admit w o t).2 ≡ true
    → (spec_admit w o t).0 ≡ some (fresh t)
spec_admit_sent w none t h = refl
spec_admit_sent w (some e) t h = ground arith

-- A copy sent, any number of copies while its window runs, and the first copy after it: those in
-- the window are held back, and the last is sent and reports how many they were.
pub admit-burst :
    (d : Dedupe) (s : Text) (t₀ : ℕ) (ts : List ℕ) (t₁ : ℕ)
    → ltb_ℤ d.window (pos 0) ≡ false
    → (admit d s t₀).2 ≡ true
    → All (λ t. ltb_ℤ (sub_ℕ t t₀) d.window ≡ true) ts
    → ltb_ℤ (sub_ℕ t₁ t₀) d.window ≡ false
    → ((admit (burst (admit d s t₀).0 s ts) s t₁).1 ≡ length ts)
      × ((admit (burst (admit d s t₀).0 s ts) s t₁).2 ≡ true)
admit-burst d s t₀ ts t₁ on first inside over =
    let d₁ = (admit d s t₀).0 in
    let same : d₁.window ≡ d.window = admit-window d s t₀ in
    let stored : lookup s d₁.entries ≡ some (fresh t₀) =
      (admit_own d s t₀ on).0
      ∙ spec_admit_sent d.window (lookup s d.entries) t₀ (sym (admit_own d s t₀ on).2 ∙ first) in
    let (held, window) =
      burst-held d₁ s (fresh t₀) ts (rw same on) stored (unfold within in rw same inside) in
    let (_, count, sent) = admit_own (burst d₁ s ts) s t₁ (rw (window, same) on) in
    let decide = held in
    (
      count ∙ rw (held, window, same) (unfold within in rw over (omega arith)),
      sent ∙ rw (held, window, same) (unfold within in rw over),
    )

-- A copy of an error just sent is held back while the window runs.
pub admit_again :
    (d : Dedupe) (s : Text) (t₀ t₁ : ℕ)
    → ltb_ℤ d.window (pos 0) ≡ false
    → (admit d s t₀).2 ≡ true
    → ltb_ℤ (sub_ℕ t₁ t₀) d.window ≡ true
    → (admit (admit d s t₀).0 s t₁).2 ≡ false
admit_again d s t₀ t₁ on first inside =
    let d₁ = (admit d s t₀).0 in
    let same : d₁.window ≡ d.window = admit-window d s t₀ in
    let stored : lookup s d₁.entries ≡ some (fresh t₀) =
      (admit_own d s t₀ on).0
      ∙ spec_admit_sent d.window (lookup s d.entries) t₀ (sym (admit_own d s t₀ on).2 ∙ first) in
    (admit_own d₁ s t₁ (rw same on)).2 ∙ rw (stored, same) (unfold within in rw inside)
