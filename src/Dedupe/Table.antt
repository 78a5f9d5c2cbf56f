-- ===== src/Dedupe/Table.antt =====
-- dedupe.go: the bound on the table and what evict forgets.
use bugfree_go_sdk.Base.{
  Bool, Bool-cases, IsMap, Map, Option, Text, [], arith, if◌then◌else◌, inl, inr, insert-IsMap,
  keep, leb, length, length-insert, lookup, ltb_ℤ, none, pos, refl, some, suc, text_eq_iff, ℕ, ◌<◌,
  ◌∷◌, ◌≡◌, ◌≤◌, ◌⊎◌,
}
use bugfree_go_sdk.Dedupe.{Dedupe, Entry, admit, admit_now, admit_seen, evict, max_entries, within}

-- The keys are distinct, and the table is within maxDedupeEntries.
pub record IsBounded (d : Dedupe) : Type 0 where
  pub distinct : IsMap d.entries
  pub bounded : length d.entries ≤ max_entries

module _ (p : Text × Entry → Bool) where
  keep-absent : (k : Text) (m : Map Entry) → lookup k m ≡ none → lookup k (keep p m) ≡ none
  unfolding keep lookup
  keep-absent k [] h = refl
  keep-absent k ((j, e) ∷ m) h = ground (arith, keep-absent k m)

  pub keep-IsMap : (m : Map Entry) → IsMap m → IsMap (keep p m)
  unfolding keep
  keep-IsMap [] h = tt
  keep-IsMap ((j, e) ∷ m) h = ground (arith, keep-absent j m h.0, keep-IsMap m h.1)

evict-IsBounded : (d : Dedupe) (now : ℕ) → IsMap d.entries → IsMap (evict d now).entries
unfolding evict
evict-IsBounded d now h =
    ground (arith, keep-IsMap (λ (entry : Text × Entry). within d.window now entry.1) d.entries h)

evict_room : (d : Dedupe) (now : ℕ) → length (evict d now).entries < max_entries
unfolding evict
evict_room d now = ground arith

admit_now-IsBounded :
    (d : Dedupe) (signature : Text) (now repeats : ℕ)
    → IsBounded d
    → IsBounded (admit_now d signature now repeats).0
unfolding admit_now
admit_now-IsBounded d s now repeats h = elim (Bool-cases (leb max_entries (length d.entries))) [
  | inl full ↦ rw full (record {
    distinct = insert-IsMap s _ (evict d now).entries (evict-IsBounded d now h.distinct);
    bounded = ground (
      arith,
      evict_room d now,
      length-insert s (record { sent_at = now; dropped = 0 }) (evict d now).entries,
    );
  })
  | inr room ↦ rw room (record {
    distinct = insert-IsMap s _ d.entries h.distinct;
    bounded = ground (arith, length-insert s (record { sent_at = now; dropped = 0 }) d.entries);
  })
]

admit_seen-IsBounded :
    (d : Dedupe) (signature : Text) (now : ℕ) (found : Option Entry)
    → lookup signature d.entries ≡ found
    → IsBounded d
    → IsBounded (admit_seen d signature now found).0
unfolding admit_seen
admit_seen-IsBounded d s now none found h = admit_now-IsBounded d s now 0 h
admit_seen-IsBounded d s now (some e) found h = elim (Bool-cases (within d.window now e)) [
  | inl held ↦ rw held (record {
    distinct = insert-IsMap s _ d.entries h.distinct;
    bounded =
        ground (arith, length-insert s (record e { dropped = suc e.dropped }) d.entries, h.bounded);
  })
  | inr over ↦ rw over (admit_now-IsBounded d s now e.dropped h)
]

-- Every admit, on every branch, keeps the signatures distinct and the table within 1000 entries,
-- whatever its window and whatever the clock says.
pub admit-IsBounded :
    (d : Dedupe) (signature : Text) (now : ℕ) → IsBounded d → IsBounded (admit d signature now).0
unfolding admit
admit-IsBounded d s now h = elim (Bool-cases (ltb_ℤ d.window (pos 0))) [
  | inl off ↦ rw off h
  | inr on ↦ rw on (admit_seen-IsBounded d s now (lookup s d.entries) refl h)
]

-- What is left of an entry under a test.
abbrev pub kept : (Entry → Bool) → Option Entry → Option Entry
kept p none = none
kept p (some e) = if p e then some e else none

lookup-keep :
    (p : Entry → Bool) (k : Text) (m : Map Entry)
    → IsMap m
    → lookup k (keep (λ (entry : Text × Entry). p entry.1) m) ≡ kept p (lookup k m)
unfolding keep lookup
lookup-keep p k [] h = refl
lookup-keep p k ((j, e) ∷ m) h = ground (
  arith,
  lookup-keep p k m h.1,
  keep-absent (λ (entry : Text × Entry). p entry.1) k m,
  text_eq_iff j k,
)

-- evict leaves fewer than 1000 entries. Either it keeps exactly the entries whose window is still
-- running, each unchanged, or at least 1000 are in their window and it forgets all of them.
pub evict_exact :
    (d : Dedupe) (now : ℕ)
    → IsMap d.entries
    → (length (evict d now).entries < max_entries)
      × ((((k : Text)
            → lookup k (evict d now).entries ≡ kept (within d.window now) (lookup k d.entries)))
          ⊎ ((max_entries
                ≤ length (keep (λ (entry : Text × Entry). within d.window now entry.1) d.entries))
              × ((evict d now).entries ≡ [])))
unfolding evict
evict_exact d now h =
    let live = keep (λ (entry : Text × Entry). within d.window now entry.1) d.entries in
    elim (Bool-cases (leb max_entries (length live))) [
      | inl full ↦ (evict_room d now, inr (ground arith, rw full))
      | inr room ↦
          (evict_room d now, inl (λ k. rw room (lookup-keep (within d.window now) k d.entries h)))
    ]
