-- ===== src/Dedupe.antt =====
-- dedupe.go: the filter that lets the same error through once per window. Times are nanoseconds;
-- the table of entries is a map keyed by the error's signature. A nil filter does not occur:
-- NewClient (client.go) always builds one.
mod Tests
pub mod Table
pub mod Window
pub mod Counting
use bugfree_go_sdk.Base.{
  Bool, Map, Option, Text, [], false, if◌then◌else◌, insert, keep, leb, length, lookup, ltb_ℤ, none,
  pos, some, sub_ℕ, suc, true, zero, ℕ, ℤ,
}

-- type dedupeEntry struct
pub record Entry : Type 0 where
  pub sent_at : ℕ
  pub dropped : ℕ

-- type dedupe struct
pub record Dedupe : Type 0 where
  pub window : ℤ
  pub entries : Map Entry

-- defaultDedupeWindow: time.Second, in nanoseconds
abbrev pub default_window : ℤ
default_window = pos 1000000000

-- maxDedupeEntries
abbrev pub max_entries : ℕ
max_entries = 1000

-- newDedupe
unfoldable pub new_dedupe : ℤ → Dedupe
new_dedupe (pos zero) = record { window = default_window; entries = [] }
new_dedupe window = record { window = window; entries = [] }

-- now.Sub(entry.sentAt) < d.window
unfoldable pub within : ℤ → ℕ → Entry → Bool
within window now e = ltb_ℤ (sub_ℕ now e.sent_at) window

-- evict
unfoldable pub evict : Dedupe → ℕ → Dedupe
evict d now =
    let live = keep (λ (entry : Text × Entry). within d.window now entry.1) d.entries in
    record d { entries = if leb max_entries (length live) then [] else live }

-- The tail of admit: the table is kept within its bound, and the error is sent.
unfoldable pub admit_now : Dedupe → Text → ℕ → ℕ → Dedupe × ℕ × Bool
unfolding evict
admit_now d signature now repeats =
    let kept = if leb max_entries (length d.entries) then evict d now else d in
    let sent : Entry = record { sent_at = now; dropped = 0 } in
    (record kept { entries = insert signature sent kept.entries }, repeats, true)

-- The middle of admit, on the entry found for the signature.
unfoldable pub admit_seen : Dedupe → Text → ℕ → Option Entry → Dedupe × ℕ × Bool
unfolding admit_now within
admit_seen d signature now none = admit_now d signature now 0
admit_seen d signature now (some e) =
    if within d.window now e
    then (
      record d { entries = insert signature (record e { dropped = suc e.dropped }) d.entries },
      0,
      false,
    )
    else admit_now d signature now e.dropped

-- admit: the new filter, the repeats held back since the last copy sent, and whether to send.
unfoldable pub admit : Dedupe → Text → ℕ → Dedupe × ℕ × Bool
unfolding admit_seen
admit d signature now =
    if ltb_ℤ d.window (pos 0)
    then (d, 0, true)
    else admit_seen d signature now (lookup signature d.entries)
