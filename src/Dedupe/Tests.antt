-- ===== src/Dedupe/Tests.antt =====
-- Runs of the filter of dedupe.go on small tables.
use bugfree_go_sdk.Base.{
  List, Text, [], arith, codes, lookup, refl, text_eq, true, ℕ, ◌+◌, ◌∷◌, ◌≡◌,
}
use bugfree_go_sdk.Dedupe.{Dedupe, admit, admit_now, admit_seen, default_window}
use bugfree_go_sdk.Dedupe.Table.{IsBounded, admit-IsBounded}
use bugfree_go_sdk.Dedupe.Window.{admit-burst, burst}
use bugfree_go_sdk.Dedupe.Counting.{held, outstanding, reported, reported-eq-held, run}

abbrev boom : Text
boom = codes "T|f|boom"

abbrev quiet : Text
quiet = codes "T|g|quiet"

-- One error sent at time 0, two repeats held back.
abbrev table : Dedupe
table = record {
  window = default_window;
  entries = (boom, record { sent_at = 0; dropped = 2 }) ∷ [];
}

table-IsBounded : IsBounded table
unfolding lookup
table-IsBounded = record { distinct = (refl, tt); bounded = omega arith }

admit-IsBounded_example : IsBounded (admit table quiet 5).0
admit-IsBounded_example = admit-IsBounded table quiet 5 table-IsBounded

admit-burst_example :
    ((admit (burst (admit table quiet 7).0 quiet (8 ∷ 9 ∷ [])) quiet 2000000000).1 ≡ 2)
    × ((admit (burst (admit table quiet 7).0 quiet (8 ∷ 9 ∷ [])) quiet 2000000000).2 ≡ true)
unfolding admit admit_seen lookup text_eq admit_now
admit-burst_example =
    admit-burst table quiet 7 (8 ∷ 9 ∷ []) 2000000000 refl refl (refl, (refl, tt)) refl

abbrev calls : List (Text × ℕ)
calls = (boom, 3) ∷ (quiet, 4) ∷ (boom, 2000000000) ∷ []

reported-eq-held_example :
    reported boom table calls + outstanding boom (run table calls)
    ≡ outstanding boom table + held boom table calls
reported-eq-held_example = reported-eq-held boom table calls (omega arith)
