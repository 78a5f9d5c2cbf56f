-- ===== src/Client/Tests.antt =====
-- Runs of a capture by an enabled client.
use bugfree_go_sdk.Client.Memory.{memory_stats}
use bugfree_go_sdk.Event.{number}
use bugfree_go_sdk.Base.{
  [], codes, false, insert, lookup, none, not, refl, some, suc, text_eq, true, ◌||◌, ◌≡◌, ◌⊎◌,
}
use bugfree_go_sdk.Errors.{leaf}
use bugfree_go_sdk.Samples.{client, moment}
use bugfree_go_sdk.Client.Capture.{Subject, capture, exception, is_nothing}
use bugfree_go_sdk.Client.Accounting.{answered_for, capture-counted}

abbrev boom : Subject
boom = exception (some (leaf (codes "T") (codes "boom") [])) none

capture-counted_example :
    (((not client.enabled || is_nothing boom) ≡ true)
      × (capture (moment 5) client (some 1) boom [] ≡ (client, [])))
    ⊎ (((not client.enabled || is_nothing boom) ≡ false)
        × (answered_for (capture (moment 5) client (some 1) boom []).0 ≡ suc (answered_for client)))
capture-counted_example = capture-counted (moment 5) client (some 1) boom []

heap_in_megabytes :
    lookup (codes "heap_alloc_mb") (memory_stats (some 5242881) none none none) ≡ some (number 5)
unfolding memory_stats lookup insert text_eq
heap_in_megabytes = refl
