-- ===== src/Client/Memory.antt =====
-- client.go, memoryStats: the event's memory figures from the runtime's metrics, none for a sample
-- of another kind than uint64.
use bugfree_go_sdk.Base.{Map, Option, [], codes, insert, none, some, ℕ, ◌/◌}
use bugfree_go_sdk.Event.{Value, number}

abbrev pub sample_value : Option ℕ → ℕ
sample_value none = 0
sample_value (some n) = n

-- memoryStats, on heap objects, total memory, collections and goroutines
unfoldable pub memory_stats : Option ℕ → Option ℕ → Option ℕ → Option ℕ → Map Value
memory_stats heap total collections goroutines =
    insert (codes "heap_alloc_mb") (number (sample_value heap / 1024 / 1024)) (
      insert (codes "total_mb") (number (sample_value total / 1024 / 1024)) (
        insert (codes "num_gc") (number (sample_value collections))
          (insert (codes "goroutines") (number (sample_value goroutines)) [])))
