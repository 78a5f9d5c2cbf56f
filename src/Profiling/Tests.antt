-- ===== src/Profiling/Tests.antt =====
-- A profiler of which one round finds the CPU profile taken.
use bugfree_go_sdk.Base.{[], codes, false, length, none, refl, some, true, ◌∷◌, ◌≡◌}
use bugfree_go_sdk.Samples.{client}
use bugfree_go_sdk.Posting.{Exchange, arrived}
use bugfree_go_sdk.Profiling.{Round, another, own_transport, run_profiler, stop, timer}

abbrev fine : Exchange
fine = record { encodable = true; addressable = true; answer = arrived 200 [] }

abbrev busy : Round
busy = record {
  cpu = none;
  cpu_started = 0;
  cpu_elapsed = 0;
  cpu_channel = another;
  cpu_exchange = fine;
  heap = some (codes "h");
  heap_at = 7;
  heap_channel = own_transport false;
  heap_exchange = fine;
}

stopped_loop : length (run_profiler client (timer busy ∷ stop ∷ timer busy ∷ []) []) ≡ 1
unfolding run_profiler
stopped_loop = refl
