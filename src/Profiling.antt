-- ===== src/Profiling.antt =====
-- profiling.go: the profiler's loop. What runtime/pprof wrote, the clock and what a request comes
-- to are arguments of a round. Durations are nanoseconds.
mod Tests
pub mod Rounds
use bugfree_go_sdk.Base.{
  Bool, List, Option, Text, [], codes, false, if◌then◌else◌, leb_ℤ, none, pos, some, true, ℕ, ℤ,
  ◌&&◌, ◌++◌, ◌/◌, ◌∷◌,
}
use bugfree_go_sdk.Client.{Client}
use bugfree_go_sdk.Posting.{Exchange, post}

-- defaultProfileDuration
abbrev pub default_profile_duration : ℤ
default_profile_duration = pos 10000000000

abbrev pub min_ℤ : ℤ → ℤ → ℤ
min_ℤ a b = if leb_ℤ a b then a else b

-- type profiler struct; `stopped` says that stop is closed.
pub record Profiler : Type 0 where
  pub interval : ℤ
  pub duration : ℤ
  pub stopped : Bool

-- newProfiler
unfoldable pub new_profiler : ℤ → ℤ → Profiler
new_profiler interval duration = record {
  interval = interval;
  duration = min_ℤ (if leb_ℤ duration (pos 0) then default_profile_duration else duration) interval;
  stopped = false;
}

-- What send makes JSON of; `bytes` stands there in base64.
pub record Profile : Type 0 where
  pub kind : Text
  pub format : Text
  pub bytes : Text
  pub started_at : ℕ
  pub duration_ms : ℕ
  pub environment : Text
  pub release : Text
  pub server_name : Text
  pub platform : Text

-- What the client's transport is: one that takes profiles, the SDK's own with its pause, or
-- another.
pub data ProfileChannel : Type 0 where
  profile_sender another : ProfileChannel
  own_transport : Bool → ProfileChannel

abbrev pub profile_of : Client → Text → Text → ℕ → ℕ → Profile
profile_of c kind bytes started elapsed = record {
  kind = kind;
  format = codes "pprof";
  bytes = bytes;
  started_at = started;
  duration_ms = elapsed / 1000000;
  environment = c.options.environment;
  release = c.options.release;
  server_name = c.options.server_name;
  platform = codes "go";
}

-- The tail of send; the error of postProfile is only logged.
unfoldable pub deliver_profile : ProfileChannel → Exchange → Profile → List Profile → List Profile
unfolding post
deliver_profile profile_sender x p sent = if x.encodable then sent ++ p ∷ [] else sent
deliver_profile (own_transport paused) x p sent =
    if x.encodable && paused then sent else (post x p sent).1
deliver_profile another x p sent = (post x p sent).1

-- send
unfoldable pub send_profile :
    Client → ProfileChannel → Exchange → Text → Text → ℕ → ℕ → List Profile → List Profile
unfolding deliver_profile
send_profile c channel x kind bytes started elapsed sent =
    deliver_profile channel x (profile_of c kind bytes started elapsed) sent

-- A round: what StartCPUProfile and Lookup("heap").WriteTo come to (none is an error), when each
-- began, how long the CPU profile ran, the channel at each of the two sends, and what their
-- requests come to.
pub record Round : Type 0 where
  pub cpu : Option Text
  pub cpu_started : ℕ
  pub cpu_elapsed : ℕ
  pub cpu_channel : ProfileChannel
  pub cpu_exchange : Exchange
  pub heap : Option Text
  pub heap_at : ℕ
  pub heap_channel : ProfileChannel
  pub heap_exchange : Exchange

-- profileCPU; a CPU profile that another has taken is left alone.
unfoldable pub profile_cpu : Client → Round → List Profile → List Profile
unfolding send_profile
profile_cpu c r sent = elim r.cpu [
  | none ↦ sent
  | some bytes ↦
      send_profile c r.cpu_channel r.cpu_exchange (codes "cpu") bytes r.cpu_started r.cpu_elapsed
        sent
]

-- profileHeap
unfoldable pub profile_heap : Client → Round → List Profile → List Profile
unfolding send_profile
profile_heap c r sent = elim r.heap [
  | none ↦ sent
  | some bytes ↦ send_profile c r.heap_channel r.heap_exchange (codes "heap") bytes r.heap_at 0 sent
]

-- What the select of run gives: the timer with the round behind it, or the closed stop. A close
-- that comes during a round is the next signal at the latest, or the round after it where the timer
-- is ready too.
pub data Tick : Type 0 where
  timer : Round → Tick
  stop : Tick

-- run, from the select on
unfoldable pub run_profiler : Client → List Tick → List Profile → List Profile
unfolding profile_cpu profile_heap
run_profiler c [] sent = sent
run_profiler c (stop ∷ rest) sent = sent
run_profiler c (timer r ∷ rest) sent = run_profiler c rest (profile_heap c r (profile_cpu c r sent))

-- close; the second call finds stop closed.
unfoldable pub close_profiler : Profiler → Profiler
close_profiler p = record p { stopped = true }
