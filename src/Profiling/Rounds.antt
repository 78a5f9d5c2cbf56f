-- ===== src/Profiling/Rounds.antt =====
-- profiling.go: how long a profile runs, and what a loop sends.
use bugfree_go_sdk.Base.{
  List, Option, Text, [], arith, codes, if◌then◌else◌, inl, inr, leb_ℤ, length, length-append,
  ltb_ℤ, negsuc, none, not, pos, refl, some, suc, true, ℕ, ℤ, ◌&&◌, ◌*◌, ◌+◌, ◌∷◌, ◌≡◌,
}
use bugfree_go_sdk.Client.{Client}
use bugfree_go_sdk.Posting.{Exchange, post, post-Posts}
use bugfree_go_sdk.Profiling.{
  Profile, ProfileChannel, Round, Tick, another, default_profile_duration, deliver_profile,
  new_profiler, own_transport, profile_cpu, profile_heap, profile_of, profile_sender, run_profiler,
  send_profile, stop, timer,
}

-- For an interval above zero, which NewClient asks for: a CPU profile runs longer than nothing and
-- at most as long as the pause between two, whatever duration the options have; exactly the
-- options' duration if that is such, and else the shorter of ten seconds and the interval or the
-- interval itself.
pub new_profiler-IsBounded :
    (interval duration : ℤ)
    → ltb_ℤ (pos 0) interval ≡ true
    → (ltb_ℤ (pos 0) (new_profiler interval duration).duration ≡ true)
      × (leb_ℤ (new_profiler interval duration).duration interval ≡ true)
      × ((new_profiler interval duration).duration ≡ (
          if ltb_ℤ (pos 0) duration && leb_ℤ duration interval
          then duration
          else if leb_ℤ duration (pos 0) && leb_ℤ default_profile_duration interval
          then default_profile_duration
          else interval))
unfolding new_profiler
new_profiler-IsBounded (pos i) (pos d) h = ground arith
new_profiler-IsBounded (pos i) (negsuc d) h = ground arith
new_profiler-IsBounded (negsuc i) (pos d) h = ground arith
new_profiler-IsBounded (negsuc i) (negsuc d) h = ground arith

abbrev pub made : Option Text → ℕ
made none = 0
made (some bytes) = 1

-- Whether a channel lets a profile through: the SDK's own transport does not while the server has
-- asked to wait.
abbrev pub lets : ProfileChannel → Exchange → ℕ
lets profile_sender x = if x.encodable then 1 else 0
lets (own_transport paused) x = if x.encodable && x.addressable && not paused then 1 else 0
lets another x = if x.encodable && x.addressable then 1 else 0

-- The profiles of the rounds before the loop is stopped.
abbrev pub profiles_of : List Tick → ℕ
profiles_of [] = 0
profiles_of (stop ∷ rest) = 0
profiles_of (timer r ∷ rest) =
    made r.cpu * lets r.cpu_channel r.cpu_exchange
    + made r.heap * lets r.heap_channel r.heap_exchange
    + profiles_of rest

post-length :
    (x : Exchange) (p : Profile) (sent : List Profile)
    → length (post x p sent).1
      ≡ (if x.encodable && x.addressable then suc (length sent) else length sent)
post-length x p sent = elim (post-Posts x p sent) [
  | inl (cannot, same, r) ↦ rw (cannot, same) refl
  | inr (can, more, r) ↦ rw (can, more) (omega (arith, length-append sent (p ∷ [])))
]

deliver_profile-length :
    (channel : ProfileChannel) (x : Exchange) (p : Profile) (sent : List Profile)
    → length (deliver_profile channel x p sent) ≡ length sent + lets channel x
unfolding deliver_profile
deliver_profile-length profile_sender x p sent = ground (arith, length-append sent (p ∷ []))
deliver_profile-length (own_transport paused) x p sent = ground (arith, post-length x p sent)
deliver_profile-length another x p sent = ground (arith, post-length x p sent)

profile_cpu-length :
    (c : Client) (r : Round) (sent : List Profile)
    → length (profile_cpu c r sent) ≡ length sent + made r.cpu * lets r.cpu_channel r.cpu_exchange
unfolding profile_cpu send_profile
profile_cpu-length c r sent = go r.cpu
  where
    go :
        (cpu : Option Text)
        → length (elim cpu [
          | none ↦ sent
          | some bytes ↦
              deliver_profile r.cpu_channel r.cpu_exchange
                (profile_of c (codes "cpu") bytes r.cpu_started r.cpu_elapsed)
                sent
        ])
          ≡ length sent + made cpu * lets r.cpu_channel r.cpu_exchange
    go none = omega arith
    go (some bytes) = omega (
      arith,
      deliver_profile-length r.cpu_channel r.cpu_exchange
          (profile_of c (codes "cpu") bytes r.cpu_started r.cpu_elapsed) sent,
    )

profile_heap-length :
    (c : Client) (r : Round) (sent : List Profile)
    → length (profile_heap c r sent)
      ≡ length sent + made r.heap * lets r.heap_channel r.heap_exchange
unfolding profile_heap send_profile
profile_heap-length c r sent = go r.heap
  where
    go :
        (heap : Option Text)
        → length (elim heap [
          | none ↦ sent
          | some bytes ↦
              deliver_profile r.heap_channel r.heap_exchange
                (profile_of c (codes "heap") bytes r.heap_at 0)
                sent
        ])
          ≡ length sent + made heap * lets r.heap_channel r.heap_exchange
    go none = omega arith
    go (some bytes) = omega (
      arith,
      deliver_profile-length r.heap_channel r.heap_exchange
          (profile_of c (codes "heap") bytes r.heap_at 0) sent,
    )

-- The loop sends one profile for each one taken in the rounds before it is stopped, a heap profile
-- also where the CPU profile was skipped, less those that could not be encoded or requested and
-- those that met the server's pause; after the stop it sends none.
pub run_profiler-length :
    (c : Client) (ticks : List Tick) (sent : List Profile)
    → length (run_profiler c ticks sent) ≡ length sent + profiles_of ticks
unfolding run_profiler
run_profiler-length c [] sent = omega arith
run_profiler-length c (stop ∷ rest) sent = omega arith
run_profiler-length c (timer r ∷ rest) sent = omega (
  arith,
  run_profiler-length c rest (profile_heap c r (profile_cpu c r sent)),
  profile_heap-length c r (profile_cpu c r sent),
  profile_cpu-length c r sent,
)
