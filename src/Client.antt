-- ===== src/Client.antt =====
-- client.go: how a capture call becomes an event that is handed to the transport, or a count of
-- Stats. The clock, the random draws, the runtime's stacks and the context's span are arguments;
-- what is sent is the list of the transport's Send calls (Transport models what becomes of them).
-- The loggers' lines are not modelled.
mod Tests
pub mod Ids
pub mod Accounting
pub mod Content
pub mod Kept
pub mod Capture
pub mod Start
pub mod Memory
use mathlib.Core.List.{foldl}
use bugfree_go_sdk.Base.{
  Bool, List, Map, Option, Text, [], codes, false, if◌then◌else◌, insert, is_empty, leb, ltb,
  modify, negsuc, none, not, pos, some, suc, true, ℕ, ◌*◌, ◌++◌, ◌^◌, ◌∷◌,
}
use bugfree_go_sdk.Errors.{message}
use bugfree_go_sdk.Build.{BuildInfo, release, short_revision}
use bugfree_go_sdk.Frames.{Frame, RawFrame, culprit_of, mark_in_app}
use bugfree_go_sdk.Event.{Event, EventModifier, Level, Value, instant, number, text_value}
use bugfree_go_sdk.Scope.{Scopes}
use bugfree_go_sdk.Scope.Read.{breadcrumbs, lineage, tags, user}
use bugfree_go_sdk.Options.{Options, Rate, at_least_one}
use bugfree_go_sdk.Dedupe.{Dedupe, admit}
use bugfree_go_sdk.Source.{FileSystem, SourceReader, add_context, read}

-- type clientStats struct
pub record ClientStats : Type 0 where
  pub sampled : ℕ
  pub duplicates : ℕ
  pub before_send : ℕ
  pub transactions : ℕ

-- type Client struct; `enabled` says that a transport was built, `scope` is the global scope's
-- place.
pub record Client : Type 0 where
  pub options : Options
  pub enabled : Bool
  pub scope : ℕ
  pub dedupe : Dedupe
  pub source : SourceReader
  pub stats : ClientStats
  pub sent : List Event

-- What the process is like at a capture call: the clock, random.Float64() as a fraction of 2^53,
-- the event id drawn, the program counters from the Capture method outwards, the scopes, and the
-- rest of what the runtime answers. `shown` is the stack behind each program counter.
pub record Moment : Type 0 where
  pub now : ℕ
  pub draw : ℕ
  pub id : Text
  pub stack : List ℕ
  pub shown : ℕ → List RawFrame
  pub scopes : Scopes
  pub build : BuildInfo
  pub runtime : Text
  pub os : Text
  pub memory : Map Value
  pub fsys : Option FileSystem
  pub files : FileSystem

-- Version
abbrev pub version : Text
version = codes "0.9.6"

-- buildTags
unfoldable pub build_tags : BuildInfo → Map Value
build_tags b =
    let sdk = insert (codes "sdk") (text_value (codes "bugfree-go/" ++ version)) [] in
    if is_empty b.revision
    then sdk
    else let commit = insert (codes "commit") (text_value (short_revision b)) sdk in
      if b.modified
      then insert (codes "commit.modified") (text_value (codes "true")) commit
      else commit

-- keep := c.random.Float64() <= rate
unfoldable pub draw_keeps : Rate → ℕ → Bool
draw_keeps r draw = elim r.num [ pos n ↦ leb (draw * r.den) (n * 2 ^ 53) | negsuc n ↦ false ]

-- sampled
unfoldable pub sampled : Moment → Client → Client × Bool
unfolding draw_keeps
sampled m c =
    if at_least_one c.options.sample_rate
    then (c, true)
    else if draw_keeps c.options.sample_rate m.draw
    then (c, true)
    else (record c { stats = record c.stats { sampled = suc c.stats.sampled } }, false)

-- eventType + "|" + culprit + "|" + message
unfoldable pub signature : Text → Text → Text → Text
signature event_type culprit message =
    event_type ++ (codes "|" ++ (culprit ++ (codes "|" ++ message)))

-- The event of newEvent, once it is to be sent.
unfoldable pub build_event :
    Moment → Client → Option ℕ → Level → Text → Text → List Frame → Text → ℕ → Event
unfolding build_tags
build_event m c scope level event_type message frames culprit repeats = record {
  event_id = m.id;
  level = level;
  type = event_type;
  message = message;
  culprit = culprit;
  platform = codes "go";
  environment = c.options.environment;
  release = c.options.release;
  server_name = c.options.server_name;
  runtime = m.runtime;
  os = m.os;
  request = none;
  user = user (lineage m.scopes scope);
  trace_id = [];
  stacktrace = frames;
  breadcrumbs = breadcrumbs (lineage m.scopes scope);
  tags = tags (lineage m.scopes scope) (build_tags m.build);
  extra = if ltb 0 repeats then insert (codes "repeats_dropped") (number repeats) [] else [];
  memory = m.memory;
  fingerprint = [];
  occurred_at = instant m.now;
}

-- newEvent
unfoldable pub new_event :
    Moment → Client → Option ℕ → Level → Text → Text → List Frame → Client × Option Event
unfolding signature build_event
new_event m c scope level event_type message frames =
    let marked = mark_in_app c.options.in_app_prefixes m.build frames in
    let culprit = culprit_of marked in
    let (dedupe, repeats, send) = admit c.dedupe (signature event_type culprit message) m.now in
    let c' = record c { dedupe = dedupe } in
    if not send
    then (record c' { stats = record c.stats { duplicates = suc c.stats.duplicates } }, none)
    else let (source, read) =
        add_context m.fsys m.files c.source marked c.options.source_context_lines in
      (
        record c' { source = source },
        some (build_event m c scope level event_type message read culprit repeats),
      )

-- if modify != nil { modify(event) }
abbrev pub modify_event : Event → Option EventModifier → Event
modify_event event none = event
modify_event event (some modify) = modify event

-- The tail of finish, on what BeforeSend returned.
unfoldable pub hand_over : Client → Option Event → Client × Text
hand_over c none =
    (record c { stats = record c.stats { before_send = suc c.stats.before_send } }, [])
hand_over c (some event) = (record c { sent = c.sent ++ event ∷ [] }, event.event_id)

abbrev pub before_send_of : Option (Event → Option Event) → Event → Option Event
before_send_of none event = some event
before_send_of (some hook) event = hook event

-- finish; a nil event is not sent.
unfoldable pub finish : Client → Option Event → List (Option EventModifier) → Client × Text
unfolding hand_over
finish c none modifiers = (c, [])
finish c (some event) modifiers =
    hand_over c (before_send_of c.options.before_send (foldl modify_event event modifiers))
