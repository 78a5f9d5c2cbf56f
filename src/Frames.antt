-- ===== src/Frames.antt =====
-- stack-trace.go and the frame types of event.go. The runtime's symbol table is a parameter:
-- `expand` gives the frames of a program counter, several where calls were inlined.
mod Tests
pub mod Trim
pub mod InApp
use bugfree_go_sdk.Base.{
  Bool, List, Map, Option, Text, [], codes, contains, drop, false, has_prefix, if◌then◌else◌,
  is_empty, keep, map, none, not, some, take, text_eq, true, ℕ, ◌&&◌, ◌++◌, ◌==◌, ◌||◌, ◌∷◌,
}
use bugfree_go_sdk.Build.{BuildInfo, owns_function, package_of, repository_path}
use bugfree_go_sdk.Errors.{Err, error_callers}

-- type ContextLine struct
pub record ContextLine : Type 0 where
  pub line : ℕ
  pub source : Text

-- type Frame struct
pub record Frame : Type 0 where
  pub function : Text
  pub file : Text
  pub line : ℕ
  pub in_app : Bool
  pub path : Text
  pub package_path : Text
  pub context : List ContextLine
  pub vars : Map Text

-- A frame as runtime.CallersFrames gives it.
pub record RawFrame : Type 0 where
  pub function : Text
  pub file : Text
  pub line : ℕ

-- maxFrames
abbrev pub max_frames : ℕ
max_frames = 40

abbrev pub frame_of : RawFrame → Frame
frame_of r = record {
  function = r.function;
  file = r.file;
  line = r.line;
  in_app = false;
  path = [];
  package_path = package_of r.function;
  context = [];
  vars = [];
}

-- The loop of captureStack and of framesFrom.
unfoldable pub resolve : List RawFrame → List Frame
resolve [] = []
resolve (r ∷ rest) =
    if not (is_empty r.function) || not (is_empty r.file)
    then frame_of r ∷ resolve rest
    else resolve rest

-- isNoise
unfoldable pub is_noise : Frame → Bool
is_noise frame =
    has_prefix frame.function (codes "runtime.")
    || has_prefix frame.function (codes "runtime/debug.")

-- frame.Function == "runtime.gopanic" || frame.Function == "panic"
unfoldable pub is_panic : Frame → Bool
is_panic frame =
    text_eq frame.function (codes "runtime.gopanic") || text_eq frame.function (codes "panic")

-- frames[start:], where start is the place after the last panic; `kept` is frames[start:] so far.
unfoldable pub after_panic : List Frame → List Frame → List Frame
unfolding is_panic
after_panic kept [] = kept
after_panic kept (frame ∷ rest) = after_panic (if is_panic frame then rest else kept) rest

-- trimRuntimeFrames
unfoldable pub trim_runtime_frames : List Frame → List Frame
unfolding after_panic is_noise
trim_runtime_frames frames = keep (λ frame. not (is_noise frame)) (after_panic frames frames)

module _ (expand : ℕ → List RawFrame) where
  -- runtime.CallersFrames(callers), frame by frame
  unfoldable pub callers_frames : List ℕ → List RawFrame
  callers_frames [] = []
  callers_frames (pc ∷ pcs) = expand pc ++ callers_frames pcs

  -- framesFrom
  unfoldable pub frames_from : List ℕ → List Frame
  unfolding callers_frames resolve trim_runtime_frames
  frames_from [] = []
  frames_from (pc ∷ pcs) = trim_runtime_frames (resolve (callers_frames (pc ∷ pcs)))

  -- captureStack, where `stack` holds the program counters from its caller outwards.
  unfoldable pub capture_stack : ℕ → List ℕ → List Frame
  unfolding frames_from
  capture_stack skip stack = frames_from (take max_frames (drop skip stack))

-- errorFrames; the empty list is nil.
abbrev pub error_frames : (ℕ → List RawFrame) → Err → List Frame
error_frames expand err = frames_from expand (error_callers err)

-- file[:index of the first "/"], or the whole file: strings.SplitN(file, "/", 2)[0]
unfoldable pub first_element : Text → Text
first_element [] = []
first_element (c ∷ s) = if c == b'/' then [] else c ∷ first_element s

-- inAppByPath
unfoldable pub in_app_by_path : Frame → Bool
unfolding first_element
in_app_by_path frame =
    let file = frame.file in
    if is_empty file
    then false
    else if contains file (codes "@v")
        || (not (has_prefix file (codes "/")) && not (contains (first_element file) (codes ".")))
    then false
    else if contains file (codes "/pkg/mod/")
        || (contains file (codes "/go/src/runtime/")
            || (contains file (codes "/libexec/src/")
                || (contains file (codes "/usr/local/go/src/")
                    || has_prefix frame.function (codes "runtime."))))
    then false
    else true

-- for _, prefix := range c.options.InAppPrefixes
unfoldable pub matches_prefix : List Text → Frame → Bool
matches_prefix [] frame = false
matches_prefix (prefix ∷ rest) frame =
    if is_empty prefix
    then matches_prefix rest frame
    else if has_prefix frame.function prefix || contains frame.file prefix
    then true
    else matches_prefix rest frame

-- isInApp
unfoldable pub is_in_app : List Text → BuildInfo → Frame → Bool
unfolding matches_prefix in_app_by_path
is_in_app [] build frame =
    if not (is_empty build.module_path)
    then owns_function build frame.function
    else in_app_by_path frame
is_in_app (prefix ∷ rest) build frame = matches_prefix (prefix ∷ rest) frame

-- The body of markInApp's loop.
unfoldable pub mark_frame : List Text → BuildInfo → Frame → Frame
unfolding is_in_app
mark_frame prefixes build frame =
    if is_in_app prefixes build frame
    then record frame { in_app = true; path = repository_path build frame.function frame.file }
    else record frame { in_app = false }

-- markInApp
unfoldable pub mark_in_app : List Text → BuildInfo → List Frame → List Frame
unfolding mark_frame
mark_in_app prefixes build = map (mark_frame prefixes build)

-- The loop of culpritOf.
unfoldable pub first_in_app : List Frame → Option Text
first_in_app [] = none
first_in_app (frame ∷ rest) =
    if frame.in_app && not (is_empty frame.function) then some frame.function else first_in_app rest

-- The tail of culpritOf, on what its loop found.
unfoldable pub first_function : Option Text → List Frame → Text
first_function (some function) frames = function
first_function none [] = []
first_function none (frame ∷ rest) = frame.function

-- culpritOf (client.go)
unfoldable pub culprit_of : List Frame → Text
unfolding first_in_app first_function
culprit_of frames = first_function (first_in_app frames) frames
