-- ===== src/Frames/Tests.antt =====
-- Runs on the stack of a panic in an application.
use bugfree_go_sdk.Base.{
  Bool, Text, [], codes, false, has_prefix, keep, refl, text_eq, true, ◌∷◌, ◌≡◌,
}
use bugfree_go_sdk.Frames.{Frame, trim_runtime_frames}

abbrev frame_in : Text → Bool → Frame
frame_in function in_app = record {
  function = function;
  file = codes "/src/main.go";
  line = 3;
  in_app = in_app;
  path = [];
  package_path = [];
  context = [];
  vars = [];
}

abbrev deferred : Frame
deferred = frame_in (codes "main.cleanup") true

abbrev panicking : Frame
panicking = frame_in (codes "runtime.gopanic") false

abbrev failing : Frame
failing = frame_in (codes "main.work") true

trimmed_panic : trim_runtime_frames (deferred ∷ panicking ∷ failing ∷ []) ≡ failing ∷ []
unfolding trim_runtime_frames keep text_eq has_prefix
trimmed_panic = refl
