-- ===== src/Frames/Trim.antt =====
-- stack-trace.go: what is left of a stack.
use bugfree_go_sdk.Base.{
  All, Bool, Bool-cases, List, [], ap, arith, false, if◌then◌else◌, inl, inr, keep, not, refl, true,
  ◌++◌, ◌∙◌, ◌∷◌, ◌≡◌,
}
use bugfree_go_sdk.Frames.{Frame, after_panic, is_noise, is_panic, trim_runtime_frames}

abbrev pub NoPanic : List Frame → Type 0
NoPanic = All (λ frame. is_panic frame ≡ false)

after_panic-none : (kept frames : List Frame) → NoPanic frames → after_panic kept frames ≡ kept
unfolding after_panic
after_panic-none kept [] h = refl
after_panic-none kept (frame ∷ rest) (h, hs) = rw h (after_panic-none kept rest hs)

after_panic-last :
    (kept above below : List Frame) (panic : Frame)
    → is_panic panic ≡ true
    → NoPanic below
    → after_panic kept (above ++ panic ∷ below) ≡ below
unfolding after_panic
after_panic-last kept [] below panic p h =
    ap (λ (b : Bool). after_panic (if b then below else kept) below) p
    ∙ after_panic-none below below h
after_panic-last kept (frame ∷ above) below panic p h =
    after_panic-last (if is_panic frame then above ++ panic ∷ below else kept) above below panic p h

-- Everything up to the last frame of the panic machinery goes, whatever panics stand above it, and
-- of the frames below it those of the runtime go too.
pub trim_runtime_frames-panic :
    (above below : List Frame) (panic : Frame)
    → is_panic panic ≡ true
    → NoPanic below
    → trim_runtime_frames (above ++ panic ∷ below) ≡ keep (λ frame. not (is_noise frame)) below
unfolding trim_runtime_frames
trim_runtime_frames-panic above below panic p h =
    ap (keep (λ (frame : Frame). not (is_noise frame)))
      (after_panic-last (above ++ panic ∷ below) above below panic p h)

-- Every stack either has no panic in it, or splits at its last one.
pub data LastPanic : List Frame → Type 0 where
  calm : {frames : List Frame} → NoPanic frames → LastPanic frames
  panicked :
      {frames : List Frame} (above below : List Frame) (panic : Frame)
      → frames ≡ above ++ panic ∷ below
      → is_panic panic ≡ true
      → NoPanic below
      → LastPanic frames

LastPanic-cons : (frame : Frame) (rest : List Frame) → LastPanic rest → LastPanic (frame ∷ rest)
LastPanic-cons frame rest (calm h) = elim (Bool-cases (is_panic frame)) [
  | inl p ↦ panicked [] rest frame refl p h
  | inr p ↦ calm (p, h)
]
LastPanic-cons frame rest (panicked above below panic e p h) =
    panicked (frame ∷ above) below panic (ap (λ (l : List Frame). frame ∷ l) e) p h

last_panic : (frames : List Frame) → LastPanic frames
last_panic [] = calm tt
last_panic (frame ∷ rest) = LastPanic-cons frame rest (last_panic rest)

keep-passes :
    (p : Frame → Bool) (frames : List Frame) → All (λ frame. p frame ≡ true) (keep p frames)
unfolding keep
keep-passes p [] = tt
keep-passes p (frame ∷ rest) = ground (arith, keep-passes p rest)

keep-All {ℓ} :
    (P : Frame → Type ℓ) (p : Frame → Bool) (frames : List Frame)
    → All P frames
    → All P (keep p frames)
unfolding keep
keep-All P p [] h = tt
keep-All P p (frame ∷ rest) (h, hs) = elim (Bool-cases (p frame)) [
  | inl e ↦ rw e (h, keep-All P p rest hs)
  | inr e ↦ rw e (keep-All P p rest hs)
]

-- No frame of the result belongs to the panic machinery, and none to the runtime, for every stack.
pub trim_runtime_frames_clean :
    (frames : List Frame)
    → NoPanic (trim_runtime_frames frames)
      × All (λ frame. not (is_noise frame) ≡ true) (trim_runtime_frames frames)
trim_runtime_frames_clean frames = (
  go (last_panic frames),
  unfold trim_runtime_frames in keep-passes _ (after_panic frames frames),
)
  where
    go : LastPanic frames → NoPanic (trim_runtime_frames frames)
    go (calm h) =
        unfold trim_runtime_frames in
        rw (after_panic-none frames frames h)
          (keep-All (λ frame. is_panic frame ≡ false) _ frames h)
    go (panicked above below panic e p h) =
        rw (e, trim_runtime_frames-panic above below panic p h)
          (keep-All (λ frame. is_panic frame ≡ false) _ below h)
