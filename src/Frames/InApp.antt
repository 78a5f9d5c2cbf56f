-- ===== src/Frames/InApp.antt =====
-- stack-trace.go and culpritOf of client.go: which frames count as the application's.
use bugfree_go_sdk.Base.{
  All, Bool-cases, List, Option, Text, [], ap, contains, false, has_prefix, inl, inr, is_empty, not,
  refl, some, true, ◌&&◌, ◌++◌, ◌||◌, ◌↔◌, ◌∷◌, ◌≡◌, ◌⊎◌,
}
use bugfree_go_sdk.Build.{BuildInfo}
use bugfree_go_sdk.Frames.{
  Frame, culprit_of, first_function, first_in_app, is_in_app, matches_prefix,
}

abbrev pub Hits : Text → Frame → Type 0
Hits prefix frame =
    (is_empty prefix ≡ false)
    × ((has_prefix frame.function prefix || contains frame.file prefix) ≡ true)

-- Some prefix of the list is not empty and stands at the start of the function or in the file.
abbrev pub SomeHits : List Text → Frame → Type 0
SomeHits [] frame = ⊥
SomeHits (prefix ∷ rest) frame = Hits prefix frame ⊎ SomeHits rest frame

matches_prefix-SomeHits :
    (prefixes : List Text) (frame : Frame)
    → (matches_prefix prefixes frame ≡ true) ↔ SomeHits prefixes frame
unfolding matches_prefix
matches_prefix-SomeHits [] frame = (λ h. cc, λ h. absurd h)
matches_prefix-SomeHits (prefix ∷ rest) frame =
    let ih = matches_prefix-SomeHits rest frame in
    elim (Bool-cases (is_empty prefix)) [
      | inl e ↦ rw e (λ h. inr (ih.0 h), elim [ inl hit ↦ cc | inr later ↦ ih.1 later ])
      | inr e ↦ elim (Bool-cases (has_prefix frame.function prefix || contains frame.file prefix)) [
        | inl hit ↦ rw (e, hit) (λ h. inl (refl, refl), λ h. refl)
        | inr miss ↦
            rw (e, miss) (λ h. inr (ih.0 h), elim [ inl hit ↦ cc | inr later ↦ ih.1 later ])
      ]
    ]

-- With prefixes given, a frame is the application's exactly when one that is not empty starts its
-- function's name or stands in its file's path: the build information is not asked.
pub is_in_app-prefixes :
    (prefix : Text) (rest : List Text) (build : BuildInfo) (frame : Frame)
    → (is_in_app (prefix ∷ rest) build frame ≡ true) ↔ SomeHits (prefix ∷ rest) frame
unfolding is_in_app
is_in_app-prefixes prefix rest build frame = matches_prefix-SomeHits (prefix ∷ rest) frame

abbrev pub Named : Frame → Type 0
Named frame = (frame.in_app && not (is_empty frame.function)) ≡ true

first_in_app-append :
    (above below : List Frame) (frame : Frame)
    → All (λ other. (other.in_app && not (is_empty other.function)) ≡ false) above
    → Named frame
    → first_in_app (above ++ frame ∷ below) ≡ some frame.function
unfolding first_in_app
first_in_app-append [] below frame h n = rw n
first_in_app-append (other ∷ above) below frame (o, h) n =
    rw o (first_in_app-append above below frame h n)

-- The culprit is the first application frame that has a name, whatever stands above it and below.
pub culprit_of-first :
    (above below : List Frame) (frame : Frame)
    → All (λ other. (other.in_app && not (is_empty other.function)) ≡ false) above
    → Named frame
    → culprit_of (above ++ frame ∷ below) ≡ frame.function
unfolding culprit_of
culprit_of-first above below frame h n =
    ap (λ (o : Option Text). first_function o (above ++ frame ∷ below))
      (first_in_app-append above below frame h n)
