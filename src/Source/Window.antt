-- ===== src/Source/Window.antt =====
-- source-context.go, sliceContext: which lines are shown.
use bugfree_go_sdk.Base.{
  List, Text, [], ap, arith, drop, false, get_elem?, length, ltb, max, min, refl, some, suc, take,
  zero, ℕ, ◌+◌, ◌-◌, ◌<◌, ◌==◌, ◌||◌, ◌∷◌, ◌≡◌, ◌≤◌,
}
use bugfree_go_sdk.Source.{number_lines, slice_context, trim_cr}
use bugfree_go_sdk.Frames.{ContextLine}

get_elem?-inside {ℓ} :
    {A : Type ℓ} (xs : List A) (i : ℕ) → i < length xs → (x : A) × (get_elem? xs i ≡ some x)
get_elem?-inside [] i h = absurd (omega arith)
get_elem?-inside (x ∷ xs) zero h = (x, refl)
get_elem?-inside (x ∷ xs) (suc i) h = get_elem?-inside xs i (omega arith)

drop-get_elem? {ℓ} :
    {A : Type ℓ} (xs : List A) (i : ℕ) (x : A)
    → get_elem? xs i ≡ some x
    → drop i xs ≡ x ∷ drop (suc i) xs
drop-get_elem? [] i x h = cc
drop-get_elem? (y ∷ xs) zero x h = cc h
drop-get_elem? (y ∷ xs) (suc i) x h = drop-get_elem? xs i x h

-- Lines of text under consecutive numbers, without the carriage returns at their ends.
abbrev pub with_numbers : ℕ → List Text → List ContextLine
with_numbers number [] = []
with_numbers number (l ∷ ls) =
    record { line = number; source = trim_cr l } ∷ with_numbers (suc number) ls

number_lines-with_numbers :
    (source : List Text) (number left : ℕ)
    → 0 < number
    → number + left ≤ length source + 1
    → number_lines source number left ≡ with_numbers number (take left (drop (number - 1) source))
unfolding number_lines
number_lines-with_numbers source number zero h fits = refl
number_lines-with_numbers source number (suc left) h fits =
    let (l, e) = get_elem?-inside source (number - 1) (omega arith) in
    let next : suc number - 1 ≡ suc (number - 1) = omega arith in
    let rest = number_lines-with_numbers source (suc number) left (omega arith) (omega arith) in
    rw (e, drop-get_elem? source (number - 1) l e)
      (ap (λ (more : List ContextLine). record { line = number; source = trim_cr l } ∷ more)
        (rw next at rest))

abbrev pub first_line : ℕ → ℕ → ℕ
first_line line around = max (line - around) 1

abbrev pub last_line : List Text → ℕ → ℕ → ℕ
last_line source line around = min (line + around) (length source)

-- For a line inside the file the context is exactly the file's lines from `around` above it, or
-- the first, to `around` below it, or the last, each with its own number and its text without
-- carriage returns at its end. The failing line is among them.
pub slice_context_exact :
    (source : List Text) (line around : ℕ)
    → 0 < line
    → line ≤ length source
    → (slice_context source line around
        ≡ with_numbers (first_line line around) (
            take
              (last_line source line around + 1 - first_line line around)
              (drop (first_line line around - 1) source)))
      × (first_line line around ≤ line)
      × (line ≤ last_line source line around)
unfolding slice_context
slice_context_exact source line around h k =
    let inside : ((line == 0) || ltb (length source) line) ≡ false = ground arith in
    let start = first_line line around in
    let size = last_line source line around + 1 - start in
    rw inside (
      number_lines-with_numbers source start size (omega arith) (omega arith),
      omega arith,
      omega arith,
    )
