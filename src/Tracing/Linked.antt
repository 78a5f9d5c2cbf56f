-- ===== src/Tracing/Linked.antt =====
-- tracing.go: the children of a transaction are its own finished spans, whatever a program does.
use bugfree_go_sdk.Base.{
  All, All-append, Bool-cases, List, Option, [], ap, arith, get_elem?, get_elem?-append,
  get_elem?-lt, get_elem?-modify_ne, get_elem?-modify_self, inl, inr, length, ltb, modify, none,
  not, refl, some, suc, sym, true, zero, ℕ, ◌&&◌, ◌++◌, ◌-◌, ◌==◌, ◌∙◌, ◌∷◌, ◌≡◌, ◌⊎◌,
}
use bugfree_go_sdk.Scope.{child}
use bugfree_go_sdk.Tracing.{
  Span, Spans, add_child, after_finish, change_span, finish_found, finish_span, max_child_spans,
  with_http_status,
}

-- A finished span of the transaction at a place.
abbrev pub IsChildAt : Spans → ℕ → ℕ → Type 0
IsChildAt spans i j =
    (child : Span) × (get_elem? spans j ≡ some child)
    × (child.finished ≡ true)
    × (child.transaction ≡ i)

abbrev pub IsLinked : Spans → Type 0
IsLinked spans =
    (i : ℕ) (span : Span) → get_elem? spans i ≡ some span → All (IsChildAt spans i) span.children

-- Every child in one store is one in another.
abbrev Keeps : Spans → Spans → Type 0
Keeps spans spans' = (i j : ℕ) → IsChildAt spans i j → IsChildAt spans' i j

All-Keeps :
    (spans spans' : Spans) (i : ℕ) (children : List ℕ)
    → Keeps spans spans'
    → All (IsChildAt spans i) children
    → All (IsChildAt spans' i) children
All-Keeps spans spans' i [] keeps h = tt
All-Keeps spans spans' i (j ∷ rest) keeps (here, h) =
    (keeps i j here, All-Keeps spans spans' i rest keeps h)

found_append :
    (spans : Spans) (s : Span) (i : ℕ) (span : Span)
    → get_elem? (spans ++ s ∷ []) i ≡ some span
    → (get_elem? spans i ≡ some span) ⊎ (s ≡ span)
found_append [] s zero span h = inr (cc h)
found_append [] s (suc i) span h = absurd (no h)
  where
    no : none ≡ some span → ⊥
    no e = cc e
found_append (x ∷ spans) s zero span h = inl h
found_append (x ∷ spans) s (suc i) span h = found_append spans s i span h

append-Keeps : (spans : Spans) (s : Span) → Keeps spans (spans ++ s ∷ [])
append-Keeps spans s i j (child, at, finished, transaction) = (
  child,
  get_elem?-append spans (s ∷ []) j (get_elem?-lt spans j child at) ∙ at,
  finished,
  transaction,
)

pub append-IsLinked :
    (spans : Spans) (s : Span) → s.children ≡ [] → IsLinked spans → IsLinked (spans ++ s ∷ [])
append-IsLinked spans s childless h i span at = elim (found_append spans s i span at) [
  | inl old ↦
      All-Keeps spans (spans ++ s ∷ []) i span.children (append-Keeps spans s) (h i span old)
  | inr same ↦ rw (sym same, childless) tt
]

-- A change of a span that leaves it in its transaction, and finished if it was.
abbrev pub Tame : (Span → Span) → Type 0
Tame f =
    (s : Span) → ((f s).transaction ≡ s.transaction) × (s.finished ≡ true → (f s).finished ≡ true)

found_modify :
    (f : Span → Span) (spans : Spans) (k i : ℕ) (span : Span)
    → get_elem? (modify f spans k) i ≡ some span
    → (old : Span) × (get_elem? spans i ≡ some old) × ((old ≡ span) ⊎ ((f old ≡ span) × (k ≡ i)))
found_modify f [] k i span h = absurd (no h)
  where
    no : none ≡ some span → ⊥
    no e = cc e
found_modify f (x ∷ spans) zero zero span h = (x, refl, inr (cc h, refl))
found_modify f (x ∷ spans) zero (suc i) span h = (span, h, inl refl)
found_modify f (x ∷ spans) (suc k) zero span h = (x, refl, inl (cc h))
found_modify f (x ∷ spans) (suc k) (suc i) span h =
    let (old, at, how) = found_modify f spans k i span h in
    (old, at, elim how [ inl same ↦ inl same | inr (new, here) ↦ inr (new, ap suc here) ])

modify-Keeps : (f : Span → Span) (spans : Spans) (k : ℕ) → Tame f → Keeps spans (modify f spans k)
modify-Keeps f spans k tame i j (child, at, finished, transaction) = elim (Bool-cases (j == k)) [
  | inl e ↦ (f child, here (ground arith), (tame child).1 finished, (tame child).0 ∙ transaction)
  | inr e ↦ (child, get_elem?-modify_ne f spans k j e ∙ at, finished, transaction)
]
  where
    here : j ≡ k → get_elem? (modify f spans k) j ≡ some (f child)
    here e = rw (sym e) (get_elem?-modify_self f spans j child at)

modify-IsLinked :
    (f : Span → Span) (spans : Spans) (k : ℕ)
    → Tame f
    → ((old : Span)
        → get_elem? spans k ≡ some old
        → All (IsChildAt (modify f spans k) k) (f old).children)
    → IsLinked spans
    → IsLinked (modify f spans k)
modify-IsLinked f spans k tame new h i span at =
    let (old, was, how) = found_modify f spans k i span at in
    elim how [
      | inl same ↦ rw (sym same) (
          All-Keeps spans (modify f spans k) i old.children (modify-Keeps f spans k tame)
            (h i old was))
      | inr (changed, here) ↦ rw (sym changed, sym here) (new old (rw here was))
    ]

-- A tame change that leaves the children alone.
pub change-IsLinked :
    (f : Span → Span) (spans : Spans) (s : Option ℕ)
    → Tame f
    → ((x : Span) → (f x).children ≡ x.children)
    → IsLinked spans
    → IsLinked (change_span f spans s)
change-IsLinked f spans none tame same h = h
change-IsLinked f spans (some k) tame same h =
    modify-IsLinked f spans k tame
      (λ old at. rw (same old) (
        All-Keeps spans (modify f spans k) k old.children (modify-Keeps f spans k tame)
          (h k old at)))
      h

add_child-Tame : (i : ℕ) → Tame (add_child i)
unfolding add_child
add_child-Tame i s = ground arith

add_child-new :
    (spans : Spans) (i k : ℕ) (old : Span)
    → IsChildAt spans k i
    → All (IsChildAt spans k) old.children
    → All (IsChildAt spans k) (add_child i old).children
unfolding add_child
add_child-new spans i k old here h =
    elim (Bool-cases (not old.finished && ltb (length old.children) max_child_spans)) [
      | inl e ↦ rw e (All-append (IsChildAt spans k) old.children (i ∷ []) h (here, tt))
      | inr e ↦ rw e h
    ]

add_child-IsLinked :
    (spans : Spans) (i k : ℕ)
    → IsChildAt spans k i
    → IsLinked spans
    → IsLinked (modify (add_child i) spans k)
add_child-IsLinked spans i k here h =
    modify-IsLinked (add_child i) spans k (add_child-Tame i)
      (λ old at.
        let keeps = modify-Keeps (add_child i) spans k (add_child-Tame i) in
        add_child-new (modify (add_child i) spans k) i k old (keeps k i here)
          (All-Keeps spans (modify (add_child i) spans k) k old.children keeps (h k old at)))
      h

-- What Finish writes into its span.
abbrev marked : ℕ → Span → Span
marked now s = record s { finished = true; duration = now - s.start }

finish_found-IsLinked :
    (spans : Spans) (i now : ℕ) (o : Option Span)
    → get_elem? spans i ≡ o
    → IsLinked spans
    → IsLinked (finish_found spans i now o).0
unfolding finish_found after_finish
finish_found-IsLinked spans i now none at h = h
finish_found-IsLinked spans i now (some span) at h = elim (Bool-cases span.finished) [
  | inl over ↦ rw over h
  | inr going ↦ rw going (elim (Bool-cases (span.transaction == i)) [
    | inl root ↦ elim (Bool-cases span.sampled) [
      | inl yes_sampled ↦ rw (root, yes_sampled) linked
      | inr not_sampled ↦ rw (root, not_sampled) linked
    ]
    | inr other ↦ rw other (
        add_child-IsLinked (modify (marked now) spans i) i span.transaction
          (marked now span, get_elem?-modify_self (marked now) spans i span at, refl, refl) linked)
  ])
]
  where
    linked : IsLinked (modify (marked now) spans i)
    linked = change-IsLinked (marked now) spans (some i) (λ s. (refl, λ e. refl)) (λ s. refl) h

pub finish_span-IsLinked :
    (spans : Spans) (s : Option ℕ) (now : ℕ) → IsLinked spans → IsLinked (finish_span spans s now).0
unfolding finish_span
finish_span-IsLinked spans none now h = h
finish_span-IsLinked spans (some i) now h =
    finish_found-IsLinked spans i now (get_elem? spans i) refl h

pub with_http_status-Tame :
    (code : ℕ)
    → Tame (with_http_status code) × ((x : Span) → (with_http_status code x).children ≡ x.children)
with_http_status-Tame code = (λ s. ground arith, λ x. ground arith)
