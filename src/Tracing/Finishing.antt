-- ===== src/Tracing/Finishing.antt =====
-- tracing.go, (*Span).Finish: what a second call does, and what a finished span is safe from.
use bugfree_go_sdk.Base.{
  All, Bool-cases, Option, [], ap, arith, false, get_elem?, get_elem?-modify_ne,
  get_elem?-modify_self, inl, inr, length, length-append, ltb, modify, none, not, refl, some, suc,
  sym, true, zero, ℕ, ◌&&◌, ◌-◌, ◌<◌, ◌==◌, ◌∙◌, ◌∷◌, ◌≡◌, ◌≤◌,
}
use bugfree_go_sdk.Tracing.{
  Report, Span, Spans, add_child, after_finish, finish_found, finish_span, max_child_spans,
  no_report,
}

true_not_false : true ≡ false → ⊥
true_not_false h = cc h

some-inj : {x y : Span} → some x ≡ some y → x ≡ y
some-inj h = cc h

-- What Finish leaves at a place.
abbrev pub done : ℕ → Span → Span
done now s = record s { finished = true; duration = now - s.start }

-- The spans and the report after the second of two calls.
abbrev pub again : Spans × Report → ℕ → ℕ → Spans × Report
unfolding finish_span
again p i now = finish_span p.0 (some i) now

-- A span of which the children are bounded.
abbrev pub IsCapped : Span → Type 0
IsCapped span = length span.children ≤ max_child_spans

add_child-IsCapped : (child : ℕ) (span : Span) → IsCapped span → IsCapped (add_child child span)
unfolding add_child
add_child-IsCapped child span h =
    elim (Bool-cases (not span.finished && ltb (length span.children) max_child_spans)) [
      | inl e ↦ rw e (omega (arith, length-append span.children (child ∷ []), room e))
      | inr e ↦ rw e h
    ]
  where
    room :
        (not span.finished && ltb (length span.children) max_child_spans) ≡ true
        → length span.children < max_child_spans
    room e = ground arith

add_child-finished : (child : ℕ) (span : Span) → span.finished ≡ true → add_child child span ≡ span
unfolding add_child
add_child-finished child span h = rw h

All-modify :
    (f : Span → Span) (spans : Spans) (i : ℕ)
    → ((s : Span) → IsCapped s → IsCapped (f s))
    → All IsCapped spans
    → All IsCapped (modify f spans i)
All-modify f [] i keeps h = h
All-modify f (s ∷ spans) zero keeps (p, h) = (keeps s p, h)
All-modify f (s ∷ spans) (suc i) keeps (p, h) = (p, All-modify f spans i keeps h)

-- A change that leaves finished spans alone leaves each of them in its place.
modify-frozen :
    (f : Span → Span) (spans : Spans) (i j : ℕ) (span : Span)
    → ((s : Span) → s.finished ≡ true → f s ≡ s)
    → get_elem? spans j ≡ some span
    → span.finished ≡ true
    → get_elem? (modify f spans i) j ≡ some span
modify-frozen f spans i j span same at h = elim (Bool-cases (j == i)) [
  | inl e ↦ here (ground arith)
  | inr e ↦ get_elem?-modify_ne f spans i j e ∙ at
]
  where
    here : j ≡ i → get_elem? (modify f spans i) j ≡ some span
    here e = rw (sym e) (get_elem?-modify_self f spans j span at ∙ ap some (same span h))

after_finish-frozen :
    (spans : Spans) (i : ℕ) (s : Span) (j : ℕ) (span : Span)
    → get_elem? spans j ≡ some span
    → span.finished ≡ true
    → get_elem? ((after_finish spans i s).0) j ≡ some span
unfolding after_finish
after_finish-frozen spans i s j span at h = elim (Bool-cases (s.transaction == i)) [
  | inl e ↦ elim (Bool-cases s.sampled) [ inl k ↦ rw (e, k) at | inr k ↦ rw (e, k) at ]
  | inr e ↦
      rw e (modify-frozen (add_child i) spans s.transaction j span (add_child-finished i) at h)
]

after_finish-IsCapped :
    (spans : Spans) (i : ℕ) (s : Span)
    → All IsCapped spans
    → All IsCapped (after_finish spans i s).0
unfolding after_finish
after_finish-IsCapped spans i s h = elim (Bool-cases (s.transaction == i)) [
  | inl e ↦ elim (Bool-cases s.sampled) [ inl k ↦ rw (e, k) h | inr k ↦ rw (e, k) h ]
  | inr e ↦ rw e (All-modify (add_child i) spans s.transaction (add_child-IsCapped i) h)
]

-- The first part of Finish, likewise.
finish_found-frozen :
    (spans : Spans) (i now : ℕ) (found : Option Span)
    → get_elem? spans i ≡ found
    → (j : ℕ) (span : Span) → get_elem? spans j ≡ some span
    → span.finished ≡ true
    → get_elem? (finish_found spans i now found).0 j ≡ some span
unfolding finish_found
finish_found-frozen spans i now none e j span at h = at
finish_found-frozen spans i now (some s) e j span at h = elim (Bool-cases s.finished) [
  | inl k ↦ rw k at
  | inr k ↦ rw k (
      after_finish-frozen (modify (done now) spans i) i s j span
        (get_elem?-modify_ne (done now) spans i j (apart k) ∙ at) h)
]
  where
    same : j ≡ i → s ≡ span
    same q = some-inj (sym e ∙ (rw (sym q) at))

    apart : s.finished ≡ false → (j == i) ≡ false
    apart k = elim (Bool-cases (j == i)) [
      | inl q ↦
          absurd (
            true_not_false
              (sym h ∙ (sym (ap (λ (x : Span). x.finished) (same (ground arith))) ∙ k)))
      | inr q ↦ q
    ]

-- A second call of Finish on a span, at any later moment, changes no span and reports nothing.
pub again-finish_span :
    (spans : Spans) (i now now' : ℕ)
    → again (finish_span spans (some i) now) i now'
      ≡ ((finish_span spans (some i) now).0, no_report)
unfolding finish_span finish_found
again-finish_span spans i now now' = go (get_elem? spans i) refl
  where
    go :
        (found : Option Span)
        → get_elem? spans i ≡ found
        → again (finish_found spans i now found) i now'
          ≡ ((finish_found spans i now found).0, no_report)
    go none e = rw e
    go (some s) e = elim (Bool-cases s.finished) [
      | inl k ↦ rw (k, e, k)
      | inr k ↦ rw (k, still) refl
    ]
      where
        still : get_elem? (after_finish (modify (done now) spans i) i s).0 i ≡ some (done now s)
        still =
            after_finish-frozen (modify (done now) spans i) i s i (done now s)
              (get_elem?-modify_self (done now) spans i s e) refl

-- A span that has finished stays as it is, whatever other span finishes: no child is added to it.
pub finish_span_frozen :
    (spans : Spans) (i now j : ℕ) (span : Span)
    → get_elem? spans j ≡ some span
    → span.finished ≡ true
    → get_elem? ((finish_span spans (some i) now).0) j ≡ some span
unfolding finish_span
finish_span_frozen spans i now j span at h =
    finish_found-frozen spans i now (get_elem? spans i) refl j span at h

-- A transaction never keeps more than 1000 child spans, whichever span finishes.
pub finish_span-IsCapped :
    (spans : Spans) (s : Option ℕ) (now : ℕ)
    → All IsCapped spans
    → All IsCapped ((finish_span spans s now).0)
unfolding finish_span finish_found
finish_span-IsCapped spans none now h = h
finish_span-IsCapped spans (some i) now h = go (get_elem? spans i)
  where
    go : (found : Option Span) → All IsCapped (finish_found spans i now found).0
    go none = h
    go (some s) = elim (Bool-cases s.finished) [
      | inl k ↦ rw k h
      | inr k ↦ rw k (
          after_finish-IsCapped (modify (done now) spans i) i s
            (All-modify (done now) spans i (λ s p. p) h))
    ]

-- After Finish a span has finished.
pub finish_span_finishes :
    (spans : Spans) (i now : ℕ) (s : Span)
    → get_elem? spans i ≡ some s
    → (s' : Span) × (get_elem? (finish_span spans (some i) now).0 i ≡ some s')
      × (s'.finished ≡ true)
unfolding finish_span finish_found
finish_span_finishes spans i now s e = elim (Bool-cases s.finished) [
  | inl k ↦ (s, ap (λ (r : Spans × Report). get_elem? r.0 i) (twice k) ∙ e, k)
  | inr k ↦ (
    done now s,
    ap (λ (r : Spans × Report). get_elem? r.0 i) (once k)
        ∙ after_finish-frozen (modify (done now) spans i) i s i (done now s)
            (get_elem?-modify_self (done now) spans i s e) refl,
    refl,
  )
]
  where
    twice : s.finished ≡ true → finish_found spans i now (get_elem? spans i) ≡ (spans, no_report)
    twice k = rw (e, k)

    once :
        s.finished ≡ false
        → finish_found spans i now (get_elem? spans i)
          ≡ after_finish (modify (done now) spans i) i s
    once k = rw (e, k)
