-- ===== src/Steps/Finished.antt =====
-- http-breadcrumbs.go, RoundTrip: the span of a request in its transaction.
use bugfree_go_sdk.Base.{
  Bool-cases, Option, Text, [], ap, arith, codes, false, get_elem?, get_elem?-append,
  get_elem?-last, get_elem?-lt, get_elem?-modify_ne, get_elem?-modify_self, has_prefix, inl, inr,
  insert, leb, length, ltb, modify, not, refl, some, true, ℕ, ◌&&◌, ◌++◌, ◌<◌, ◌==◌, ◌∙◌, ◌∷◌, ◌≡◌,
}
use bugfree_go_sdk.Tracing.{
  Report, Span, Spans, add_child, after_finish, child_of, finish_found, finish_span,
  max_child_spans, no_report, set_attribute, set_status, span_at, span_of, start_span,
}
use bugfree_go_sdk.Tracing.Finishing.{done}
use bugfree_go_sdk.Steps.{RoundTrip, Trail, came_back, lost, mark_span, record_trip, round_trip}
use bugfree_go_sdk.Event.{number}
use bugfree_go_sdk.Scope.{Context, context_or_background}

with_code : ℕ → Span → Span
with_code code s = record s {
  attributes = insert (codes "http.status_code") (number code) s.attributes;
}

mark_span-other :
    (trip : RoundTrip) (spans : Spans) (n t : ℕ)
    → (t == n) ≡ false
    → get_elem? (mark_span trip spans (some n)) t ≡ get_elem? spans t
unfolding mark_span set_status set_attribute with_code
mark_span-other (lost text) spans n t ne =
    get_elem?-modify_ne (λ s. record s { status = codes "unknown_error" }) spans n t ne
mark_span-other (came_back status elapsed) spans n t ne = elim (Bool-cases (leb 400 status)) [
  | inl e ↦ rw e (
      get_elem?-modify_ne (λ s. record s { status = codes "http_error" })
        (set_attribute spans (some n) (codes "http.status_code") (number status)) n t ne
      ∙ get_elem?-modify_ne (with_code status) spans n t ne)
  | inr e ↦ rw e (get_elem?-modify_ne (with_code status) spans n t ne)
]

add_child-open :
    (n : ℕ) (root : Span)
    → root.finished ≡ false
    → length root.children < max_child_spans
    → add_child n root ≡ record root { children = root.children ++ n ∷ [] }
unfolding add_child
add_child-open n root h room =
    let takes : (not root.finished && ltb (length root.children) max_child_spans) ≡ true =
      ground arith in
    rw takes

-- What the marks after the round trip leave of the span.
mark_span-place :
    (trip : RoundTrip) (spans : Spans) (n : ℕ) (s : Span)
    → get_elem? spans n ≡ some s
    → (s' : Span) × (get_elem? (mark_span trip spans (some n)) n ≡ some s')
      × (s'.finished ≡ s.finished)
      × (s'.transaction ≡ s.transaction)
unfolding mark_span set_status set_attribute with_code
mark_span-place (lost text) spans n s e = (
  record s { status = codes "unknown_error" },
  get_elem?-modify_self (λ x. record x { status = codes "unknown_error" }) spans n s e,
  refl,
  refl,
)
mark_span-place (came_back status elapsed) spans n s e = elim (Bool-cases (leb 400 status)) [
  | inl k ↦ (
    record (with_code status s) { status = codes "http_error" },
    rw k (
        get_elem?-modify_self (λ x. record x { status = codes "http_error" })
          (modify (with_code status) spans n) n (with_code status s)
          (get_elem?-modify_self (with_code status) spans n s e)),
    refl,
    refl,
  )
  | inr k ↦
      (with_code status s, rw k (get_elem?-modify_self (with_code status) spans n s e), refl, refl)
]

-- A child that finishes in an open transaction with room becomes the last of its children.
finish_span_child :
    (spans : Spans) (n now t : ℕ) (s root : Span)
    → get_elem? spans n ≡ some s
    → s.finished ≡ false
    → s.transaction ≡ t
    → (t == n) ≡ false
    → get_elem? spans t ≡ some root
    → root.finished ≡ false
    → length root.children < max_child_spans
    → get_elem? (finish_span spans (some n) now).0 t
      ≡ some (record root { children = root.children ++ n ∷ [] })
unfolding finish_span finish_found after_finish
finish_span_child spans n now t s root e k is ne at open_root room =
    ap (λ (r : Spans × Report). get_elem? r.0 t) (once k ∙ passed)
    ∙ get_elem?-modify_self (add_child n) (modify (done now) spans n) t root
        (get_elem?-modify_ne (done now) spans n t ne ∙ at)
    ∙ ap some joined
  where
    once :
        s.finished ≡ false
        → finish_found spans n now (get_elem? spans n)
          ≡ after_finish (modify (done now) spans n) n s
    once k = rw (e, k)

    passed :
        after_finish (modify (done now) spans n) n s
        ≡ (modify (add_child n) (modify (done now) spans n) t, no_report)
    passed = rw (is, ne)

    joined : add_child n root ≡ record root { children = root.children ++ n ∷ [] }
    joined = add_child-open n root open_root room

-- A request of the application, made where the context carries a span of a transaction that has not
-- finished and has room, is among the transaction's children when the round trip returns, however
-- it ended.
pub round_trip_joins :
    (agent address span_id : Text) (ctx : Option Context) (current : Option ℕ) (start now : ℕ)
    (trip : RoundTrip) (trail : Trail) (parent root : Span)
    → has_prefix agent (codes "bugfree-go/") ≡ false
    → span_at trail.spans (span_of ctx) ≡ some parent
    → get_elem? trail.spans parent.transaction ≡ some root
    → root.finished ≡ false
    → length root.children < max_child_spans
    → get_elem?
        (round_trip agent address ctx current span_id start now trip trail).1.spans
        parent.transaction
      ≡ some (record root { children = root.children ++ length trail.spans ∷ [] })
unfolding round_trip record_trip
round_trip_joins agent address span_id ctx current start now trip trail parent root app at there
      open_root room =
    let n = length trail.spans in
    let child = child_of parent (codes "http.client") address span_id start in
    let spans = trail.spans ++ child ∷ [] in
    let (s, e, f, g) = mark_span-place trip spans n child (get_elem?-last trail.spans child) in
    let before = get_elem?-lt trail.spans parent.transaction root there in
    let ne : (parent.transaction == n) ≡ false = ground arith in
    let kept : get_elem? (mark_span trip spans (some n)) parent.transaction ≡ some root =
      mark_span-other trip spans n parent.transaction ne
      ∙ get_elem?-append trail.spans (child ∷ []) parent.transaction before
      ∙ there in
    rw app (
      ap
        (λ (x : Spans × Option Context × Option ℕ).
          get_elem? (record_trip address ctx current now trip trail x).1.spans parent.transaction)
        opened
      ∙ finish_span_child (mark_span trip spans (some n)) n now parent.transaction s root e f g ne
          kept open_root room)
  where
    opened : start_span trail.spans ctx (codes "http.client") address span_id start ≡ (
      trail.spans ++ child_of parent (codes "http.client") address span_id start ∷ [],
      some (record (context_or_background ctx) { span = some (length trail.spans) }),
      some (length trail.spans),
    )
    opened = rw (start_span, at)
