-- ===== src/Tracing/Listed.antt =====
-- tracing.go: the payload of a transaction lists its own finished spans, whatever a program does.
use bugfree_go_sdk.Base.{
  All, Bool, Bool-cases, List, Option, Text, [], arith, get_elem?, inl, inr, insert, length, none,
  refl, some, true, ℕ, ◌++◌, ◌∷◌, ◌≡◌,
}
use bugfree_go_sdk.Options.{Options}
use bugfree_go_sdk.Scope.{Context, child, context_or_background}
use bugfree_go_sdk.Tracing.{
  Span, Spans, child_of, continue_trace, new_transaction, set_attribute, set_http_status, set_name,
  set_span_tag, set_status, span_at, span_of, start_span, start_transaction, tracing_enabled,
  with_http_status, with_op,
}
use bugfree_go_sdk.Tracing.Payload.{
  SpanCall, SpanPayload, call_span, call_spans, child_payloads, finishes_span, payload, sets_data,
  sets_http_status, sets_name, sets_status, sets_tag, span_payload, starts_span, starts_transaction,
}
use bugfree_go_sdk.Tracing.Linked.{
  IsChildAt, IsLinked, append-IsLinked, change-IsLinked, finish_span-IsLinked,
  with_http_status-Tame,
}

new_transaction-childless :
    (o : Options) (name : Text) (now : ℕ) (span_id trace_id op header : Text) (place : ℕ)
    → (new_transaction o name now span_id trace_id place
        (with_op op ∷ continue_trace header ∷ [])).children
      ≡ []
unfolding new_transaction with_op continue_trace
new_transaction-childless o name now span_id trace_id op header place = ground arith

start_transaction-IsLinked :
    (enabled : Bool) (o : Options) (spans : Spans) (ctx : Option Context) (name : Text) (now : ℕ)
    (span_id trace_id op header : Text)
    → IsLinked spans
    → IsLinked
        (start_transaction enabled o spans ctx name now span_id trace_id
          (with_op op ∷ continue_trace header ∷ [])).0
unfolding start_transaction
start_transaction-IsLinked enabled o spans ctx name now span_id trace_id op header h =
    elim (Bool-cases (tracing_enabled enabled o)) [
      | inr off ↦ rw off h
      | inl on ↦ rw on (
          append-IsLinked spans
            (new_transaction o name now span_id trace_id (length spans)
              (with_op op ∷ continue_trace header ∷ []))
            (new_transaction-childless o name now span_id trace_id op header (length spans)) h)
    ]

start_span-IsLinked :
    (spans : Spans) (ctx : Option Context) (op description span_id : Text) (now : ℕ)
    → IsLinked spans
    → IsLinked (start_span spans ctx op description span_id now).0
unfolding start_span
start_span-IsLinked spans ctx op description span_id now h = go (span_at spans (span_of ctx))
  where
    go :
        (o : Option Span)
        → IsLinked
            (elim o as (λ (x : Option Span). Spans × Option Context × Option ℕ) [
              | none ↦ (spans, ctx, none)
              | some parent ↦ (
                spans ++ child_of parent op description span_id now ∷ [],
                some (record (context_or_background ctx) { span = some (length spans) }),
                some (length spans),
              )
            ]).0
    go none = h
    go (some parent) = append-IsLinked spans (child_of parent op description span_id now) refl h

call_span-IsLinked :
    (enabled : Bool) (o : Options) (spans : Spans) (call : SpanCall)
    → IsLinked spans
    → IsLinked (call_span enabled o spans call)
unfolding call_span set_name set_status set_http_status set_attribute set_span_tag
call_span-IsLinked enabled o spans (starts_transaction ctx name now span_id trace_id op header) h =
    start_transaction-IsLinked enabled o spans ctx name now span_id trace_id op header h
call_span-IsLinked enabled o spans (starts_span ctx op description span_id now) h =
    start_span-IsLinked spans ctx op description span_id now h
call_span-IsLinked enabled o spans (sets_name s name) h =
    change-IsLinked (λ x. record x { name = name }) spans s (λ x. (refl, λ e. e)) (λ x. refl) h
call_span-IsLinked enabled o spans (sets_status s status) h =
    change-IsLinked (λ x. record x { status = status }) spans s (λ x. (refl, λ e. e)) (λ x. refl) h
call_span-IsLinked enabled o spans (sets_http_status s code) h =
    change-IsLinked (with_http_status code) spans s (with_http_status-Tame code).0
      (with_http_status-Tame code).1 h
call_span-IsLinked enabled o spans (sets_data s key value) h =
    change-IsLinked (λ x. record x { attributes = insert key value x.attributes }) spans s
      (λ x. (refl, λ e. e)) (λ x. refl) h
call_span-IsLinked enabled o spans (sets_tag s key value) h =
    change-IsLinked (λ x. record x { tags = insert key value x.tags }) spans s (λ x. (refl, λ e. e))
      (λ x. refl) h
call_span-IsLinked enabled o spans (finishes_span s now) h = finish_span-IsLinked spans s now h

call_spans-IsLinked :
    (enabled : Bool) (o : Options) (calls : List SpanCall) (spans : Spans)
    → IsLinked spans
    → IsLinked (call_spans enabled o spans calls)
unfolding call_spans
call_spans-IsLinked enabled o [] spans h = h
call_spans-IsLinked enabled o (call ∷ rest) spans h =
    call_spans-IsLinked enabled o rest (call_span enabled o spans call)
      (call_span-IsLinked enabled o spans call h)

-- What a span of the payload says of a span.
abbrev pub IsEntryOf : Span → SpanPayload → Type 0
IsEntryOf s p =
    (p.span_id ≡ s.span_id)
    × (p.parent_span_id ≡ s.parent_span_id)
    × (p.op ≡ s.op)
    × (p.description ≡ s.description)
    × (p.status ≡ s.status)
    × (p.start ≡ s.start)
    × (p.duration_ms ≡ (s.duration, 1000000))
    × (p.attributes ≡ s.attributes)

-- The spans of the payload of the transaction at a place are those at the places of its children,
-- one by one and in their order, each finished and of that transaction.
pub data IsListOf (spans : Spans) (i : ℕ) : List ℕ → List SpanPayload → Type 0 where
  end : IsListOf spans i [] []
  entry :
      {children : List ℕ} {payloads : List SpanPayload} (j : ℕ) (child : Span) (p : SpanPayload)
      → get_elem? spans j ≡ some child
      → child.finished ≡ true
      → child.transaction ≡ i
      → IsEntryOf child p
      → IsListOf spans i children payloads
      → IsListOf spans i (j ∷ children) (p ∷ payloads)

child_payloads-cons :
    (spans : Spans) (j : ℕ) (rest : List ℕ) (child : Span)
    → get_elem? spans j ≡ some child
    → child_payloads spans (j ∷ rest) ≡ span_payload child ∷ child_payloads spans rest
unfolding child_payloads
child_payloads-cons spans j rest child at = rw (at, child_payloads) refl

child_payloads-IsListOf :
    (spans : Spans) (i : ℕ) (children : List ℕ)
    → All (IsChildAt spans i) children
    → IsListOf spans i children (child_payloads spans children)
child_payloads-IsListOf spans i [] h = unfold child_payloads in end
child_payloads-IsListOf spans i (j ∷ rest) ((child, at, finished, transaction), h) =
    rw (child_payloads-cons spans j rest child at) (
      entry j child (span_payload child) at finished transaction
        (refl, refl, refl, refl, refl, refl, refl, refl) (child_payloads-IsListOf spans i rest h))

-- Whatever a program does with its spans, from none on: the spans in the payload of a transaction
-- are exactly those at the places of its children, one entry for each place and in their order, with
-- the ids, the operation, the description, the status, the times and the attributes of the span
-- there; and each of these is a finished span of that transaction.
pub payload-IsListOf :
    (enabled : Bool) (o : Options) (calls : List SpanCall) (i : ℕ) (s : Span)
    → get_elem? (call_spans enabled o [] calls) i ≡ some s
    → IsListOf
        (call_spans enabled o [] calls)
        i
        s.children
        (payload o (call_spans enabled o [] calls) s).spans
unfolding payload
payload-IsListOf enabled o calls i s at =
    child_payloads-IsListOf (call_spans enabled o [] calls) i s.children
      (call_spans-IsLinked enabled o calls [] (λ k span never. absurd (no span never)) i s at)
  where
    no : (span : Span) → none ≡ some span → ⊥
    no span e = cc e
