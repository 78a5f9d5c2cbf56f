-- ===== src/Tracing.antt =====
-- tracing.go: spans live in a store, a *Span being `none` or a place in it; the root span of a
-- transaction names itself. The clock, the random ids and the encoding of a payload are arguments.
mod Tests
pub mod Traceparent
pub mod Sampling
pub mod Finishing
pub mod Queue
pub mod Propagation
pub mod Payload
pub mod Linked
pub mod Listed
use mathlib.Core.List.{foldl}
use bugfree_go_sdk.Base.{
  Bool, List, Map, Option, Text, [], codes, false, get_elem?, if◌then◌else◌, insert, is_empty, leb,
  length, ltb, modify, none, not, some, true, ℕ, ◌&&◌, ◌++◌, ◌-◌, ◌==◌, ◌∷◌,
}
use bugfree_go_sdk.Event.{Value}
use bugfree_go_sdk.Options.{Options, at_most_zero}
use bugfree_go_sdk.Scope.{Context, child, context_or_background}
use Traceparent.{Continued, parse_traceparent}
use Sampling.{trace_sampled}

-- type Span struct
pub record Span : Type 0 where
  pub trace_id : Text
  pub span_id : Text
  pub parent_span_id : Text
  pub op : Text
  pub name : Text
  pub description : Text
  pub status : Text
  pub http_status : ℕ
  pub start : ℕ
  pub sampled : Bool
  pub transaction : ℕ
  pub caller_sampled : Option Bool
  pub finished : Bool
  pub duration : ℕ
  pub attributes : Map Value
  pub tags : Map Value
  pub children : List ℕ

abbrev pub Spans : Type 0
Spans = List Span

-- maxChildSpans
abbrev pub max_child_spans : ℕ
max_child_spans = 1000

-- type SpanOption func(*Span)
abbrev pub SpanOption : Type 0
SpanOption = Span → Span

-- WithOp
unfoldable pub with_op : Text → SpanOption
with_op op span = record span { op = op }

abbrev pub continued : Span → Option Continued → Span
continued span none = span
continued span (some c) = record span {
  trace_id = c.trace_id;
  parent_span_id = c.parent_id;
  caller_sampled = some c.sampled;
}

-- ContinueTrace
unfoldable pub continue_trace : Text → SpanOption
continue_trace header span = continued span (parse_traceparent header)

-- TracingEnabled
unfoldable pub tracing_enabled : Bool → Options → Bool
tracing_enabled enabled o = enabled && not (at_most_zero o.traces_sample_rate)

abbrev pub trust : Options → Option Bool → Bool → Bool
trust o none own = own
trust o (some caller) own = if o.trust_incoming_sampling then caller else own

-- The span that StartTransaction builds at a place of the store.
unfoldable pub new_transaction : Options → Text → ℕ → Text → Text → ℕ → List SpanOption → Span
unfolding trace_sampled
new_transaction o name start span_id trace_id place options =
    let fresh : Span = record {
      trace_id = [];
      span_id = span_id;
      parent_span_id = [];
      op = [];
      name = name;
      description = [];
      status = codes "ok";
      http_status = 0;
      start = start;
      sampled = false;
      transaction = place;
      caller_sampled = none;
      finished = false;
      duration = 0;
      attributes = [];
      tags = [];
      children = [];
    } in
    let span = foldl (λ (s : Span) (option : SpanOption). option s) fresh options in
    let named = if is_empty span.trace_id then record span { trace_id = trace_id } else span in
    record named {
      sampled = trust o named.caller_sampled (trace_sampled named.trace_id o.traces_sample_rate);
    }

-- StartTransaction: the store, the context and the span.
unfoldable pub start_transaction :
    Bool
    → Options
    → Spans
    → Option Context
    → Text
    → ℕ
    → Text
    → Text
    → List SpanOption
    → Spans × Option Context × Option ℕ
unfolding tracing_enabled new_transaction
start_transaction enabled o spans ctx name start span_id trace_id options =
    if not (tracing_enabled enabled o)
    then (spans, ctx, none)
    else let place = length spans in
      (
        spans ++ new_transaction o name start span_id trace_id place options ∷ [],
        some (record (context_or_background ctx) { span = some place }),
        some place,
      )

abbrev pub span_at : Spans → Option ℕ → Option Span
span_at spans none = none
span_at spans (some i) = get_elem? spans i

abbrev pub span_of : Option Context → Option ℕ
span_of none = none
span_of (some ctx) = ctx.span

abbrev pub child_of : Span → Text → Text → Text → ℕ → Span
child_of parent op description span_id start = record {
  trace_id = parent.trace_id;
  span_id = span_id;
  parent_span_id = parent.span_id;
  op = op;
  name = [];
  description = description;
  status = codes "ok";
  http_status = 0;
  start = start;
  sampled = parent.sampled;
  transaction = parent.transaction;
  caller_sampled = none;
  finished = false;
  duration = 0;
  attributes = [];
  tags = [];
  children = [];
}

-- StartSpan
unfoldable pub start_span :
    Spans → Option Context → Text → Text → Text → ℕ → Spans × Option Context × Option ℕ
start_span spans ctx op description span_id start = elim (span_at spans (span_of ctx)) [
  | none ↦ (spans, ctx, none)
  | some parent ↦ (
    spans ++ child_of parent op description span_id start ∷ [],
    some (record (context_or_background ctx) { span = some (length spans) }),
    some (length spans),
  )
]

abbrev pub change_span : (Span → Span) → Spans → Option ℕ → Spans
change_span f spans none = spans
change_span f spans (some i) = modify f spans i

-- SetName, SetStatus, SetHTTPStatus, SetData and SetTag
unfoldable pub set_name : Spans → Option ℕ → Text → Spans
set_name spans s name = change_span (λ span. record span { name = name }) spans s

unfoldable pub set_status : Spans → Option ℕ → Text → Spans
set_status spans s status = change_span (λ span. record span { status = status }) spans s

abbrev pub with_http_status : ℕ → Span → Span
with_http_status code span =
    if leb 500 code
    then record span { http_status = code; status = codes "internal_error" }
    else record span { http_status = code }

unfoldable pub set_http_status : Spans → Option ℕ → ℕ → Spans
set_http_status spans s code = change_span (with_http_status code) spans s

unfoldable pub set_attribute : Spans → Option ℕ → Text → Value → Spans
set_attribute spans s key value =
    change_span (λ span. record span { attributes = insert key value span.attributes }) spans s

unfoldable pub set_span_tag : Spans → Option ℕ → Text → Value → Spans
set_span_tag spans s key value =
    change_span (λ span. record span { tags = insert key value span.tags }) spans s

-- addChild
unfoldable pub add_child : ℕ → Span → Span
add_child child span =
    if not span.finished && ltb (length span.children) max_child_spans
    then record span { children = span.children ++ child ∷ [] }
    else span

-- What Finish asks for besides the change of the store: nothing, or a report of a transaction.
pub data Report : Type 0 where
  no_report : Report
  reported : ℕ → Report

-- The part of Finish behind its lock, for a span that has just been marked as finished.
unfoldable pub after_finish : Spans → ℕ → Span → Spans × Report
unfolding add_child
after_finish spans i span =
    if not (span.transaction == i)
    then (modify (add_child i) spans span.transaction, no_report)
    else if span.sampled
    then (spans, reported i)
    else (spans, no_report)

-- The first part of Finish, on the span found: the second call finds it finished.
unfoldable pub finish_found : Spans → ℕ → ℕ → Option Span → Spans × Report
unfolding after_finish
finish_found spans i now none = (spans, no_report)
finish_found spans i now (some span) =
    if span.finished
    then (spans, no_report)
    else after_finish (modify (λ s. record s { finished = true; duration = now - s.start }) spans i)
        i span

-- Finish
unfoldable pub finish_span : Spans → Option ℕ → ℕ → Spans × Report
unfolding finish_found
finish_span spans none now = (spans, no_report)
finish_span spans (some i) now = finish_found spans i now (get_elem? spans i)
