-- ===== src/Tracing/Payload.antt =====
-- tracing.go, payload: a transaction with its spans as the server reads it, and why each span it
-- lists is there. A time stands for its text; a duration in milliseconds is the fraction of its
-- nanoseconds by a million.
use bugfree_go_sdk.Base.{Bool, List, Map, Option, Text, [], codes, get_elem?, none, some, ℕ, ◌∷◌}
use bugfree_go_sdk.Event.{Value}
use bugfree_go_sdk.Options.{Options}
use bugfree_go_sdk.Scope.{Context, child}
use bugfree_go_sdk.Tracing.{
  Span, Spans, continue_trace, finish_span, set_attribute, set_http_status, set_name, set_span_tag,
  set_status, start_span, start_transaction, with_op,
}

-- milliseconds, as numerator and denominator
abbrev pub milliseconds : ℕ → ℕ × ℕ
milliseconds duration = (duration, 1000000)

-- type spanPayload struct
pub record SpanPayload : Type 0 where
  pub span_id : Text
  pub parent_span_id : Text
  pub op : Text
  pub description : Text
  pub status : Text
  pub start : ℕ
  pub duration_ms : ℕ × ℕ
  pub attributes : Map Value

-- type transactionPayload struct
pub record TransactionPayload : Type 0 where
  pub trace_id : Text
  pub span_id : Text
  pub parent_span_id : Text
  pub name : Text
  pub op : Text
  pub status : Text
  pub http_status : ℕ
  pub start : ℕ
  pub duration_ms : ℕ × ℕ
  pub environment : Text
  pub release : Text
  pub platform : Text
  pub tags : Map Value
  pub spans : List SpanPayload

abbrev pub span_payload : Span → SpanPayload
span_payload s = record {
  span_id = s.span_id;
  parent_span_id = s.parent_span_id;
  op = s.op;
  description = s.description;
  status = s.status;
  start = s.start;
  duration_ms = milliseconds s.duration;
  attributes = s.attributes;
}

-- The loop over the children, by their places.
unfoldable pub child_payloads : Spans → List ℕ → List SpanPayload
child_payloads spans [] = []
child_payloads spans (j ∷ rest) = elim (get_elem? spans j) [
  | none ↦ child_payloads spans rest
  | some child ↦ span_payload child ∷ child_payloads spans rest
]

-- payload
unfoldable pub payload : Options → Spans → Span → TransactionPayload
unfolding child_payloads
payload o spans s = record {
  trace_id = s.trace_id;
  span_id = s.span_id;
  parent_span_id = s.parent_span_id;
  name = s.name;
  op = s.op;
  status = s.status;
  http_status = s.http_status;
  start = s.start;
  duration_ms = milliseconds s.duration;
  environment = o.environment;
  release = o.release;
  platform = codes "go";
  tags = s.tags;
  spans = child_payloads spans s.children;
}

-- What a program does with spans.
pub data SpanCall : Type 0 where
  starts_transaction : Option Context → Text → ℕ → Text → Text → Text → Text → SpanCall
  starts_span : Option Context → Text → Text → Text → ℕ → SpanCall
  sets_name sets_status : Option ℕ → Text → SpanCall
  sets_http_status : Option ℕ → ℕ → SpanCall
  sets_data sets_tag : Option ℕ → Text → Value → SpanCall
  finishes_span : Option ℕ → ℕ → SpanCall

unfoldable pub call_span : Bool → Options → Spans → SpanCall → Spans
unfolding start_transaction start_span set_name set_status set_http_status set_attribute
    set_span_tag finish_span with_op continue_trace
call_span enabled o spans (starts_transaction ctx name now span_id trace_id op header) =
    (start_transaction enabled o spans ctx name now span_id trace_id
      (with_op op ∷ continue_trace header ∷ [])).0
call_span enabled o spans (starts_span ctx op description span_id now) =
    (start_span spans ctx op description span_id now).0
call_span enabled o spans (sets_name s name) = set_name spans s name
call_span enabled o spans (sets_status s status) = set_status spans s status
call_span enabled o spans (sets_http_status s code) = set_http_status spans s code
call_span enabled o spans (sets_data s key value) = set_attribute spans s key value
call_span enabled o spans (sets_tag s key value) = set_span_tag spans s key value
call_span enabled o spans (finishes_span s now) = (finish_span spans s now).0

unfoldable pub call_spans : Bool → Options → Spans → List SpanCall → Spans
unfolding call_span
call_spans enabled o spans [] = spans
call_spans enabled o spans (call ∷ rest) =
    call_spans enabled o (call_span enabled o spans call) rest
