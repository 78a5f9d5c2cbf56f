-- ===== src/Steps.antt =====
-- http-breadcrumbs.go and sql-breadcrumbs.go: requests and statements as breadcrumbs and spans. The
-- round trip and the driver are arguments, by what they answered.
mod Tests
pub mod Finished
pub mod Digits
use bugfree_go_sdk.Base.{
  Option, Text, [], codes, has_prefix, if◌then◌else◌, leb, length, ltb, none, some, suc, take, zero,
  ℕ, ◌%◌, ◌++◌, ◌+◌, ◌/◌, ◌==◌, ◌∷◌,
}
use bugfree_go_sdk.Event.{Breadcrumb, blank, number}
use bugfree_go_sdk.Scope.{Context, Scopes, add_breadcrumb, scope_from_context}
use bugfree_go_sdk.Tracing.{
  Span, Spans, change_span, finish_span, set_attribute, set_status, span_at, start_span,
}
use bugfree_go_sdk.Tracing.Traceparent.{traceparent}

-- The scopes and the spans that a step is recorded in.
pub record Trail : Type 0 where
  pub scopes : Scopes
  pub spans : Spans

-- The decimal digits of a number, in front of a text.
unfoldable pub decimal_from : ℕ → ℕ → Text → Text
decimal_from zero n text = text
decimal_from (suc fuel) n text =
    let digit = (b'0' + n % 10) ∷ text in
    let more = decimal_from fuel (n / 10) digit in if n / 10 == 0 then digit else more

-- "%d"; a number has no more digits than its size and one
unfoldable pub decimal : ℕ → Text
unfolding decimal_from
decimal n = decimal_from (suc n) n []

-- " · " in UTF-8
abbrev pub middle_dot : Text
middle_dot = 32 ∷ 194 ∷ 183 ∷ 32 ∷ []

-- What a round trip ends with: an error, by its text, or a status and the time it took, as text.
pub data RoundTrip : Type 0 where
  lost : Text → RoundTrip
  came_back : ℕ → Text → RoundTrip

-- levelForStatus
unfoldable pub level_for_status : ℕ → Text
level_for_status status =
    if leb 500 status
    then codes "error"
    else if leb 400 status
    then codes "warning"
    else codes "info"

-- The span after the round trip, before its Finish.
unfoldable pub mark_span : RoundTrip → Spans → Option ℕ → Spans
unfolding set_status set_attribute
mark_span (lost text) spans s = set_status spans s (codes "unknown_error")
mark_span (came_back status elapsed) spans s =
    let spans' = set_attribute spans s (codes "http.status_code") (number status) in
    if leb 400 status then set_status spans' s (codes "http_error") else spans'

-- The breadcrumb of a request.
unfoldable pub crumb_of_trip : Text → RoundTrip → Breadcrumb
unfolding decimal level_for_status
crumb_of_trip address (lost text) = record {
  category = codes "http";
  message = address;
  details = codes "failed" ++ (middle_dot ++ text);
  level = codes "error";
  at = blank;
}
crumb_of_trip address (came_back status elapsed) = record {
  category = codes "http";
  message = address;
  details = decimal status ++ (middle_dot ++ elapsed);
  level = level_for_status status;
  at = blank;
}

abbrev pub or_scope : Option ℕ → Option ℕ → Option ℕ
or_scope none fallback = fallback
or_scope (some scope) fallback = some scope

-- The traceparent header that the request goes out with, if the SDK sets one.
unfoldable pub outgoing_header : Spans → Option ℕ → Option Text
unfolding traceparent
outgoing_header spans s = elim (span_at spans s) [
  | none ↦ none
  | some span ↦ some (traceparent span.trace_id span.span_id span.sampled)
]

-- RoundTrip from the span on: the header set, and the trail.
unfoldable pub record_trip :
    Text
    → Option Context
    → Option ℕ
    → ℕ
    → RoundTrip
    → Trail
    → Spans × Option Context × Option ℕ
    → Option Text × Trail
unfolding mark_span finish_span crumb_of_trip add_breadcrumb outgoing_header scope_from_context
record_trip address ctx current now trip trail started = (
  outgoing_header started.0 started.2,
  record {
    scopes =
        add_breadcrumb trail.scopes (or_scope (scope_from_context ctx) current) now
          (crumb_of_trip address trip);
    spans = (finish_span (mark_span trip started.0 started.2) started.2 now).0;
  },
)

-- RoundTrip: `agent` is the request's User-Agent, `address` its method and its URL without the
-- query, `current` the global scope.
unfoldable pub round_trip :
    Text → Text → Option Context → Option ℕ → Text → ℕ → ℕ → RoundTrip → Trail → Option Text × Trail
unfolding start_span record_trip has_prefix
round_trip agent address ctx current span_id start now trip trail =
    if has_prefix agent (codes "bugfree-go/")
    then (none, trail)
    else record_trip address ctx current now trip trail
        (start_span trail.spans ctx (codes "http.client") address span_id start)

-- maxQueryLength
abbrev pub max_query_length : ℕ
max_query_length = 500

-- query[:maxQueryLength] + "…", on a text that strings.Fields and strings.Join have made one line
unfoldable pub cut_query : Text → Text
cut_query query =
    if ltb max_query_length (length query)
    then take max_query_length query ++ (226 ∷ 128 ∷ 166 ∷ [])
    else query

-- What a statement ends with: driver.ErrSkip, another error, or the time it took, as text.
pub data QueryEnd : Type 0 where
  skip : QueryEnd
  failed : Text → QueryEnd
  took : Text → QueryEnd

unfoldable pub crumb_of_query : Text → QueryEnd → Breadcrumb
crumb_of_query query (failed text) = record {
  category = codes "sql";
  message = query;
  details = codes "failed" ++ (middle_dot ++ text);
  level = codes "error";
  at = blank;
}
crumb_of_query query (took elapsed) = record {
  category = codes "sql";
  message = query;
  details = elapsed;
  level = codes "info";
  at = blank;
}
crumb_of_query query skip = record {
  category = codes "sql";
  message = query;
  details = [];
  level = codes "info";
  at = blank;
}

-- if err != nil { span.SetStatus("internal_error") }
abbrev pub mark_query : QueryEnd → Spans → Option ℕ → Spans
mark_query skip spans s = spans
mark_query (failed text) spans s = set_status spans s (codes "internal_error")
mark_query (took elapsed) spans s = spans

-- recordQuery for a statement that was not skipped.
unfoldable pub record_ran :
    Option Context → Option ℕ → Text → Text → ℕ → ℕ → QueryEnd → Trail → Trail
unfolding start_span set_status finish_span crumb_of_query add_breadcrumb scope_from_context
record_ran ctx current query span_id started now ran trail =
    let (spans, ctx', s) = start_span trail.spans ctx (codes "db.query") query span_id now in
    let began = change_span (λ (span : Span). record span { start = started }) spans s in
    record {
      scopes =
          add_breadcrumb trail.scopes (or_scope (scope_from_context ctx) current) now
            (crumb_of_query query ran);
      spans = (finish_span (mark_query ran began s) s now).0;
    }

-- recordQuery, on the query as one line
unfoldable pub record_query :
    Option Context → Option ℕ → Text → Text → ℕ → ℕ → QueryEnd → Trail → Trail
unfolding record_ran cut_query
record_query ctx current query span_id started now skip trail = trail
record_query ctx current query span_id started now (failed text) trail =
    record_ran ctx current (cut_query query) span_id started now (failed text) trail
record_query ctx current query span_id started now (took elapsed) trail =
    record_ran ctx current (cut_query query) span_id started now (took elapsed) trail
