-- ===== src/Tracing/Tests.antt =====
-- Runs on the header of a span, on two rates and on a transaction with one child.
use bugfree_go_sdk.Base.{
  All, Bool, List, Option, Text, [], arith, codes, false, get_elem?, is_empty, none, refl, some,
  suc, text_eq, true, zero, ℕ, ◌+◌, ◌∷◌, ◌≡◌,
}
use bugfree_go_sdk.Tracing.{
  Span, Spans, continue_trace, finish_span, start_transaction, tracing_enabled, with_op,
}
use bugfree_go_sdk.Tracing.Traceparent.{all_zero, parse_traceparent, traceparent}
use bugfree_go_sdk.Tracing.Propagation.{
  Continues, IsByte, new_span_id, new_trace_id, propagated-Continues,
}
use bugfree_go_sdk.Tracing.Payload.{
  SpanCall, call_spans, finishes_span, payload, starts_span, starts_transaction,
}
use bugfree_go_sdk.Samples.{options}
use bugfree_go_sdk.Scope.{Context}
use bugfree_go_sdk.Tracing.Queue.{
  TraceAction, Traces, accounted, all_handed_in, closes_traces, delivers, run_traces,
  run_traces-accounted, sends,
}
use bugfree_go_sdk.Options.{at_least_one, at_most_zero}
use bugfree_go_sdk.Tracing.Listed.{IsListOf, payload-IsListOf}

abbrev trace : Text
trace = codes "0af7651916cd43dd8448eb211c80319c"

abbrev parent : Text
parent = codes "b7ad6b7169203331"

header_reads :
    parse_traceparent (traceparent trace parent true)
    ≡ some (record { trace_id = trace; parent_id = parent; sampled = true })
unfolding parse_traceparent traceparent text_eq
header_reads = refl

abbrev ones : ℕ → List ℕ
ones zero = []
ones (suc n) = 1 ∷ ones n

ones-IsByte : (n : ℕ) → All IsByte (ones n)
ones-IsByte zero = tt
ones-IsByte (suc n) = (omega arith, ones-IsByte n)

propagated-Continues_example :
    (s : Span) × (get_elem?
        (start_transaction true options [] none (codes "GET /") 5 (codes "s") (codes "t") (
          with_op (codes "http.server")
          ∷ continue_trace
              (traceparent (new_trace_id (some (ones 16))) (new_span_id (some (ones 8))) true)
          ∷ [])).0
        0
      ≡ some s)
    × Continues options (new_trace_id (some (ones 16))) (new_span_id (some (ones 8))) true s
unfolding new_trace_id new_span_id all_zero tracing_enabled at_most_zero
propagated-Continues_example =
    propagated-Continues options (ones 16) (ones 8) true [] none (codes "GET /") 5 (codes "s")
      (codes "t") (codes "http.server") refl refl (ones-IsByte 16) (ones-IsByte 8) refl refl refl

abbrev span_of_transaction : ℕ → Bool → Span
span_of_transaction transaction finished = record {
  trace_id = trace;
  span_id = parent;
  parent_span_id = [];
  op = codes "http.server";
  name = codes "GET /";
  description = [];
  status = codes "ok";
  http_status = 0;
  start = 5;
  sampled = true;
  transaction = transaction;
  caller_sampled = none;
  finished = finished;
  duration = 0;
  attributes = [];
  tags = [];
  children = [];
}

-- An open transaction and a finished child.
abbrev two_spans : Spans
two_spans = span_of_transaction 0 false ∷ span_of_transaction 0 true ∷ []

frozen_child : get_elem? (finish_span two_spans (some 0) 9).0 1 ≡ some (span_of_transaction 0 true)
unfolding finish_span
frozen_child = refl

abbrev no_traces : Traces
no_traces = record { queue = none; closed = false; dropped = 0; posted = []; skipped = [] }

abbrev trace_actions : List TraceAction
trace_actions =
    sends (some (codes "{}"))
    ∷ sends none
    ∷ sends (some (codes "[]"))
    ∷ delivers false
    ∷ closes_traces
    ∷ delivers true
    ∷ []

run_traces-accounted_example :
    accounted (run_traces no_traces trace_actions) ≡ all_handed_in no_traces trace_actions + 0
run_traces-accounted_example = (run_traces-accounted no_traces trace_actions (omega arith)).0

-- A transaction with one child.
abbrev in_transaction : Option Context
in_transaction = some (record { scope = none; span = some 0 })

abbrev request_calls : List SpanCall
request_calls =
    starts_transaction none (codes "GET /") 5 (codes "s") (codes "t") (codes "http.server") []
    ∷ starts_span in_transaction (codes "db.query") (codes "SELECT 1") (codes "c") 6
    ∷ finishes_span (some 1) 8
    ∷ finishes_span (some 0) 9
    ∷ []

abbrev served_request : Span
served_request = record {
  trace_id = codes "t";
  span_id = codes "s";
  parent_span_id = [];
  op = codes "http.server";
  name = codes "GET /";
  description = [];
  status = codes "ok";
  http_status = 0;
  start = 5;
  sampled = true;
  transaction = 0;
  caller_sampled = none;
  finished = true;
  duration = 4;
  attributes = [];
  tags = [];
  children = 1 ∷ [];
}

payload-IsListOf_example :
    IsListOf
      (call_spans true options [] request_calls)
      0
      served_request.children
      (payload options (call_spans true options [] request_calls) served_request).spans
unfolding call_spans tracing_enabled is_empty parse_traceparent at_most_zero at_least_one
payload-IsListOf_example = payload-IsListOf true options request_calls 0 served_request refl
