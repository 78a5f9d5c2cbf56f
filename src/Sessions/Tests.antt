-- ===== src/Sessions/Tests.antt =====
-- Runs of the aggregator on four sessions, and of the writer on two headers.
use bugfree_go_sdk.Base.{All, List, [], arith, codes, refl, true, ◌∷◌, ◌≡◌}
use bugfree_go_sdk.Sessions.{
  Aggregator, session_crashed, session_errored, session_for_status, session_ok,
}
use bugfree_go_sdk.Sessions.Totals.{Call, Ordered, records, serve, serve-Ordered, takes}
use bugfree_go_sdk.Posting.{Exchange, arrived}
use bugfree_go_sdk.Sessions.Reports.{
  Signal, closed, counted, known, new_reporting, over_http, signals, signals_known, ticked,
}
use bugfree_go_sdk.Sessions.Unordered.{record_in, record_in_comm}
use mathlib.Core.Quot
use bugfree_go_sdk.Sessions.Status.{answer, body, early_hints_hide_errors, header}

abbrev fresh : Aggregator
fresh = record { release = codes "1.0"; environment = codes "production"; minutes = [] }

abbrev day : List Call
day =
    records session_ok 5
    ∷ records session_crashed 6
    ∷ takes
    ∷ records session_errored 70000000000
    ∷ records session_ok 90000000000
    ∷ []

serve-Ordered_example : All Ordered (serve fresh day).1
serve-Ordered_example = (serve-Ordered fresh day tt).0

early_hints_hide_errors_example :
    session_for_status (answer (record { status = 0 }) (header 103 ∷ header 503 ∷ body ∷ [])).status
    ≡ session_ok
early_hints_hide_errors_example =
    early_hints_hide_errors 103 503 (body ∷ []) (omega arith) (omega arith) (omega arith)

abbrev kept : Exchange
kept = record { encodable = true; addressable = true; answer = arrived 503 [] }

abbrev week : List Signal
week = counted session_errored 5 ∷ ticked kept ∷ counted session_ok 70000000000 ∷ closed kept ∷ []

signals_known_example : known session_ok (signals over_http (new_reporting [] []) week) ≡ 2
signals_known_example =
    signals_known session_ok over_http (new_reporting [] []) week (tt, (refl, (tt, (refl, tt))))

record_in_comm_example :
    record_in [] [] session_ok 5 (record_in [] [] session_crashed 6 (Quot.mk []))
    ≡ record_in [] [] session_crashed 6 (record_in [] [] session_ok 5 (Quot.mk []))
record_in_comm_example = record_in_comm [] [] session_ok session_crashed 5 6 (Quot.mk [])
