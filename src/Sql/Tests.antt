-- ===== src/Sql/Tests.antt =====
-- A driver without the context interfaces, which counts the statements run.
use bugfree_go_sdk.Base.{
  Option, [], codes, get_elem?, is_empty, negsuc, none, refl, some, suc, true, ℕ, ◌∷◌, ◌≡◌,
}
use bugfree_go_sdk.Samples.{scope_of, three_scopes}
use bugfree_go_sdk.Scope.{Context, Scope, scope_from_context}
use bugfree_go_sdk.Steps.{Trail}
use bugfree_go_sdk.Sql.{
  Conn, NamedValue, Reply, Stmt, Timing, db_error, errored, one_line, plain_values, replied,
  stmt_exec_context, wrap_conn, wrap_stmt,
}
use bugfree_go_sdk.Sql.Database.{db_run, queries, stmt_check}
use bugfree_go_sdk.Sql.Transparent.{SameAnswer, db_run-SameAnswer}
use bugfree_go_sdk.Sql.Recorded.{IsRecorded, db_run-IsRecorded, legacy_exec_unscoped}
use bugfree_go_sdk.Sql.Checks.{stmt_check_hides}

abbrev legacy_stmt : Stmt ℕ
legacy_stmt = record {
  close = λ w. (replied tt, w);
  num_input = negsuc 0;
  exec = λ values w. (replied 1, suc w);
  query = λ values w. (replied 1, suc w);
  exec_context = none;
  query_context = none;
  check_named_value = none;
}

abbrev accepts_all : NamedValue → Reply NamedValue
accepts_all value = replied value

abbrev refuses_all : NamedValue → Reply NamedValue
refuses_all value = errored (db_error (codes "unsupported type"))

abbrev conn : Conn ℕ
conn = record {
  prepare = λ query w. (replied legacy_stmt, w);
  prepare_context = none;
  close = λ w. (replied tt, w);
  begin = λ w. (replied 7, w);
  begin_tx = none;
  exec_context = none;
  query_context = none;
  ping = none;
  reset_session = none;
  is_valid = none;
  check_named_value = some accepts_all;
}

abbrev timing : Timing
timing = record {
  span_id = codes "s";
  started = 1;
  now = 5;
  elapsed = codes "4ns";
  current = some 0;
}

abbrev trail : Trail
trail = record { scopes = three_scopes; spans = [] }

abbrev argument : NamedValue
argument = record { name = []; value = 3 }

abbrev in_request : Option Context
in_request = some (record { scope = some 1; span = none })

one_line_joins : one_line (codes "  SELECT 1\n\tFROM  t ") ≡ codes "SELECT 1 FROM t"
unfolding one_line
one_line_joins = refl

db_run-SameAnswer_example :
    SameAnswer
      (db_run accepts_all queries
        (wrap_conn timing conn)
        none
        (codes "SELECT 1")
        (argument ∷ [])
        (trail, 0))
      (db_run accepts_all queries conn none (codes "SELECT 1") (argument ∷ []) 0)
db_run-SameAnswer_example =
    db_run-SameAnswer timing accepts_all conn none (codes "SELECT 1") (argument ∷ [])
      (argument ∷ []) refl refl queries trail 0

db_run-IsRecorded_example : IsRecorded timing none (codes "SELECT 1") trail (
    db_run accepts_all queries
      (wrap_conn timing conn)
      none
      (codes "SELECT 1")
      (argument ∷ [])
      (trail, 0))
db_run-IsRecorded_example =
    db_run-IsRecorded timing accepts_all queries conn none (codes "SELECT 1") (argument ∷ []) trail
      0

-- The scope that is the global one in these tests.
abbrev global_scope : Scope
global_scope = scope_of none true []

legacy_exec_unscoped_example :
    get_elem?
      (stmt_exec_context timing legacy_stmt
        (codes "SELECT 1")
        in_request
        (argument ∷ [])
        (trail, 0)).1.0.scopes
      1
    ≡ get_elem? three_scopes 1
unfolding scope_from_context plain_values is_empty
legacy_exec_unscoped_example =
    (legacy_exec_unscoped timing legacy_stmt (codes "SELECT 1") in_request (argument ∷ []) (3 ∷ [])
      trail 0 1 0 global_scope refl refl refl refl refl refl (λ e. cc e)).0

stmt_check_hides_example :
    stmt_check refuses_all
      (wrap_conn timing conn)
      (wrap_stmt timing legacy_stmt (codes "SELECT 1"))
      argument
    ≡ refuses_all argument
stmt_check_hides_example =
    (stmt_check_hides timing refuses_all accepts_all conn legacy_stmt (codes "SELECT 1") argument
      argument refl refl refl).1
