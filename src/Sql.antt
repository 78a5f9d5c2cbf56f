-- ===== src/Sql.antt =====
-- sql-breadcrumbs.go: the wrappers of a driver's connections and statements. The driver is a
-- parameter: a connection and a statement are records of what they answer in a world of the
-- driver's own; an optional interface of database/sql/driver is a field that may be none.
mod Tests
pub mod Database
pub mod Drivers
pub mod Transparent
pub mod Checks
pub mod Recorded
use bugfree_go_sdk.Base.{
  Bool, List, Option, Text, [], codes, false, if◌then◌else◌, is_empty, none, not, some, true, ℕ, ℤ,
  ◌==◌, ◌∷◌,
}
use bugfree_go_sdk.Options.{is_space}
use bugfree_go_sdk.Scope.{Context}
use bugfree_go_sdk.Steps.{QueryEnd, Trail, failed, record_query, skip, took}

-- An error of a driver: driver.ErrSkip, an error that wraps it, or another, by its text. errors.Is
-- takes the first two for driver.ErrSkip, a comparison only the first.
pub data DbError : Type 0 where
  err_skip : DbError
  wrapped_skip db_error : Text → DbError

pub data Reply (A : Type 0) : Type 0 where
  replied : A → Reply A
  errored : DbError → Reply A

-- A call in a world.
abbrev pub Call : Type 0 → Type 0 → Type 0
Call W A = W → Reply A × W

-- driver.NamedValue, with a value of the driver's
pub record NamedValue : Type 0 where
  pub name : Text
  pub value : ℕ

-- driver.TxOptions
pub record TxOptions : Type 0 where
  pub isolation : ℕ
  pub read_only : Bool

-- driver.Stmt, with StmtExecContext, StmtQueryContext and NamedValueChecker. A result and rows are
-- values of the driver's.
pub record Stmt (W : Type 0) : Type 0 where
  pub close : Call W (Unit {0})
  pub num_input : ℤ
  pub exec : List ℕ → Call W ℕ
  pub query : List ℕ → Call W ℕ
  pub exec_context : Option (Option Context → List NamedValue → Call W ℕ)
  pub query_context : Option (Option Context → List NamedValue → Call W ℕ)
  pub check_named_value : Option (NamedValue → Reply NamedValue)

-- driver.Conn, with ConnPrepareContext, ConnBeginTx, ExecerContext, QueryerContext, Pinger,
-- SessionResetter, Validator and NamedValueChecker
pub record Conn (W : Type 0) : Type 0 where
  pub prepare : Text → Call W (Stmt W)
  pub prepare_context : Option (Option Context → Text → Call W (Stmt W))
  pub close : Call W (Unit {0})
  pub begin : Call W ℕ
  pub begin_tx : Option (Option Context → TxOptions → Call W ℕ)
  pub exec_context : Option (Option Context → Text → List NamedValue → Call W ℕ)
  pub query_context : Option (Option Context → Text → List NamedValue → Call W ℕ)
  pub ping : Option (Option Context → Call W (Unit {0}))
  pub reset_session : Option (Option Context → Call W (Unit {0}))
  pub is_valid : Option Bool
  pub check_named_value : Option (NamedValue → Reply NamedValue)

-- strings.Join(strings.Fields(query), " "), on ASCII; the flag says that a word has been written
-- and that a space is due before the next.
unfoldable pub join_fields : Bool → Bool → Text → Text
unfolding is_space
join_fields written due [] = []
join_fields written due (b ∷ rest) =
    let skipped = join_fields written written rest in
    let kept = join_fields true false rest in
    if is_space b then skipped else if due then 32 ∷ b ∷ kept else b ∷ kept

unfoldable pub one_line : Text → Text
unfolding join_fields
one_line query = join_fields false false query

-- What recordQuery takes from the process: the id of a span, the clock at its two readings, the
-- time in between as text, and the global scope.
pub record Timing : Type 0 where
  pub span_id : Text
  pub started : ℕ
  pub now : ℕ
  pub elapsed : Text
  pub current : Option ℕ

abbrev pub end_of : Text → Option DbError → QueryEnd
end_of elapsed none = took elapsed
end_of elapsed (some err_skip) = skip
end_of elapsed (some (wrapped_skip text)) = skip
end_of elapsed (some (db_error text)) = failed text

abbrev pub error_of : {A : Type 0} → Reply A → Option DbError
error_of (replied a) = none
error_of (errored e) = some e

-- plainValues
unfoldable pub plain_values : List NamedValue → Reply (List ℕ)
plain_values [] = replied []
plain_values (v ∷ rest) =
    let more = plain_values rest in
    if is_empty v.name
    then elim more [ replied values ↦ replied (v.value ∷ values) | errored e ↦ errored e ]
    else errored (db_error (codes "bugfree: the driver does not support named parameters"))

-- A check of a value, or driver.ErrSkip where the driver has none.
abbrev pub or_skip : Option (NamedValue → Reply NamedValue) → NamedValue → Reply NamedValue
or_skip none value = errored err_skip
or_skip (some check) value = check value

module _ {W : Type 0} (timing : Timing) where
  -- A call of the driver's below the trail.
  abbrev pub below : {A : Type 0} → Call W A → Call (Trail × W) A
  below call (trail, w) = let (r, w') = call w in (r, (trail, w'))

  -- A statement run by the driver, and its breadcrumb.
  unfoldable pub recorded : {A : Type 0} → Option Context → Text → Call W A → Call (Trail × W) A
  unfolding record_query one_line
  recorded ctx query call (trail, w) =
      let (r, w') = call w in
      (
        r,
        (
          record_query ctx timing.current (one_line query) timing.span_id timing.started timing.now
              (end_of timing.elapsed (error_of r)) trail,
          w',
        ),
      )

  abbrev pub with_values : (List ℕ → Call (Trail × W) ℕ) → Reply (List ℕ) → Call (Trail × W) ℕ
  with_values run (replied values) world = run values world
  with_values run (errored e) world = (errored e, world)

  -- (*sqlStmt).Exec and Query
  unfoldable pub stmt_exec : Stmt W → Text → List ℕ → Call (Trail × W) ℕ
  unfolding recorded
  stmt_exec s query values = recorded none query (s.exec values)

  unfoldable pub stmt_query : Stmt W → Text → List ℕ → Call (Trail × W) ℕ
  unfolding recorded
  stmt_query s query values = recorded none query (s.query values)

  -- (*sqlStmt).ExecContext and QueryContext
  unfoldable pub stmt_exec_context :
      Stmt W → Text → Option Context → List NamedValue → Call (Trail × W) ℕ
  unfolding recorded stmt_exec plain_values
  stmt_exec_context s query ctx args = elim s.exec_context [
    | none ↦ with_values (stmt_exec s query) (plain_values args)
    | some run ↦ recorded ctx query (run ctx args)
  ]

  unfoldable pub stmt_query_context :
      Stmt W → Text → Option Context → List NamedValue → Call (Trail × W) ℕ
  unfolding recorded stmt_query plain_values
  stmt_query_context s query ctx args = elim s.query_context [
    | none ↦ with_values (stmt_query s query) (plain_values args)
    | some run ↦ recorded ctx query (run ctx args)
  ]

  -- type sqlStmt struct, as the statement that database/sql sees
  unfoldable pub wrap_stmt : Stmt W → Text → Stmt (Trail × W)
  unfolding stmt_exec stmt_query stmt_exec_context stmt_query_context
  wrap_stmt s query = record {
    close = below s.close;
    num_input = s.num_input;
    exec = stmt_exec s query;
    query = stmt_query s query;
    exec_context = some (stmt_exec_context s query);
    query_context = some (stmt_query_context s query);
    check_named_value = some (or_skip s.check_named_value);
  }

  abbrev pub wrap_prepared : Text → Reply (Stmt W) → Reply (Stmt (Trail × W))
  wrap_prepared query (replied s) = replied (wrap_stmt s query)
  wrap_prepared query (errored e) = errored e

  -- (*sqlConn).Prepare and PrepareContext
  unfoldable pub conn_prepare : Conn W → Text → Call (Trail × W) (Stmt (Trail × W))
  unfolding wrap_stmt
  conn_prepare c query (trail, w) =
      let (r, w') = c.prepare query w in (wrap_prepared query r, (trail, w'))

  unfoldable pub conn_prepare_context :
      Conn W → Option Context → Text → Call (Trail × W) (Stmt (Trail × W))
  unfolding wrap_stmt
  conn_prepare_context c ctx query (trail, w) =
      let p : Reply (Stmt W) × W = elim c.prepare_context [
        | none ↦ c.prepare query w
        | some prepare ↦ prepare ctx query w
      ] in
      (wrap_prepared query p.0, (trail, p.1))

  -- (*sqlConn).BeginTx
  unfoldable pub conn_begin_tx : Conn W → Option Context → TxOptions → Call (Trail × W) ℕ
  conn_begin_tx c ctx options (trail, w) = elim c.begin_tx [
    | none ↦
        if not (options.isolation == 0)
        then (
          errored (db_error (codes "sql: driver does not support non-default isolation level")),
          (trail, w),
        )
        else if options.read_only
        then (
          errored (db_error (codes "sql: driver does not support read-only transactions")),
          (trail, w),
        )
        else below c.begin (trail, w)
    | some begin ↦ below (begin ctx options) (trail, w)
  ]

  -- (*sqlConn).ExecContext and QueryContext, on the driver's own
  unfoldable pub conn_run :
      Option (Option Context → Text → List NamedValue → Call W ℕ)
      → Option Context
      → Text
      → List NamedValue
      → Call (Trail × W) ℕ
  unfolding recorded
  conn_run none ctx query args world = (errored err_skip, world)
  conn_run (some run) ctx query args world = recorded ctx query (run ctx query args) world

  -- (*sqlConn).Ping and ResetSession
  unfoldable pub or_nil :
      Option (Option Context → Call W (Unit {0})) → Option Context → Call (Trail × W) (Unit {0})
  or_nil none ctx world = (replied tt, world)
  or_nil (some call) ctx world = below (call ctx) world

  -- type sqlConn struct, as the connection that database/sql sees
  unfoldable pub wrap_conn : Conn W → Conn (Trail × W)
  unfolding conn_prepare conn_prepare_context conn_begin_tx conn_run or_nil
  wrap_conn c = record {
    prepare = conn_prepare c;
    prepare_context = some (conn_prepare_context c);
    close = below c.close;
    begin = below c.begin;
    begin_tx = some (conn_begin_tx c);
    exec_context = some (conn_run c.exec_context);
    query_context = some (conn_run c.query_context);
    ping = some (or_nil c.ping);
    reset_session = some (or_nil c.reset_session);
    is_valid = some (elim c.is_valid [ none ↦ true | some valid ↦ valid ]);
    check_named_value = some (or_skip c.check_named_value);
  }
