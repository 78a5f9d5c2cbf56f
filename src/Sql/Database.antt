-- ===== src/Sql/Database.antt =====
-- What database/sql does with a connection: the part of Go's standard library that the wrappers of
-- sql-breadcrumbs.go stand between, for a context that does not end and a driver without the
-- legacy interfaces Execer, Queryer and ColumnConverter, whose checks remove no argument.
use bugfree_go_sdk.Base.{
  Bool, List, Option, Text, [], codes, if◌then◌else◌, is_empty, length, negsuc, none, not, or_else,
  pos, some, ℕ, ℤ, ◌++◌, ◌==◌, ◌∷◌,
}
use bugfree_go_sdk.Scope.{Context}
use bugfree_go_sdk.Sql.{
  Call, Conn, DbError, NamedValue, Reply, Stmt, TxOptions, db_error, err_skip, errored, replied,
  wrapped_skip,
}

-- namedValueToValue
abbrev pub positional : List NamedValue → Reply (List ℕ)
positional [] = replied []
positional (v ∷ rest) =
    let more = positional rest in
    if is_empty v.name
    then elim more [ replied values ↦ replied (v.value ∷ values) | errored e ↦ errored e ]
    else errored (db_error (codes "sql: driver does not support the use of Named Parameters"))

-- The check of an argument: the statement's, else the connection's, else the default; the default
-- also where the check asks for it.
abbrev pub after_check :
    (NamedValue → Reply NamedValue) → NamedValue → Reply NamedValue → Reply NamedValue
after_check default value (errored err_skip) = default value
after_check default value (errored (wrapped_skip text)) = errored (wrapped_skip text)
after_check default value (errored (db_error text)) = errored (db_error text)
after_check default value (replied v) = replied v

abbrev pub check_by :
    (NamedValue → Reply NamedValue)
    → Option (NamedValue → Reply NamedValue)
    → NamedValue
    → Reply NamedValue
check_by default none value = default value
check_by default (some check) value = after_check default value (check value)

-- The error of an argument's check, in database/sql's words; the argument's name and type are left
-- out.
abbrev pub converting : DbError → DbError
converting err_skip = wrapped_skip (codes "sql: converting argument: driver: skip fast-path")
converting (wrapped_skip text) = wrapped_skip (codes "sql: converting argument: " ++ text)
converting (db_error text) = db_error (codes "sql: converting argument: " ++ text)

abbrev pub put_checked : Reply NamedValue → Reply (List NamedValue) → Reply (List NamedValue)
put_checked (errored e) more = errored (converting e)
put_checked (replied checked) (errored e) = errored e
put_checked (replied checked) (replied accepted) = replied (checked ∷ accepted)

-- The loop of driverArgsConnLocked, for checks that remove no argument
abbrev pub check_all : (NamedValue → Reply NamedValue) → List NamedValue → Reply (List NamedValue)
check_all check [] = replied []
check_all check (v ∷ rest) = put_checked (check v) (check_all check rest)

-- want == -1 || len(nvargs) == want
abbrev pub fits : ℤ → ℕ → Bool
fits (pos n) given = n == given
fits (negsuc n) given = n == 0

abbrev pub counted : ℤ → Reply (List NamedValue) → Reply (List NamedValue)
counted want (errored e) = errored e
counted want (replied args) =
    if fits want (length args)
    then replied args
    else errored (db_error (codes "sql: the number of arguments does not fit"))

-- Whether a statement is executed or queried.
pub data Way : Type 0 where
  execs queries : Way

module _ {W : Type 0} where
  -- ctxDriverStmtExec and ctxDriverStmtQuery
  abbrev pub run_values : (List ℕ → Call W ℕ) → Reply (List ℕ) → Call W ℕ
  run_values run (replied values) w = run values w
  run_values run (errored e) w = (errored e, w)

  abbrev pub context_of : Way → Stmt W → Option (Option Context → List NamedValue → Call W ℕ)
  context_of execs s = s.exec_context
  context_of queries s = s.query_context

  abbrev pub plain_of : Way → Stmt W → List ℕ → Call W ℕ
  plain_of execs s = s.exec
  plain_of queries s = s.query

  abbrev pub direct_of : Way → Conn W → Option (Option Context → Text → List NamedValue → Call W ℕ)
  direct_of execs c = c.exec_context
  direct_of queries c = c.query_context

  unfoldable pub db_stmt_run : Way → Stmt W → Option Context → List NamedValue → Call W ℕ
  db_stmt_run way s ctx args = elim (context_of way s) [
    | none ↦ run_values (plain_of way s) (positional args)
    | some run ↦ run ctx args
  ]

  -- ctxDriverPrepare
  unfoldable pub db_prepare : Conn W → Option Context → Text → Call W (Stmt W)
  db_prepare c ctx query = elim c.prepare_context [
    | none ↦ c.prepare query
    | some prepare ↦ prepare ctx query
  ]

  -- The statement prepared, run and closed.
  abbrev pub run_prepared : (Stmt W → Call W ℕ) → Reply (Stmt W) × W → Reply ℕ × W
  run_prepared run (errored e, w) = (errored e, w)
  run_prepared run (replied s, w) = let (r, w') = run s w in (r, (s.close w').1)

  -- What the direct way came to; driver.ErrSkip sends it to the other.
  abbrev pub or_prepared : Call W ℕ → Reply ℕ × W → Reply ℕ × W
  or_prepared other (replied r, w) = (replied r, w)
  or_prepared other (errored err_skip, w) = other w
  or_prepared other (errored (wrapped_skip text), w) = (errored (wrapped_skip text), w)
  or_prepared other (errored (db_error text), w) = (errored (db_error text), w)

  -- A run on the arguments that a check accepted, or its error.
  abbrev pub with_args : Reply (List NamedValue) → (List NamedValue → Call W ℕ) → Call W ℕ
  with_args (errored e) run w = (errored e, w)
  with_args (replied args) run w = run args w

  -- The check of an argument of a statement sent directly, and of one of a prepared statement.
  abbrev pub conn_check : (NamedValue → Reply NamedValue) → Conn W → NamedValue → Reply NamedValue
  conn_check default c value = check_by default c.check_named_value value

  abbrev pub stmt_check :
      (NamedValue → Reply NamedValue) → Conn W → Stmt W → NamedValue → Reply NamedValue
  stmt_check default c s value =
      check_by default (or_else s.check_named_value c.check_named_value) value

  -- driverArgsConnLocked for a prepared statement
  abbrev pub stmt_args :
      (NamedValue → Reply NamedValue) → Conn W → Stmt W → List NamedValue → Reply (List NamedValue)
  stmt_args default c s args = counted s.num_input (check_all (stmt_check default c s) args)

  -- The direct way on the arguments as the connection's check leaves them, where the connection has
  -- that way, and the prepared one.
  abbrev pub run_direct :
      Option (Option Context → Text → List NamedValue → Call W ℕ)
      → Call W ℕ
      → Option Context
      → Text
      → Reply (List NamedValue)
      → Call W ℕ
  run_direct none other ctx query checked w = other w
  run_direct (some run) other ctx query checked w =
      or_prepared other (with_args checked (run ctx query) w)

  abbrev pub prepare_and_run :
      (NamedValue → Reply NamedValue)
      → Way
      → Conn W
      → Option Context
      → Text
      → List NamedValue
      → Call W ℕ
  prepare_and_run default way c ctx query args w =
      run_prepared (λ s. with_args (stmt_args default c s args) (db_stmt_run way s ctx))
        (db_prepare c ctx query w)

  -- execDC and queryDC; `default` is the default check of an argument.
  unfoldable pub db_run :
      (NamedValue → Reply NamedValue)
      → Way
      → Conn W
      → Option Context
      → Text
      → List NamedValue
      → Call W ℕ
  db_run default way c ctx query args w =
      run_direct (direct_of way c) (prepare_and_run default way c ctx query args) ctx query
        (check_all (conn_check default c) args) w

  -- ctxDriverBegin
  unfoldable pub db_begin : Conn W → Option Context → TxOptions → Call W ℕ
  db_begin c ctx options w = elim c.begin_tx [
    | none ↦
        if not (options.isolation == 0)
        then (
          errored (db_error (codes "sql: driver does not support non-default isolation level")),
          w,
        )
        else if options.read_only
        then (errored (db_error (codes "sql: driver does not support read-only transactions")), w)
        else c.begin w
    | some begin ↦ begin ctx options w
  ]

  -- pingDC and resetSession
  abbrev pub db_call :
      Option (Option Context → Call W (Unit {0})) → Option Context → Call W (Unit {0})
  db_call none ctx w = (replied tt, w)
  db_call (some call) ctx w = call ctx w
