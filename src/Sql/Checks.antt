-- ===== src/Sql/Checks.antt =====
-- sql-breadcrumbs.go, CheckNamedValue: which check an argument meets.
use bugfree_go_sdk.Base.{Option-cases, Text, inl, inr, none, refl, some, ◌≡◌}
use bugfree_go_sdk.Sql.{Conn, NamedValue, Reply, Stmt, Timing, replied, wrap_conn, wrap_stmt}
use bugfree_go_sdk.Sql.Database.{conn_check, stmt_check}

-- An argument of a statement sent directly meets the same check on a wrapped connection as on the
-- bare one.
pub conn_check-wrap_conn :
    {W : Type 0} (timing : Timing) (default : NamedValue → Reply NamedValue) (c : Conn W)
    (value : NamedValue)
    → conn_check default (wrap_conn timing c) value ≡ conn_check default c value
unfolding wrap_conn
conn_check-wrap_conn timing default c value = elim (Option-cases c.check_named_value) [
  | inl e ↦ rw e refl
  | inr (check, e) ↦ rw e refl
]

-- Where the driver checks values on its connections and not on its statements, an argument of a
-- prepared statement that the connection's check accepts, in whatever form, meets the default check
-- on a wrapped connection instead: the wrapped statement's check stands before the connection's and
-- asks for the default.
pub stmt_check_hides :
    {W : Type 0} (timing : Timing) (default check : NamedValue → Reply NamedValue) (c : Conn W)
    (s : Stmt W) (query : Text) (value accepted : NamedValue)
    → c.check_named_value ≡ some check
    → s.check_named_value ≡ none
    → check value ≡ replied accepted
    → (stmt_check default c s value ≡ replied accepted)
      × (stmt_check default (wrap_conn timing c) (wrap_stmt timing s query) value ≡ default value)
unfolding wrap_conn wrap_stmt
stmt_check_hides timing default check c s query value accepted on_conn on_stmt accepts =
    (rw (on_stmt, on_conn, accepts) refl, rw on_stmt refl)
