-- ===== src/Sql/Recorded.antt =====
-- sql-breadcrumbs.go: what a statement leaves on the trail.
use bugfree_go_sdk.Base.{
  List, Option, Option-cases, Text, codes, false, get_elem?, get_elem?-modify_ne,
  get_elem?-modify_self, inl, inr, none, refl, some, ℕ, ◌==◌, ◌≡◌, ◌≢◌, ◌⊎◌,
}
use bugfree_go_sdk.Scope.{Context, Scope, add_breadcrumb, push_crumb, scope_from_context, stamped}
use bugfree_go_sdk.Tracing.{finish_span, set_status, start_span}
use bugfree_go_sdk.Steps.{
  QueryEnd, Trail, crumb_of_query, cut_query, failed, record_query, record_ran, skip, took,
}
use bugfree_go_sdk.Sql.{
  Call, Conn, DbError, NamedValue, Reply, Stmt, Timing, conn_run, db_error, end_of, err_skip,
  error_of, errored, one_line, plain_values, recorded, replied, stmt_exec, stmt_exec_context,
  stmt_query, stmt_query_context, with_values, wrap_conn, wrap_prepared, wrap_stmt, wrapped_skip,
}
use bugfree_go_sdk.Sql.Database.{
  Way, check_all, conn_check, db_prepare, db_run, db_stmt_run, execs, or_prepared, prepare_and_run,
  queries, run_prepared, stmt_args, with_args,
}
use bugfree_go_sdk.Sql.Transparent.{db_prepare-wrap_conn}
use bugfree_go_sdk.Event.{Breadcrumb, instant}

-- The trail of a statement: its query recorded once, by the context of the call or by none, with
-- the end that the caller is told; or an error told, and nothing recorded.
abbrev pub IsRecorded :
    {W A : Type 0} → Timing → Option Context → Text → Trail → Reply A × (Trail × W) → Type 0
IsRecorded timing ctx query trail (r, (trail', w)) =
    ((by : Option Context) × ((by ≡ ctx) ⊎ (by ≡ none))
      × (trail'
          ≡ record_query by timing.current (one_line query) timing.span_id timing.started timing.now
              (end_of timing.elapsed (error_of r)) trail))
    ⊎ ((e : DbError) × (r ≡ errored e) × (trail' ≡ trail))

-- The trail once the driver has run a statement directly.
abbrev after_direct : Timing → Option Context → Text → Trail → Reply ℕ → Trail
after_direct timing ctx query trail r =
    record_query ctx timing.current (one_line query) timing.span_id timing.started timing.now
      (end_of timing.elapsed (error_of r)) trail

module _ {W : Type 0} (timing : Timing) where
  recorded-IsRecorded :
      (by ctx : Option Context) (query : Text) (call : Call W ℕ) (trail : Trail) (w : W)
      → ((by ≡ ctx) ⊎ (by ≡ none))
      → IsRecorded timing ctx query trail (recorded timing by query call (trail, w))
  unfolding recorded
  recorded-IsRecorded by ctx query call trail w from = inl (by, from, refl)

  with_values-IsRecorded :
      (run : List ℕ → Call W ℕ) (ctx : Option Context) (query : Text) (trail : Trail) (w : W)
      (r : Reply (List ℕ))
      → IsRecorded timing ctx query trail
          (with_values timing (λ values. recorded timing none query (run values)) r (trail, w))
  with_values-IsRecorded run ctx query trail w (replied values) =
      recorded-IsRecorded none ctx query (run values) trail w (inr refl)
  with_values-IsRecorded run ctx query trail w (errored e) = inr (e, refl, refl)

  stmt_run-IsRecorded :
      (way : Way) (s : Stmt W) (query : Text) (ctx : Option Context) (args : List NamedValue)
      (trail : Trail) (w : W)
      → IsRecorded timing ctx query trail
          (db_stmt_run way (wrap_stmt timing s query) ctx args (trail, w))
  unfolding db_stmt_run wrap_stmt stmt_exec_context stmt_query_context stmt_exec stmt_query
  stmt_run-IsRecorded execs s query ctx args trail w = elim (Option-cases s.exec_context) [
    | inl e ↦ rw e (with_values-IsRecorded s.exec ctx query trail w (plain_values args))
    | inr (run, e) ↦ rw e (recorded-IsRecorded ctx ctx query (run ctx args) trail w (inl refl))
  ]
  stmt_run-IsRecorded queries s query ctx args trail w = elim (Option-cases s.query_context) [
    | inl e ↦ rw e (with_values-IsRecorded s.query ctx query trail w (plain_values args))
    | inr (run, e) ↦ rw e (recorded-IsRecorded ctx ctx query (run ctx args) trail w (inl refl))
  ]

  with_args-IsRecorded :
      (way : Way) (s : Stmt W) (query : Text) (ctx : Option Context) (trail : Trail) (w : W)
      (checked : Reply (List NamedValue))
      → IsRecorded timing ctx query trail
          (with_args checked (db_stmt_run way (wrap_stmt timing s query) ctx) (trail, w))
  with_args-IsRecorded way s query ctx trail w (errored e) = inr (e, refl, refl)
  with_args-IsRecorded way s query ctx trail w (replied args) =
      stmt_run-IsRecorded way s query ctx args trail w

  run_prepared-IsRecorded :
      (default : NamedValue → Reply NamedValue) (way : Way) (c : Conn (Trail × W)) (query : Text)
      (ctx : Option Context) (args : List NamedValue) (trail : Trail) (w : W) (r : Reply (Stmt W))
      → IsRecorded timing ctx query trail (
          run_prepared
            (λ s. with_args (stmt_args default c s args) (db_stmt_run way s ctx))
            (wrap_prepared timing query r, (trail, w)))
  run_prepared-IsRecorded default way c query ctx args trail w (errored e) = inr (e, refl, refl)
  run_prepared-IsRecorded default way c query ctx args trail w (replied s) =
      let checked = stmt_args default c (wrap_stmt timing s query) args in
      let h = with_args-IsRecorded way s query ctx trail w checked in unfold wrap_stmt in h

  or_prepared-IsRecorded :
      (ctx : Option Context) (query : Text) (other : Call (Trail × W) ℕ) (trail : Trail) (w : W)
      (r : Reply ℕ)
      → IsRecorded timing ctx query trail (other (trail, w))
      → IsRecorded timing ctx query trail
          (or_prepared other (r, (after_direct timing ctx query trail r, w)))
  unfolding record_query
  or_prepared-IsRecorded ctx query other trail w (replied a) h = inl (ctx, inl refl, refl)
  or_prepared-IsRecorded ctx query other trail w (errored err_skip) h = h
  or_prepared-IsRecorded ctx query other trail w (errored (wrapped_skip text)) h =
      inl (ctx, inl refl, refl)
  or_prepared-IsRecorded ctx query other trail w (errored (db_error text)) h =
      inl (ctx, inl refl, refl)

  -- The error of an argument's check is never driver.ErrSkip itself; were it, the other way follows.
  refused-IsRecorded :
      (ctx : Option Context) (query : Text) (other : Call (Trail × W) ℕ) (trail : Trail) (w : W)
      (e : DbError)
      → IsRecorded timing ctx query trail (other (trail, w))
      → IsRecorded timing ctx query trail (or_prepared other (errored e, (trail, w)))
  refused-IsRecorded ctx query other trail w err_skip h = h
  refused-IsRecorded ctx query other trail w (wrapped_skip text) h =
      inr (wrapped_skip text, refl, refl)
  refused-IsRecorded ctx query other trail w (db_error text) h = inr (db_error text, refl, refl)

  prepared-IsRecorded :
      (default : NamedValue → Reply NamedValue) (way : Way) (c : Conn W) (ctx : Option Context)
      (query : Text) (args : List NamedValue) (trail : Trail) (w : W)
      → IsRecorded timing ctx query trail
          (prepare_and_run default way (wrap_conn timing c) ctx query args (trail, w))
  prepared-IsRecorded default way c ctx query args trail w =
      let prepared = db_prepare c ctx query w in
      rw (db_prepare-wrap_conn timing c ctx query trail w) (
        run_prepared-IsRecorded default way (wrap_conn timing c) query ctx args trail prepared.1
          prepared.0)

  direct-IsRecorded :
      (direct : Option (Option Context → Text → List NamedValue → Call W ℕ))
      (other : Call (Trail × W) ℕ) (ctx : Option Context) (query : Text)
      (checked : Reply (List NamedValue)) (trail : Trail) (w : W)
      → ((w : W) → IsRecorded timing ctx query trail (other (trail, w)))
      → IsRecorded timing ctx query trail
          (or_prepared other (with_args checked (conn_run timing direct ctx query) (trail, w)))
  unfolding conn_run recorded
  direct-IsRecorded direct other ctx query (errored e) trail w h =
      refused-IsRecorded ctx query other trail w e (h w)
  direct-IsRecorded none other ctx query (replied args) trail w h = h w
  direct-IsRecorded (some run) other ctx query (replied args) trail w h =
      let p = run ctx query args w in or_prepared-IsRecorded ctx query other trail p.1 p.0 (h p.1)

  -- Whatever the driver has and answers, its checks of the arguments included: a statement that
  -- database/sql executes or queries on a wrapped connection, directly or prepared, is given to
  -- recordQuery once in effect, with the end that the caller is told, on the call's context or on
  -- the background one; or it ends in an error and the trail stays as it was.
  pub db_run-IsRecorded :
      (default : NamedValue → Reply NamedValue) (way : Way) (c : Conn W) (ctx : Option Context)
      (query : Text) (args : List NamedValue) (trail : Trail) (w : W)
      → IsRecorded timing ctx query trail
          (db_run default way (wrap_conn timing c) ctx query args (trail, w))
  unfolding db_run wrap_conn
  db_run-IsRecorded default execs c ctx query args trail w =
      direct-IsRecorded c.exec_context
        (prepare_and_run default execs (wrap_conn timing c) ctx query args) ctx query
        (check_all (conn_check default (wrap_conn timing c)) args) trail w
        (prepared-IsRecorded default execs c ctx query args trail)
  db_run-IsRecorded default queries c ctx query args trail w =
      direct-IsRecorded c.query_context
        (prepare_and_run default queries (wrap_conn timing c) ctx query args) ctx query
        (check_all (conn_check default (wrap_conn timing c)) args) trail w
        (prepared-IsRecorded default queries c ctx query args trail)

-- The breadcrumb of a statement that ran, as recordQuery leaves it.
abbrev pub IsStepOf : Timing → Text → Breadcrumb → Type 0
IsStepOf timing query crumb =
    (crumb.category ≡ codes "sql")
    × (crumb.message ≡ cut_query (one_line query))
    × (crumb.at ≡ instant timing.now)

-- A statement of a driver without StmtExecContext, run without named arguments and with a context
-- that carries a scope other than the global one, which ends in whatever way but with ErrSkip or an
-- error that wraps it: the context's scope and the spans stay as they are, and the step, of category
-- sql with the query and the time, is pushed onto the global scope.
pub legacy_exec_unscoped :
    {W : Type 0} (timing : Timing) (s : Stmt W) (query : Text) (ctx : Option Context)
    (args : List NamedValue) (values : List ℕ) (trail : Trail) (w : W) (i g : ℕ) (global : Scope)
    → s.exec_context ≡ none
    → scope_from_context ctx ≡ some i
    → timing.current ≡ some g
    → get_elem? trail.scopes g ≡ some global
    → (i == g) ≡ false
    → plain_values args ≡ replied values
    → end_of timing.elapsed (error_of (s.exec values w).0) ≢ skip
    → (get_elem? (stmt_exec_context timing s query ctx args (trail, w)).1.0.scopes i
        ≡ get_elem? trail.scopes i)
      × ((stmt_exec_context timing s query ctx args (trail, w)).1.0.spans ≡ trail.spans)
      × ((crumb : Breadcrumb) × IsStepOf timing query crumb
          × (get_elem? (stmt_exec_context timing s query ctx args (trail, w)).1.0.scopes g
              ≡ some (push_crumb crumb global)))
unfolding stmt_exec_context stmt_exec recorded
legacy_exec_unscoped timing s query ctx args values trail w i g global legacy scoped current at
      other plain not_skipped =
    rw (legacy, plain) (ran (end_of timing.elapsed (error_of (s.exec values w).0)) not_skipped)
  where
    after : QueryEnd → Trail
    after end =
        record_query none timing.current (one_line query) timing.span_id timing.started timing.now
          end trail

    step : QueryEnd → Breadcrumb
    step end = stamped timing.now (crumb_of_query (cut_query (one_line query)) end)

    ran :
        (end : QueryEnd)
        → end ≢ skip
        → (get_elem? (after end).scopes i ≡ get_elem? trail.scopes i)
          × ((after end).spans ≡ trail.spans)
          × ((crumb : Breadcrumb) × IsStepOf timing query crumb
              × (get_elem? (after end).scopes g ≡ some (push_crumb crumb global)))
    ran skip h = absurd (h refl)
    ran (failed text) h =
        unfold record_query record_ran add_breadcrumb start_span finish_span set_status
          scope_from_context in
        rw current (
          get_elem?-modify_ne (push_crumb (step (failed text))) trail.scopes g i other,
          refl,
          (
            step (failed text),
            unfold crumb_of_query in (refl, refl, refl),
            get_elem?-modify_self (push_crumb (step (failed text))) trail.scopes g global at,
          ),
        )
    ran (took text) h =
        unfold record_query record_ran add_breadcrumb start_span finish_span set_status
          scope_from_context in
        rw current (
          get_elem?-modify_ne (push_crumb (step (took text))) trail.scopes g i other,
          refl,
          (
            step (took text),
            unfold crumb_of_query in (refl, refl, refl),
            get_elem?-modify_self (push_crumb (step (took text))) trail.scopes g global at,
          ),
        )
