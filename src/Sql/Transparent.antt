-- ===== src/Sql/Transparent.antt =====
-- sql-breadcrumbs.go: database/sql gets the same from a wrapped connection as from the bare one.
use bugfree_go_sdk.Base.{
  Bool-cases, List, Option, Option-cases, Text, [], ap, codes, inl, inr, is_empty, none, refl, some,
  sym, ℕ, ◌==◌, ◌∙◌, ◌∷◌, ◌≡◌, ◌⊎◌,
}
use bugfree_go_sdk.Scope.{Context}
use bugfree_go_sdk.Steps.{Trail}
use bugfree_go_sdk.Sql.{
  Call, Conn, NamedValue, Reply, Stmt, Timing, TxOptions, conn_begin_tx, conn_prepare_context,
  conn_run, db_error, err_skip, errored, or_nil, plain_values, recorded, replied, stmt_exec,
  stmt_exec_context, stmt_query, stmt_query_context, with_values, wrap_conn, wrap_prepared,
  wrap_stmt, wrapped_skip,
}
use bugfree_go_sdk.Sql.Database.{
  Way, check_all, conn_check, counted, db_begin, db_call, db_prepare, db_run, db_stmt_run, execs,
  or_prepared, positional, prepare_and_run, put_checked, queries, run_direct, run_prepared,
  run_values, stmt_args, with_args,
}
use bugfree_go_sdk.Sql.Checks.{conn_check-wrap_conn}

-- The same answer, in the same world of the driver's.
abbrev pub SameReply : {W A : Type 0} → Reply A × (Trail × W) → Reply A × W → Type 0
SameReply (r, (trail, w)) (r', w') = (r ≡ r') × (w ≡ w')

-- Both refuse a named argument, each in its own words.
abbrev pub IsRefused : {A : Type 0} → Reply A → Reply A → Type 0
IsRefused r r' =
    (r ≡ errored (db_error (codes "bugfree: the driver does not support named parameters")))
    × (r' ≡ errored (db_error (codes "sql: driver does not support the use of Named Parameters")))

-- The same answer or refusal, in the same world of the driver's.
abbrev pub SameAnswer : {W A : Type 0} → Reply A × (Trail × W) → Reply A × W → Type 0
SameAnswer (r, (trail, w)) (r', w') = ((r ≡ r') ⊎ IsRefused r r') × (w ≡ w')

plain_values-positional :
    (args : List NamedValue)
    → (plain_values args ≡ positional args) ⊎ IsRefused (plain_values args) (positional args)
unfolding plain_values
plain_values-positional [] = inl refl
plain_values-positional (v ∷ rest) = elim (Bool-cases (is_empty v.name)) [
  | inr named ↦ inr (rw named refl, rw named refl)
  | inl plain ↦ elim (plain_values-positional rest) [
    | inl same ↦ inl (rw (plain, same) refl)
    | inr (ours, theirs) ↦ inr (rw (plain, ours) refl, rw (plain, theirs) refl)
  ]
]

check_all-ext :
    (k k' : NamedValue → Reply NamedValue)
    → ((v : NamedValue) → k v ≡ k' v)
    → (args : List NamedValue) → check_all k args ≡ check_all k' args
check_all-ext k k' same [] = refl
check_all-ext k k' same (v ∷ rest) = λ i. put_checked (same v i) (check_all-ext k k' same rest i)

module _ {W : Type 0} (timing : Timing) where
  with_values-SameAnswer :
      (run : List ℕ → Call W ℕ) (ctx : Option Context) (query : Text) (trail : Trail) (w : W)
      (r r' : Reply (List ℕ))
      → (r ≡ r') ⊎ IsRefused r r'
      → SameAnswer
          (with_values timing (λ values. recorded timing ctx query (run values)) r (trail, w))
          (run_values run r' w)
  unfolding recorded
  with_values-SameAnswer run ctx query trail w r r' (inr (ours, theirs)) =
      rw (ours, theirs) (inr (refl, refl), refl)
  with_values-SameAnswer run ctx query trail w r r' (inl same) = rw same (go r')
    where
      go :
          (r : Reply (List ℕ))
          → SameAnswer
              (with_values timing (λ values. recorded timing ctx query (run values)) r (trail, w))
              (run_values run r w)
      go (replied values) = (inl refl, refl)
      go (errored e) = (inl refl, refl)

  stmt_run-SameAnswer :
      (way : Way) (s : Stmt W) (query : Text) (ctx : Option Context) (args : List NamedValue)
      (trail : Trail) (w : W)
      → SameAnswer
          (db_stmt_run way (wrap_stmt timing s query) ctx args (trail, w))
          (db_stmt_run way s ctx args w)
  unfolding db_stmt_run wrap_stmt stmt_exec_context stmt_query_context stmt_exec stmt_query recorded
  stmt_run-SameAnswer execs s query ctx args trail w = elim (Option-cases s.exec_context) [
    | inl e ↦ rw e (
        with_values-SameAnswer s.exec none query trail w (plain_values args) (positional args)
          (plain_values-positional args))
    | inr (run, e) ↦ rw e (inl refl, refl)
  ]
  stmt_run-SameAnswer queries s query ctx args trail w = elim (Option-cases s.query_context) [
    | inl e ↦ rw e (
        with_values-SameAnswer s.query none query trail w (plain_values args) (positional args)
          (plain_values-positional args))
    | inr (run, e) ↦ rw e (inl refl, refl)
  ]

  -- A statement's arguments are checked alike, where the connection's check and the default one,
  -- which stands in for it on a wrapped connection, accept the same of them.
  stmt_args-wrap_stmt :
      (default : NamedValue → Reply NamedValue) (c : Conn W) (s : Stmt W) (query : Text)
      (args accepted : List NamedValue)
      → check_all (conn_check default c) args ≡ replied accepted
      → check_all default args ≡ replied accepted
      → stmt_args default (wrap_conn timing c) (wrap_stmt timing s query) args
        ≡ stmt_args default c s args
  unfolding wrap_conn wrap_stmt
  stmt_args-wrap_stmt default c s query args accepted by_conn by_default =
      ap (counted s.num_input) (elim (Option-cases s.check_named_value) [
        | inr (check, e) ↦ rw e refl
        | inl e ↦ rw e (by_default ∙ sym by_conn)
      ])

  with_args-SameAnswer :
      (way : Way) (s : Stmt W) (query : Text) (ctx : Option Context) (trail : Trail) (w : W)
      (checked' checked : Reply (List NamedValue))
      → checked' ≡ checked
      → SameAnswer
          (with_args checked' (db_stmt_run way (wrap_stmt timing s query) ctx) (trail, w))
          (with_args checked (db_stmt_run way s ctx) w)
  with_args-SameAnswer way s query ctx trail w checked' checked same = rw same (go checked)
    where
      go :
          (checked : Reply (List NamedValue))
          → SameAnswer
              (with_args checked (db_stmt_run way (wrap_stmt timing s query) ctx) (trail, w))
              (with_args checked (db_stmt_run way s ctx) w)
      go (errored e) = (inl refl, refl)
      go (replied args) = stmt_run-SameAnswer way s query ctx args trail w

  or_prepared-SameAnswer :
      (other : Call (Trail × W) ℕ) (other' : Call W ℕ) (trail : Trail) (w : W) (r : Reply ℕ)
      → SameAnswer (other (trail, w)) (other' w)
      → SameAnswer (or_prepared other (r, (trail, w))) (or_prepared other' (r, w))
  or_prepared-SameAnswer other other' trail w (replied a) h = (inl refl, refl)
  or_prepared-SameAnswer other other' trail w (errored err_skip) h = h
  or_prepared-SameAnswer other other' trail w (errored (wrapped_skip text)) h = (inl refl, refl)
  or_prepared-SameAnswer other other' trail w (errored (db_error text)) h = (inl refl, refl)

  direct-SameAnswer :
      (direct : Option (Option Context → Text → List NamedValue → Call W ℕ))
      (other : Call (Trail × W) ℕ) (other' : Call W ℕ) (ctx : Option Context) (query : Text)
      (checked' checked : Reply (List NamedValue)) (accepted : List NamedValue) (trail : Trail)
      (w : W)
      → checked' ≡ replied accepted
      → checked ≡ replied accepted
      → ((trail : Trail) (w : W) → SameAnswer (other (trail, w)) (other' w))
      → SameAnswer
          (or_prepared other (with_args checked' (conn_run timing direct ctx query) (trail, w)))
          (run_direct direct other' ctx query checked w)
  unfolding conn_run recorded
  direct-SameAnswer none other other' ctx query checked' checked accepted trail w e e' h =
      rw e (h trail w)
  direct-SameAnswer (some run) other other' ctx query checked' checked accepted trail w e e' h =
      rw (e, e')
        (let p = recorded timing ctx query (run ctx query accepted) (trail, w) in
          or_prepared-SameAnswer other other' p.1.0 p.1.1 p.0 (h p.1.0 p.1.1))

  pub db_prepare-wrap_conn :
      (c : Conn W) (ctx : Option Context) (query : Text) (trail : Trail) (w : W)
      → db_prepare (wrap_conn timing c) ctx query (trail, w) ≡ (
        wrap_prepared timing query (db_prepare c ctx query w).0,
        (trail, (db_prepare c ctx query w).1),
      )
  unfolding db_prepare wrap_conn conn_prepare_context
  db_prepare-wrap_conn c ctx query trail w = elim (Option-cases c.prepare_context) [
    | inl e ↦ rw e refl
    | inr (prepare, e) ↦ rw e refl
  ]

  module _ (default : NamedValue → Reply NamedValue) (c : Conn W) (ctx : Option Context)
      (query : Text) (args accepted : List NamedValue)
      (by_conn : check_all (conn_check default c) args ≡ replied accepted)
      (by_default : check_all default args ≡ replied accepted) where
    run_prepared-SameAnswer :
        (way : Way) (trail : Trail) (w : W) (r : Reply (Stmt W))
        → SameAnswer
            (run_prepared
              (λ s.
                with_args (stmt_args default (wrap_conn timing c) s args) (db_stmt_run way s ctx))
              (wrap_prepared timing query r, (trail, w)))
            (run_prepared
              (λ s. with_args (stmt_args default c s args) (db_stmt_run way s ctx))
              (r, w))
    run_prepared-SameAnswer way trail w (errored e) = (inl refl, refl)
    run_prepared-SameAnswer way trail w (replied s) =
        let (r, same) =
          with_args-SameAnswer way s query ctx trail w
            (stmt_args default (wrap_conn timing c) (wrap_stmt timing s query) args)
            (stmt_args default c s args)
            (stmt_args-wrap_stmt default c s query args accepted by_conn by_default) in
        (r, unfold wrap_stmt in ap (λ (x : W). (s.close x).1) same)

    prepared-SameAnswer :
        (way : Way) (trail : Trail) (w : W)
        → SameAnswer
            (prepare_and_run default way (wrap_conn timing c) ctx query args (trail, w))
            (prepare_and_run default way c ctx query args w)
    prepared-SameAnswer way trail w =
        let prepared = db_prepare c ctx query w in
        rw (db_prepare-wrap_conn c ctx query trail w)
          (run_prepared-SameAnswer way trail prepared.1 prepared.0)

    -- The connection's check of the arguments, on the wrapped connection
    wrapped_args : check_all (conn_check default (wrap_conn timing c)) args ≡ replied accepted
    wrapped_args =
        check_all-ext (conn_check default (wrap_conn timing c)) (conn_check default c)
          (conn_check-wrap_conn timing default c) args
        ∙ by_conn

    -- Whatever optional interfaces the driver has and whatever it answers: a statement that
    -- database/sql executes or queries on a wrapped connection, directly or prepared, with arguments
    -- that the connection's check and the default one accept in the same form, ends with the same
    -- answer as on the bare connection, or with a refusal of named arguments where the bare one ends
    -- with one, and leaves the driver in the same state. The checks of the arguments, the
    -- statement's own among them, are part of both.
    pub db_run-SameAnswer :
        (way : Way) (trail : Trail) (w : W)
        → SameAnswer
            (db_run default way (wrap_conn timing c) ctx query args (trail, w))
            (db_run default way c ctx query args w)
    unfolding db_run wrap_conn
    db_run-SameAnswer execs trail w =
        direct-SameAnswer c.exec_context
          (prepare_and_run default execs (wrap_conn timing c) ctx query args)
          (prepare_and_run default execs c ctx query args) ctx query
          (check_all (conn_check default (wrap_conn timing c)) args)
          (check_all (conn_check default c) args) accepted trail w wrapped_args by_conn
          (prepared-SameAnswer execs)
    db_run-SameAnswer queries trail w =
        direct-SameAnswer c.query_context
          (prepare_and_run default queries (wrap_conn timing c) ctx query args)
          (prepare_and_run default queries c ctx query args) ctx query
          (check_all (conn_check default (wrap_conn timing c)) args)
          (check_all (conn_check default c) args) accepted trail w wrapped_args by_conn
          (prepared-SameAnswer queries)

  -- A transaction begun, a ping and a reset of the session that database/sql does on a wrapped
  -- connection come to the same as on the bare one, the refusals for a driver without BeginTx
  -- included, and leave the trail as it is.
  pub db_begin-SameReply :
      (c : Conn W) (ctx : Option Context) (options : TxOptions) (trail : Trail) (w : W)
      → (SameReply (db_begin (wrap_conn timing c) ctx options (trail, w)) (db_begin c ctx options w)
          × ((db_begin (wrap_conn timing c) ctx options (trail, w)).1.0 ≡ trail))
        × SameReply (db_call (wrap_conn timing c).ping ctx (trail, w)) (db_call c.ping ctx w)
        × SameReply
            (db_call (wrap_conn timing c).reset_session ctx (trail, w))
            (db_call c.reset_session ctx w)
  unfolding db_begin wrap_conn conn_begin_tx or_nil
  db_begin-SameReply c ctx options trail w =
      (begun (Option-cases c.begin_tx), called c.ping, called c.reset_session)
    where
      called :
          (o : Option (Option Context → Call W (Unit {0})))
          → SameReply (or_nil timing o ctx (trail, w)) (db_call o ctx w)
      called none = (refl, refl)
      called (some call) = (refl, refl)

      begun :
          ((c.begin_tx ≡ none)
            ⊎ ((b : Option Context → TxOptions → Call W ℕ) × (c.begin_tx ≡ some b)))
          → SameReply
              (db_begin (wrap_conn timing c) ctx options (trail, w))
              (db_begin c ctx options w)
            × ((db_begin (wrap_conn timing c) ctx options (trail, w)).1.0 ≡ trail)
      begun (inr (b, e)) = rw e ((refl, refl), refl)
      begun (inl e) = elim (Bool-cases (options.isolation == 0)) [
        | inr other ↦ rw (e, other) ((refl, refl), refl)
        | inl same ↦ elim (Bool-cases options.read_only) [
          | inl reads ↦ rw (e, same, reads) ((refl, refl), refl)
          | inr writes ↦ rw (e, same, writes) ((refl, refl), refl)
        ]
      ]
