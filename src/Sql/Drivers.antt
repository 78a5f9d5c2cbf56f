-- ===== src/Sql/Drivers.antt =====
-- sql-breadcrumbs.go, WrapDriver and WrapConnector: how a wrapped connection is come by.
use bugfree_go_sdk.Base.{Option, Option-cases, Text, inl, inr, none, refl, some, ◌≡◌}
use bugfree_go_sdk.Scope.{Context}
use bugfree_go_sdk.Steps.{Trail}
use bugfree_go_sdk.Sql.{Call, Conn, Reply, Timing, errored, replied, wrap_conn}

-- driver.Connector, by its Connect
abbrev pub Connector : Type 0 → Type 0
Connector W = Option Context → Call W (Conn W)

-- driver.Driver, with DriverContext
pub record Driver (W : Type 0) : Type 0 where
  pub open_conn : Text → Call W (Conn W)
  pub open_connector : Option (Text → Call W (Connector W))

module _ {W : Type 0} (timing : Timing) where
  -- return &sqlConn{inner: conn}, or the error
  abbrev pub wrap_opened : Reply (Conn W) → Reply (Conn (Trail × W))
  wrap_opened (replied c) = replied (wrap_conn timing c)
  wrap_opened (errored e) = errored e

  -- (*sqlDriver).Open
  unfoldable pub driver_open : Driver W → Text → Call (Trail × W) (Conn (Trail × W))
  unfolding wrap_conn
  driver_open d name (trail, w) = let (r, w') = d.open_conn name w in (wrap_opened r, (trail, w'))

  -- (*sqlConnector).Connect, and WrapConnector
  unfoldable pub wrap_connector : Connector W → Connector (Trail × W)
  unfolding wrap_conn
  wrap_connector connector ctx (trail, w) =
      let (r, w') = connector ctx w in (wrap_opened r, (trail, w'))

  -- dsnConnector
  abbrev pub dsn_connector : Driver W → Text → Connector W
  dsn_connector d name ctx = d.open_conn name

  abbrev pub wrap_reply : Reply (Connector W) → Reply (Connector (Trail × W))
  unfolding wrap_connector
  wrap_reply (replied connector) = replied (wrap_connector connector)
  wrap_reply (errored e) = errored e

  -- (*sqlDriver).OpenConnector
  unfoldable pub driver_open_connector : Driver W → Text → Call (Trail × W) (Connector (Trail × W))
  unfolding wrap_reply wrap_connector
  driver_open_connector d name (trail, w) = elim d.open_connector [
    | none ↦ (replied (wrap_connector (dsn_connector d name)), (trail, w))
    | some open_it ↦ (wrap_reply (open_it name w).0, (trail, (open_it name w).1))
  ]

  -- WrapDriver
  unfoldable pub wrap_driver : Driver W → Driver (Trail × W)
  unfolding driver_open driver_open_connector
  wrap_driver d = record {
    open_conn = driver_open d;
    open_connector = some (driver_open_connector d);
  }

-- What sql.Open and the first connection of its pool come to: the driver's connector if it has one,
-- and else its Open.
module _ {W : Type 0} where
  abbrev pub connect_by : Option Context → Reply (Connector W) × W → Reply (Conn W) × W
  connect_by ctx (replied connector, w) = connector ctx w
  connect_by ctx (errored e, w) = (errored e, w)

  unfoldable pub db_connect : Driver W → Text → Option Context → Call W (Conn W)
  db_connect d name ctx w = elim d.open_connector [
    | none ↦ d.open_conn name w
    | some open_it ↦ connect_by ctx (open_it name w)
  ]

-- Whatever the driver has and answers: a connection that database/sql opens with a wrapped driver
-- is the one that it opens with the bare driver, wrapped, or the same error, and the driver is left
-- in the same state.
pub db_connect-wrap_driver :
    {W : Type 0} (timing : Timing) (d : Driver W) (name : Text) (ctx : Option Context)
    (trail : Trail) (w : W)
    → db_connect (wrap_driver timing d) name ctx (trail, w)
      ≡ (wrap_opened timing (db_connect d name ctx w).0, (trail, (db_connect d name ctx w).1))
unfolding db_connect wrap_driver driver_open_connector wrap_connector
db_connect-wrap_driver {W = W} timing d name ctx trail w = elim (Option-cases d.open_connector) [
  | inl e ↦ rw e refl
  | inr (open_it, e) ↦ rw e (go (open_it name w).0 (open_it name w).1)
]
  where
    go :
        (r : Reply (Connector W)) (w' : W)
        → connect_by ctx (wrap_reply timing r, (trail, w'))
          ≡ (wrap_opened timing (connect_by ctx (r, w')).0, (trail, (connect_by ctx (r, w')).1))
    go (replied connector) w' = refl
    go (errored e) w' = refl
