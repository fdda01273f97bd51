-- ===== src/Session/Connections.antt =====
-- Close, Ping, BeginTx, IsValid and ResetSession of Conn in connection.go, and connectNative, Connect
-- and Close of Connector in datafusion.go.
use datafusion_go.Base.{
  ℕ, suc, ◌-◌, Bool, true, false, not, ◌&&◌, Option, none, some, [], ◌∷◌, if◌then◌else◌,
}
use datafusion_go.Errors.{
  GoError, nil, join, bad_conn, connect, closed, unsupported, Result, ok, err, ◌>>◌, driver_error,
  errorf,
}
use datafusion_go.Session.State.{Driver, Answers, check_ctx, native_connection_close}
use datafusion_go.Session.Statements.{invalidate_statements}

-- Connector.Close.
unfoldable pub close_connector : Driver → Driver
close_connector d =
    if d.connector.closed
    then d
    else record d { connector = record d.connector { closed = true; db_open = false } }

-- The part of Conn.Close that holds the lock, of a connection that is open.
abbrev pub close_open : Driver → Driver
close_open d =
    let d1 = invalidate_statements (record d { conn = record d.conn { closed = true } }) in
    record d1 {
      conn = record d1.conn { native = none };
      open_connections = native_connection_close d1.conn.native d1.open_connections;
    }

-- Conn.Close.
unfoldable pub close_conn : Driver → Driver
unfolding close_connector invalidate_statements
close_conn d = elim d.conn.closed [
  | true ↦ d
  | false ↦ if d.conn.owns_connector then close_connector (close_open d) else close_open d
]

-- checkOpen, and withNative of a function that answers.
unfoldable pub check_open : Driver → Result (Unit {0})
check_open d =
    if d.conn.closed then err (driver_error closed "datafusion connection is closed" nil) else ok tt

abbrev pub has_native : Option ℕ → Bool
has_native none = false
has_native (some s) = true

-- IsValid.
unfoldable pub is_valid : Driver → Bool
is_valid d = not d.conn.closed && has_native d.conn.native

-- Ping.
unfoldable pub ping : Answers → Driver → Result (Unit {0})
unfolding check_open
ping a d = check_ctx a.ctx_err >> check_open d

-- BeginTx.
unfoldable pub begin_tx : Answers → Driver → Result (Unit {0})
unfolding check_open
begin_tx a d = do
  check_ctx a.ctx_err
  check_open d
  err (driver_error unsupported "DataFusion transactions are not supported" nil)

-- Database.Connect, of a database whose handle may be closed.
unfoldable pub native_connect : Bool → Result (Unit {0}) → Result (Unit {0})
native_connect false answer = err (errorf "datafusion-go database is closed" [])
native_connect true answer = answer

-- connectNative. The new connection is known by its number.
unfoldable pub connect_native : Answers → Driver → Driver × Result ℕ
unfolding native_connect
connect_native a d = elim a.connect_ctx [
  | some e ↦ (d, err e)
  | none ↦ elim d.connector.closed [
    | true ↦ (d, err (driver_error closed "datafusion connector is closed" nil))
    | false ↦ elim (native_connect d.connector.db_open a.connect) [
      | err e ↦ (d, err (driver_error connect "could not connect to DataFusion database" e))
      | ok u ↦ (
        record d { sessions = suc d.sessions; open_connections = suc d.open_connections },
        ok d.sessions,
      )
    ]
  ]
]

-- The first part of ResetSession: `true` if it goes on with a new connection.
unfoldable pub reset_check : Answers → Driver → Result Bool
unfolding is_valid
reset_check a d = do
  check_ctx a.ctx_err
  if not (is_valid d)
      then err bad_conn
      else if d.connector.shared_session
      then (if d.connector.closed then err bad_conn else ok false)
      else ok true

-- The user's callback, if there is one.
abbrev pub run_init : Answers → Driver → Option GoError
run_init a d = if d.connector.has_init then a.init else none

-- The replacement is closed: a connection with no statements.
abbrev pub close_replacement : Driver → Driver
close_replacement d = record d { open_connections = d.open_connections - 1 }

-- The part of ResetSession that makes the replacement. When it fails the connection is closed.
unfoldable pub reset_connect : Answers → Driver → Driver × Result (Unit {0})
unfolding connect_native close_conn
reset_connect a d =
    let (d1, made) = connect_native a d in
    elim made [
      | err e ↦ (close_conn d1, err (join bad_conn e))
      | ok session ↦ elim (run_init a d1) [
        | some e ↦ (close_conn (close_replacement d1), err (join bad_conn e))
        | none ↦ (record d1 { pending = session ∷ d1.pending }, ok tt)
      ]
    ]

-- The part of ResetSession that installs the replacement, unless the connection was closed meanwhile.
unfoldable pub reset_commit : Driver → Driver × Result (Unit {0})
unfolding invalidate_statements is_valid
reset_commit d = elim d.pending [
  | [] ↦ (d, ok tt)
  | session ∷ rest ↦
      let d1 = record d { pending = rest } in
      elim (is_valid d1) [
        | false ↦ (close_replacement d1, err bad_conn)
        | true ↦
            let d2 = invalidate_statements d1 in
            (
              record d2 {
                conn = record d2.conn { native = some session };
                open_connections = native_connection_close d2.conn.native d2.open_connections;
              },
              ok tt,
            )
      ]
]

-- ResetSession, when nothing else runs between its parts.
unfoldable pub reset_session : Answers → Driver → Driver × Result (Unit {0})
unfolding reset_check reset_connect reset_commit
reset_session a d = elim (reset_check a d) [
  | err e ↦ (d, err e)
  | ok false ↦ (d, ok tt)
  | ok true ↦
      let (d1, made) = reset_connect a d in
      elim made [ err e ↦ (d1, err e) | ok u ↦ reset_commit d1 ]
]
