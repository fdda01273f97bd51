-- ===== src/Connector/Open.antt =====
-- Connector.Connect and Driver.Open of datafusion.go, and NewSession and Session.Close of session.go:
-- what each opens and closes.
use datafusion_go.Base.{
  ℕ, suc, ◌-◌, String, Bool, true, false, not, Option, List, [], if◌then◌else◌,
}
use datafusion_go.Errors.{GoError, nil, Result, ok, err, driver_error, connect, closed}
use datafusion_go.Session.State.{check_ctx}
use datafusion_go.Session.SharedInit.{Shared, new_shared, InitAnswers, initialize_shared}
use datafusion_go.Connector.Dsn.{UrlLibrary, ConnectorOption}
use datafusion_go.Connector.Explicit.{Opened, new_connector}

-- What the library, the context of Connect and the init callback answer. A connector without a
-- callback has no `init`; with one, it answers by itself if sessions are not shared.
pub record OpenAnswers : Type 0 where
  pub open_database : String → Result (Unit {0})
  pub ctx_err : Option GoError
  pub connect_native : Result (Unit {0})
  pub has_init : Bool
  pub shared_init : InitAnswers
  pub own_init : Result (Unit {0})

-- The database handle and the native connections that are open, the connector's part of
-- initializeShared with whether the connector is closed, and whether a connection owns the connector.
pub record Resources : Type 0 where
  pub db_open : Bool
  pub connections : ℕ
  pub state : Shared
  pub owns_connector : Bool

abbrev pub Opening : Type 0
Opening = Resources × Result (Unit {0})

-- connectNative.
unfoldable pub answer_connect : Result (Unit {0}) → Resources → Opening
answer_connect (err e) r =
    (r, err (driver_error connect "could not connect to DataFusion database" e))
answer_connect (ok u) r = (record r { connections = suc r.connections }, ok u)

unfoldable pub connect_checked : OpenAnswers → Result (Unit {0}) → Resources → Opening
unfolding answer_connect
connect_checked a (err e) r = (r, err e)
connect_checked a (ok u) r =
    if r.state.closed
    then (r, err (driver_error closed "datafusion connector is closed" nil))
    else answer_connect a.connect_native r

unfoldable pub native_connect : OpenAnswers → Resources → Opening
unfolding connect_checked
native_connect a r = connect_checked a (check_ctx a.ctx_err) r

-- The init callback of a connector that has one.
unfoldable pub init_shared : OpenAnswers → Resources → Opening
init_shared a r =
    let (state, result) = initialize_shared a.shared_init r.state in
    (record r { state = state }, result)

unfoldable pub run_init : OpenAnswers → Bool → Resources → Opening
unfolding init_shared
run_init a shares r =
    if not a.has_init then (r, ok tt) else if shares then init_shared a r else (r, a.own_init)

-- A connection whose init callback failed is closed.
unfoldable pub close_on_error : Opening → Opening
close_on_error (r, ok u) = (r, ok u)
close_on_error (r, err e) = (record r { connections = r.connections - 1 }, err e)

unfoldable pub init_connection : OpenAnswers → Bool → Opening → Opening
unfolding run_init close_on_error
init_connection a shares (r, ok u) = close_on_error (run_init a shares r)
init_connection a shares (r, err e) = (r, err e)

-- Connector.Connect.
unfoldable pub connect_connector : OpenAnswers → Bool → Resources → Opening
unfolding native_connect init_connection
connect_connector a shares r = init_connection a shares (native_connect a r)

-- Connector.Close.
unfoldable pub close_resources : Resources → Resources
close_resources r =
    if r.state.closed
    then r
    else record r { db_open = false; state = record r.state { closed = true } }

abbrev pub nothing_open : Resources
nothing_open = record {
  db_open = false;
  connections = 0;
  state = new_shared false;
  owns_connector = false;
}

-- The connector is closed if Connect fails, and else owned or not by the connection.
unfoldable pub settle_open : Bool → Opening → Opening
unfolding close_resources
settle_open owns (r, ok u) = (record r { owns_connector = owns }, ok u)
settle_open owns (r, err e) = (close_resources r, err e)

unfoldable pub open_from : OpenAnswers → Bool → Result Opened → Opening
unfolding connect_connector settle_open
open_from a owns (err e) = (nothing_open, err e)
open_from a owns (ok made) =
    settle_open owns (connect_connector a made.shares (record nothing_open { db_open = true }))

-- Driver.Open: a connector without a callback, which its connection owns. `a.has_init` is false there.
unfoldable pub driver_open : UrlLibrary → OpenAnswers → String → Opening
unfolding open_from
driver_open lib a dsn =
    open_from (record a { has_init = false }) true (new_connector lib a.open_database dsn [])

-- NewSession.
unfoldable pub new_session :
    UrlLibrary → OpenAnswers → String → List (Option ConnectorOption) → Opening
unfolding open_from
new_session lib a dsn options =
    open_from (record a { has_init = false }) false (new_connector lib a.open_database dsn options)

-- Conn.Close, of a connection that is open, with the connector that it may own.
unfoldable pub close_connection : Resources → Resources
unfolding close_resources
close_connection r =
    let without = record r { connections = r.connections - 1 } in
    if r.owns_connector then close_resources without else without

-- Session.Close.
unfoldable pub close_session : Resources → Resources
unfolding close_connection
close_session r = close_resources (close_connection r)
