-- ===== src/Connector/Explicit.antt =====
-- NewConnectorWithInitContext of datafusion.go: explicit options, and the opening of the database.
use datafusion_go.Base.{
  ◌+◌, String, Bool, true, false, not, ◌||◌, Option, List, if◌then◌else◌, ◌==◌,
}
use datafusion_go.Base.Int.{ℤ, pos, ltb_ℤ, pos_part, neg_part}
use datafusion_go.Base.Text.{append, trim_prefix}
use datafusion_go.Errors.{nil, Result, ok, ◌>>=◌, ◌>>◌, fail_if, map_err, connect, driver_error}
use datafusion_go.Connector.Values.{Values, delete, set_value}
use datafusion_go.Connector.Dsn.{
  UrlLibrary, ConnectorOptions, default_connector_options, ConnectorOption, apply_options,
  normalize_dsn,
}

abbrev pub runtime_workers_key : String
runtime_workers_key = "datafusion.go.runtime_workers"

abbrev pub shared_runtime_key : String
shared_runtime_key = "datafusion.go.shared_runtime"

abbrev pub cache_statements_key : String
cache_statements_key = "datafusion.go.cache_statements"

-- strconv.FormatBool.
abbrev pub format_bool : Bool → String
format_bool true = "true"
format_bool false = "false"

abbrev pub is_zero : ℤ → Bool
is_zero z = pos_part z + neg_part z == 0

-- The options that were given explicitly, over the values of the DSN.
unfoldable pub set_workers : UrlLibrary → ConnectorOptions → Values → Values
unfolding delete set_value
set_workers lib o values =
    let without = delete runtime_workers_key values in
    let workers = lib.itoa o.runtime_workers in
    if not o.runtime_workers_set
    then values
    else if is_zero o.runtime_workers
    then without
    else set_value runtime_workers_key workers without

unfoldable pub set_flag : Bool → String → Bool → Values → Values
unfolding set_value
set_flag given key b values = if given then set_value key (format_bool b) values else values

unfoldable pub explicit_values : UrlLibrary → ConnectorOptions → Values → Values
unfolding set_workers set_flag
explicit_values lib o values =
    let with_workers = set_workers lib o values in
    let with_runtime =
      set_flag o.shared_runtime_set shared_runtime_key o.shared_runtime with_workers in
    set_flag o.cache_statements_set cache_statements_key o.cache_statements with_runtime

unfoldable pub with_explicit : UrlLibrary → ConnectorOptions → String → String
unfolding explicit_values
with_explicit lib o normalized =
    if o.runtime_workers_set || o.shared_runtime_set || o.cache_statements_set
    then append "?"
        (lib.encode (explicit_values lib o (lib.parse_query (trim_prefix "?" normalized)).0))
    else normalized

-- What a connector is made with: the DSN that the database was opened with, and its sharing.
pub record Opened : Type 0 where
  pub dsn : String
  pub shares : Bool

-- NewConnectorWithInitContext behind the DSN. `open_database` answers for native.OpenDatabase.
unfoldable pub open_with :
    UrlLibrary → (String → Result (Unit {0})) → String × ConnectorOptions → Result Opened
unfolding with_explicit
open_with lib open_database (normalized, o) = do
  fail_if (ltb_ℤ o.runtime_workers (pos 0))
      (driver_error connect "runtime worker count must be non-negative" nil)
  map_err (driver_error connect "could not open DataFusion database")
      (open_database (with_explicit lib o normalized))
  ok (record { dsn = with_explicit lib o normalized; shares = o.shared_session })

-- NewConnectorWithInitContext.
unfoldable pub new_connector :
    UrlLibrary
    → (String → Result (Unit {0}))
    → String
    → List (Option ConnectorOption)
    → Result Opened
unfolding apply_options normalize_dsn open_with
new_connector lib open_database dsn options =
    map_err (driver_error connect "could not parse datafusion DSN")
      (normalize_dsn lib dsn (apply_options options default_connector_options))
    >>= open_with lib open_database
