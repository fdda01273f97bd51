-- ===== src/Connector/Tests.antt =====
-- Runs of the opening of a connector, with a net/url that knows one query.
use datafusion_go.Base.{
  str_eq, ◌≡◌, refl, true, false, Option, none, some, List, [], ◌∷◌, if◌then◌else◌,
}
use datafusion_go.Base.Int.{pos, negsuc, ltb_ℤ}
use datafusion_go.Base.Text.{lower_is}
use datafusion_go.Errors.{ok, err, errorf, str_arg, driver_error, connect, nil, canceled, Result}
use datafusion_go.Session.SharedInit.{initialize_shared}
use datafusion_go.Connector.Open.{
  OpenAnswers, connect_connector, nothing_open, driver_open, new_session, close_connection,
  close_session,
}
use datafusion_go.Connector.Balance.{Connects, Settled, opening-Settled}
use datafusion_go.Connector.Values.{Values, lookup, delete, set_value}
use datafusion_go.Connector.Dsn.{
  UrlLibrary, default_connector_options, ConnectorOption, apply_options, parse_bool_option,
  shared_session_key, check_url, normalize_url, normalize_dsn, with_runtime_workers,
  with_shared_runtime,
}
use datafusion_go.Connector.Explicit.{runtime_workers_key, new_connector}
use datafusion_go.Connector.Settled.{last_value}
use datafusion_go.Connector.Query.{values_of, sharing, ReadsNothing}
use datafusion_go.Connector.Precedence.{chosen, new_connector-chosen}

abbrev given_values : Values
given_values =
    ("datafusion.go.runtime_workers", "8" ∷ [])
    ∷ ("datafusion.go.shared_session", "No" ∷ [])
    ∷ ("datafusion.execution.batch_size", "10" ∷ [])
    ∷ []

abbrev kept_values : Values
kept_values =
    ("datafusion.go.runtime_workers", "8" ∷ [])
    ∷ ("datafusion.execution.batch_size", "10" ∷ [])
    ∷ []

abbrev final_values : Values
final_values =
    ("datafusion.go.shared_runtime", "true" ∷ [])
    ∷ ("datafusion.execution.batch_size", "10" ∷ [])
    ∷ []

-- The texts that the three lists of values are written as.
abbrev test_library : UrlLibrary
test_library = record {
  parse = λ s. ok (record { scheme = "datafusion"; host = ""; path = "/"; raw_query = "given" });
  parse_query = λ s.
      if str_eq s "given"
      then (given_values, none)
      else if str_eq s "kept"
      then (kept_values, none)
      else if str_eq s "final"
      then (final_values, none)
      else ([], none);
  encode = λ values. elim values [
    | [] ↦ ""
    | first ∷ rest ↦ if str_eq first.0 "datafusion.go.runtime_workers" then "kept" else "final"
  ];
  itoa = λ z. "8";
}

abbrev test_options : List (Option ConnectorOption)
test_options =
    some (with_runtime_workers (pos 4))
    ∷ some (with_shared_runtime false)
    ∷ some (with_runtime_workers (pos 0))
    ∷ none
    ∷ some (with_shared_runtime true)
    ∷ []

opened_run :
    new_connector test_library (λ dsn. ok tt) "datafusion:///?x" test_options
    ≡ ok (record { dsn = "?final"; shares = false })
unfolding new_connector normalize_url check_url lookup delete parse_bool_option lower_is set_value
opened_run = refl

test_library-ReadsNothing : ReadsNothing test_library
test_library-ReadsNothing = (refl, refl)

-- An explicit worker count of zero takes the parameter of the DSN away, and "No" is read as false.
new_connector-chosen_example :
    (lookup runtime_workers_key final_values ≡ none)
    × (parse_bool_option shared_session_key ("No" ∷ []) ≡ ok false)
    × (ltb_ℤ (pos 0) (pos 0) ≡ false)
unfolding lookup values_of chosen sharing apply_options last_value new_connector delete set_value
new_connector-chosen_example =
    new_connector-chosen test_library (λ dsn. ok tt) "datafusion:///?x" test_options
      (record { dsn = "?final"; shares = false }) runtime_workers_key test_library-ReadsNothing
      (λ key. refl) (λ key. refl) opened_run

negative_run :
    new_connector test_library (λ dsn. ok tt) "" (some (with_runtime_workers (negsuc 0)) ∷ [])
    ≡ err (driver_error connect "runtime worker count must be non-negative" nil)
unfolding new_connector
negative_run = refl

host_run :
    normalize_dsn
      (record test_library {
        parse = λ s. ok (record { scheme = "datafusion"; host = "h"; path = ""; raw_query = "" });
      })
      "datafusion://h"
      default_connector_options
    ≡ err (
        errorf "unsupported DataFusion DSN %q; datafusion:// DSNs do not support hosts"
          (str_arg "datafusion://h" ∷ []))
unfolding normalize_dsn normalize_url check_url
host_run = refl

-- The library answers that the native connection fails, and then that it does not.
abbrev open_answers : Result (Unit {0}) → OpenAnswers
open_answers answer = record {
  open_database = λ dsn. ok tt;
  ctx_err = none;
  connect_native = answer;
  has_init = true;
  shared_init = record { ctx_err = none; lock = ok tt; locked_ctx = none; init = some canceled };
  own_init = ok tt;
}

opening-Settled_example :
    Settled true close_connection (driver_open test_library (open_answers (ok tt)) "?given")
    × Settled false close_session
        (new_session test_library (open_answers (ok tt)) "?given" test_options)
    × Connects nothing_open (connect_connector (open_answers (ok tt)) true nothing_open)
opening-Settled_example =
    opening-Settled test_library (open_answers (ok tt)) "?given" test_options true nothing_open

-- An init callback that fails closes the connection again.
init_fails :
    connect_connector (open_answers (ok tt)) true nothing_open ≡ (nothing_open, err canceled)
unfolding connect_connector initialize_shared
init_fails = refl
