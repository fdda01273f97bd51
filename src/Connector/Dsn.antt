-- ===== src/Connector/Dsn.antt =====
-- The options of a connector and normalizeDSN, in datafusion.go.
use datafusion_go.Base.{
  String, str_eq, Bool, true, false, not, ◌||◌, ◌&&◌, Option, none, some, List, [], ◌∷◌,
  if◌then◌else◌,
}
use datafusion_go.Base.Int.{ℤ, pos}
use datafusion_go.Base.Text.{append, strip_prefix, lower_is}
use datafusion_go.Errors.{GoError, errorf, str_arg, Result, ok, err, ◌>>=◌, ◌>>◌, fail_if}
use datafusion_go.Connector.Values.{Values, lookup, delete}

-- url.URL, of which these parts are used.
pub record Url : Type 0 where
  pub scheme : String
  pub host : String
  pub path : String
  pub raw_query : String

-- net/url, with the values and the error that ParseQuery returns, and strconv.Itoa.
pub record UrlLibrary : Type 0 where
  pub parse : String → Result Url
  pub parse_query : String → Values × Option GoError
  pub encode : Values → String
  pub itoa : ℤ → String

pub record ConnectorOptions : Type 0 where
  pub shared_session : Bool
  pub runtime_workers : ℤ
  pub shared_runtime : Bool
  pub cache_statements : Bool
  pub runtime_workers_set : Bool
  pub shared_runtime_set : Bool
  pub cache_statements_set : Bool

abbrev pub default_connector_options : ConnectorOptions
default_connector_options = record {
  shared_session = true;
  runtime_workers = pos 0;
  shared_runtime = false;
  cache_statements = false;
  runtime_workers_set = false;
  shared_runtime_set = false;
  cache_statements_set = false;
}

-- The options that the package makes; a caller can pass no other, since the argument of
-- a ConnectorOption is not exported.
pub data ConnectorOption : Type 0 where
  with_shared_session : Bool → ConnectorOption
  with_runtime_workers : ℤ → ConnectorOption
  with_shared_runtime : Bool → ConnectorOption
  with_prepared_statement_cache : Bool → ConnectorOption

unfoldable pub apply_option : ConnectorOption → ConnectorOptions → ConnectorOptions
apply_option (with_shared_session b) o = record o { shared_session = b }
apply_option (with_runtime_workers w) o = record o {
  runtime_workers = w;
  runtime_workers_set = true;
}
apply_option (with_shared_runtime b) o = record o { shared_runtime = b; shared_runtime_set = true }
apply_option (with_prepared_statement_cache b) o = record o {
  cache_statements = b;
  cache_statements_set = true;
}

-- The loop over the options, which skips the ones that are nil.
unfoldable pub apply_options : List (Option ConnectorOption) → ConnectorOptions → ConnectorOptions
unfolding apply_option
apply_options [] o = o
apply_options (none ∷ options) o = apply_options options o
apply_options (some option ∷ options) o = apply_options options (apply_option option o)

is_true_word : String → Bool
is_true_word s =
    lower_is s "1"
    || lower_is s "t"
    || lower_is s "true"
    || lower_is s "y"
    || lower_is s "yes"
    || lower_is s "on"

is_false_word : String → Bool
is_false_word s =
    lower_is s "0"
    || lower_is s "f"
    || lower_is s "false"
    || lower_is s "n"
    || lower_is s "no"
    || lower_is s "off"

-- The switch of parseBoolOption.
unfoldable pub bool_word : String → String → Result Bool
unfolding is_true_word is_false_word
bool_word key value =
    if is_true_word value
    then ok true
    else if is_false_word value
    then ok false
    else err (errorf "%s must be a boolean value, got %q" (str_arg key ∷ str_arg value ∷ []))

unfoldable pub parse_bool_option : String → List String → Result Bool
unfolding bool_word
parse_bool_option key [] = err (errorf "%s requires a boolean value" (str_arg key ∷ []))
parse_bool_option key (value ∷ []) =
    if str_eq value ""
    then err (errorf "%s requires a boolean value" (str_arg key ∷ []))
    else bool_word key value
parse_bool_option key (value ∷ _ ∷ _) =
    if str_eq value ""
    then err (errorf "%s requires a boolean value" (str_arg key ∷ []))
    else err (errorf "%s must be specified at most once" (str_arg key ∷ []))

abbrev pub shared_session_key : String
shared_session_key = "datafusion.go.shared_session"

-- The loop of normalizeSessionDSN over the values: one key is looked at.
unfoldable pub take_shared_session : Values → ConnectorOptions → Result (Values × ConnectorOptions)
unfolding lookup delete parse_bool_option
take_shared_session values o = elim (lookup shared_session_key values) [
  | none ↦ ok (values, o)
  | some vs ↦ parse_bool_option shared_session_key vs >>= λ shared.
      ok (delete shared_session_key values, record o { shared_session = shared })
]

unfoldable pub query_text : String → String
query_text encoded = if str_eq encoded "" then "" else append "?" encoded

-- The values of a query, or the error of ParseQuery.
unfoldable pub query_values : Values × Option GoError → Result Values
query_values (values, none) = ok values
query_values (values, some e) = err e

unfoldable pub normalize_session_dsn :
    UrlLibrary → String → ConnectorOptions → Result (String × ConnectorOptions)
unfolding take_shared_session query_text query_values
normalize_session_dsn lib raw_query o = query_values (lib.parse_query raw_query) >>= λ values.
    take_shared_session values o >>= λ (kept, o'). ok (query_text (lib.encode kept), o')

supported_dsns : String
supported_dsns =
    "supported DSNs are empty string, ?<options>, datafusion://, and datafusion://?<options>"

unfoldable pub unsupported : String → GoError
unfolding supported_dsns
unsupported dsn =
    errorf "unsupported DataFusion DSN %q; %s" (str_arg dsn ∷ str_arg supported_dsns ∷ [])

-- The checks of a datafusion:// URL.
unfoldable pub check_url : String → Url → Result (Unit {0})
unfolding unsupported
check_url dsn u = do
  fail_if (not (str_eq u.scheme "datafusion")) (unsupported dsn)
  fail_if (not (str_eq u.host "")) (
      errorf "unsupported DataFusion DSN %q; datafusion:// DSNs do not support hosts"
        (str_arg dsn ∷ []))
  fail_if (not (str_eq u.path "") && not (str_eq u.path "/")) (
      errorf "unsupported DataFusion DSN %q; datafusion:// DSNs only support an empty or / path"
        (str_arg dsn ∷ []))

unfoldable pub normalize_url :
    UrlLibrary → String → ConnectorOptions → Result (String × ConnectorOptions)
unfolding normalize_session_dsn check_url
normalize_url lib dsn o =
    lib.parse dsn >>= λ u. check_url dsn u >> normalize_session_dsn lib u.raw_query o

unfoldable pub normalize_dsn :
    UrlLibrary → String → ConnectorOptions → Result (String × ConnectorOptions)
unfolding normalize_session_dsn normalize_url
normalize_dsn lib dsn o = if str_eq dsn "" then ok ("", o) else elim (strip_prefix "?" dsn) [
  | some query ↦ normalize_session_dsn lib query o
  | none ↦ elim (strip_prefix "datafusion://" dsn) [
    | some rest ↦ normalize_url lib dsn o
    | none ↦ err (unsupported dsn)
  ]
]
