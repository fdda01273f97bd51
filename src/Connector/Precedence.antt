-- ===== src/Connector/Precedence.antt =====
-- Which of the options and the DSN wins, in what the database is opened with.
use datafusion_go.Base.{
  String, str_eq, ◌≡◌, refl, sym, subst, ◌∙◌, inl, inr, Bool, true, false, zero, suc, ◌&&◌, ◌||◌,
  Option, none, some, List, [], ◌∷◌, arith, if◌then◌else◌, Bool-cases,
}
use datafusion_go.Base.Int.{ℤ, pos, negsuc, ltb_ℤ}
use datafusion_go.Base.Text.{append, trim_prefix}
use datafusion_go.Errors.{Result, ok, >>=-eq-ok, map_err, fail_if, map_err-eq-ok, fail_if-eq-ok}
use datafusion_go.Connector.Values.{Values, lookup, delete, lookup-delete, lookup-set_value}
use datafusion_go.Connector.Dsn.{
  UrlLibrary, ConnectorOptions, default_connector_options, ConnectorOption, apply_options,
  shared_session_key, normalize_dsn,
}
use datafusion_go.Connector.Explicit.{
  runtime_workers_key, shared_runtime_key, cache_statements_key, format_bool, is_zero, set_workers,
  set_flag, explicit_values, with_explicit, Opened, open_with, new_connector,
}
use datafusion_go.Connector.Settled.{settled, apply_options-settled}
use datafusion_go.Connector.Query.{values_of, sharing, ReadsNothing, normalize_dsn-Normalizes}

-- How a flag is written, and whether a number of workers is zero.
abbrev pub flag_text : Bool → String
flag_text true = "true"
flag_text false = "false"

abbrev pub is_no_count : ℤ → Bool
is_no_count (pos zero) = true
is_no_count _ = false

-- What the database should see for a key, from the options and what the DSN has for it: an explicit
-- option wins, a worker count of zero takes the parameter away, and the driver keeps the sharing of
-- sessions to itself.
unfoldable pub chosen :
    UrlLibrary → ConnectorOptions → String → Option (List String) → Option (List String)
chosen lib o key given =
    if str_eq key "datafusion.go.cache_statements" && o.cache_statements_set
    then some (flag_text o.cache_statements ∷ [])
    else if str_eq key "datafusion.go.shared_runtime" && o.shared_runtime_set
    then some (flag_text o.shared_runtime ∷ [])
    else if str_eq key "datafusion.go.runtime_workers" && o.runtime_workers_set
    then (if is_no_count o.runtime_workers then none else some (lib.itoa o.runtime_workers ∷ []))
    else if str_eq key "datafusion.go.shared_session"
    then none
    else given

format_bool-text : (b : Bool) → format_bool b ≡ flag_text b
format_bool-text true = refl
format_bool-text false = refl

is_zero-no_count : (z : ℤ) → is_zero z ≡ is_no_count z
is_zero-no_count (pos zero) = refl
is_zero-no_count (pos (suc n)) = ground arith
is_zero-no_count (negsuc n) = ground arith

-- ParseQuery reads values back from what Encode writes.
abbrev pub Reads : UrlLibrary → Values → Type 0
Reads lib values =
    (key : String) → lookup key (lib.parse_query (lib.encode values)).0 ≡ lookup key values

lookup-set_flag :
    (key k : String) (given b : Bool) (values : Values)
    → lookup key (set_flag given k b values)
      ≡ (if str_eq key k && given then some (format_bool b ∷ []) else lookup key values)
unfolding set_flag
lookup-set_flag key k given b values = ground (arith, lookup-set_value key k (format_bool b) values)

lookup-set_workers :
    (lib : UrlLibrary) (o : ConnectorOptions) (key : String) (values : Values)
    → lookup key (set_workers lib o values) ≡ (
        if str_eq key runtime_workers_key && o.runtime_workers_set
        then (if is_zero o.runtime_workers then none else some (lib.itoa o.runtime_workers ∷ []))
        else lookup key values)
unfolding set_workers
lookup-set_workers lib o key values = ground (
  arith,
  lookup-delete key runtime_workers_key values,
  lookup-set_value key runtime_workers_key (lib.itoa o.runtime_workers)
      (delete runtime_workers_key values),
)

lookup-explicit_values :
    (lib : UrlLibrary) (o : ConnectorOptions) (key : String) (values given : Values)
    → lookup key values ≡ lookup key (delete shared_session_key given)
    → lookup key (explicit_values lib o values) ≡ chosen lib o key (lookup key given)
unfolding explicit_values chosen
lookup-explicit_values lib o key values given h =
    let with_workers = set_workers lib o values in
    let with_runtime =
      set_flag o.shared_runtime_set shared_runtime_key o.shared_runtime with_workers in
    cc (
      h,
      format_bool-text o.shared_runtime,
      format_bool-text o.cache_statements,
      is_zero-no_count o.runtime_workers,
      lookup-delete key shared_session_key given,
      lookup-set_workers lib o key values,
      lookup-set_flag key shared_runtime_key o.shared_runtime_set o.shared_runtime with_workers,
      lookup-set_flag key cache_statements_key o.cache_statements_set o.cache_statements
          with_runtime,
    )

-- The values that the explicit options are set in.
abbrev pub merged : UrlLibrary → ConnectorOptions → String → Values
merged lib o dsn =
    explicit_values lib o
      (lib.parse_query (lib.encode (delete shared_session_key (values_of lib dsn)))).0

abbrev any_set : ConnectorOptions → Bool
any_set o = o.runtime_workers_set || o.shared_runtime_set || o.cache_statements_set

chosen_unset :
    (lib : UrlLibrary) (o : ConnectorOptions) (key : String) (given : Values)
    → any_set o ≡ false
    → lookup key (delete shared_session_key given) ≡ chosen lib o key (lookup key given)
unfolding chosen
chosen_unset lib o key given g = ground (arith, lookup-delete key shared_session_key given)

with_explicit-chosen :
    (lib : UrlLibrary) (dsn normalized key : String) (o : ConnectorOptions)
    → trim_prefix "?" normalized ≡ lib.encode (delete shared_session_key (values_of lib dsn))
    → Reads lib (delete shared_session_key (values_of lib dsn))
    → Reads lib (merged lib o dsn)
    → lookup key (lib.parse_query (trim_prefix "?" (with_explicit lib o normalized))).0
      ≡ chosen lib o key (lookup key (values_of lib dsn))
unfolding with_explicit
with_explicit-chosen lib dsn normalized key o t r1 r2 =
    let given = values_of lib dsn in
    let Finds : String → Type 0 =
      λ s. lookup key (lib.parse_query s).0 ≡ chosen lib o key (lookup key given) in
    elim (Bool-cases (any_set o)) [
      | inl g ↦
          let text : with_explicit lib o normalized ≡ append "?" (lib.encode (merged lib o dsn)) =
            simp (g, t, with_explicit) refl in
          subst (λ s. Finds (trim_prefix "?" s)) (sym text)
            (r2 key ∙ lookup-explicit_values lib o key _ given (r1 key))
      | inr g ↦
          let text : with_explicit lib o normalized ≡ normalized = simp (g, with_explicit) refl in
          subst (λ s. Finds (trim_prefix "?" s)) (sym text)
            (subst Finds (sym t) (r1 key ∙ chosen_unset lib o key given g))
    ]

-- The sharing of sessions has no part in it.
with_explicit-chosen_sharing :
    (lib : UrlLibrary) (dsn normalized key : String) (o : ConnectorOptions) (b : Bool)
    → trim_prefix "?" normalized ≡ lib.encode (delete shared_session_key (values_of lib dsn))
    → Reads lib (delete shared_session_key (values_of lib dsn))
    → Reads lib (merged lib o dsn)
    → lookup key
        (lib.parse_query
          (trim_prefix "?" (with_explicit lib (record o { shared_session = b }) normalized))).0
      ≡ chosen lib o key (lookup key (values_of lib dsn))
unfolding chosen explicit_values
with_explicit-chosen_sharing lib dsn normalized key o b t r1 r2 =
    with_explicit-chosen lib dsn normalized key (record o { shared_session = b }) t r1 r2

open_with-opened :
    (lib : UrlLibrary) (open_database : String → Result (Unit {0})) (normalized : String)
    (o : ConnectorOptions) (opened : Opened)
    → open_with lib open_database (normalized, o) ≡ ok opened
    → (opened ≡ record { dsn = with_explicit lib o normalized; shares = o.shared_session })
      × (ltb_ℤ o.runtime_workers (pos 0) ≡ false)
unfolding open_with
open_with-opened lib open_database normalized o opened h =
    let (u, counted, rest) = >>=-eq-ok (fail_if (ltb_ℤ o.runtime_workers (pos 0)) _) _ h in
    let (v, made, out) =
      >>=-eq-ok (map_err _ (open_database (with_explicit lib o normalized))) _ rest in
    (cc (out), fail_if-eq-ok (ltb_ℤ o.runtime_workers (pos 0)) _ counted)

-- What a connector is opened with: each key has what is chosen, sessions are shared as the DSN or the
-- options say, and the worker count is not negative.
abbrev pub OpensWith : UrlLibrary → String → Opened → String → ConnectorOptions → Type 0
OpensWith lib dsn opened key o =
    (lookup key (lib.parse_query (trim_prefix "?" opened.dsn)).0
      ≡ chosen lib o key (lookup key (values_of lib dsn)))
    × (sharing o (lookup shared_session_key (values_of lib dsn)) ≡ ok opened.shares)
    × (ltb_ℤ o.runtime_workers (pos 0) ≡ false)

-- The same of the options that the loop over them makes.
loop-chosen :
    (lib : UrlLibrary) (open_database : String → Result (Unit {0})) (dsn : String)
    (options : List (Option ConnectorOption)) (opened : Opened) (key : String)
    → ReadsNothing lib
    → Reads lib (delete shared_session_key (values_of lib dsn))
    → Reads lib (merged lib (apply_options options default_connector_options) dsn)
    → new_connector lib open_database dsn options ≡ ok opened
    → OpensWith lib dsn opened key (apply_options options default_connector_options)
unfolding new_connector
loop-chosen lib open_database dsn options opened key laws r1 r2 h =
    let o = apply_options options default_connector_options in
    let ((normalized, o'), read, rest) = >>=-eq-ok (map_err _ (normalize_dsn lib dsn o)) _ h in
    let (text, shared, same) =
      normalize_dsn-Normalizes lib dsn normalized o o' laws (map_err-eq-ok _ _ read) in
    let (made, counted) = open_with-opened lib open_database normalized o' opened rest in
    let Finds : String → Type 0 = λ s.
      lookup key (lib.parse_query (trim_prefix "?" s)).0
      ≡ chosen lib o key (lookup key (values_of lib dsn)) in
    let found =
      with_explicit-chosen_sharing lib dsn normalized key o o'.shared_session text r1 r2 in
    (
      subst (λ p. Finds p.dsn) (sym made)
          (subst (λ x. Finds (with_explicit lib x normalized)) (sym same) found),
      subst (λ p. sharing o (lookup shared_session_key (values_of lib dsn)) ≡ ok p.shares)
          (sym made) shared,
      subst (λ x. ltb_ℤ x.runtime_workers (pos 0) ≡ false) same counted,
    )

-- For every DSN and every list of options that a connector is made from, the database is opened with a
-- DSN in which each key has what `chosen` says: the value of the last explicit option for it, nothing
-- for a worker count of zero or for the sharing of sessions, and else what the DSN gave. Whether
-- sessions are shared is what the DSN says, or else the last option for it, or else they are, and the
-- worker count is not negative. That holds if net/url reads back the values that it writes.
pub new_connector-chosen :
    (lib : UrlLibrary) (open_database : String → Result (Unit {0})) (dsn : String)
    (options : List (Option ConnectorOption)) (opened : Opened) (key : String)
    → ReadsNothing lib
    → Reads lib (delete shared_session_key (values_of lib dsn))
    → Reads lib (merged lib (settled options) dsn)
    → new_connector lib open_database dsn options ≡ ok opened
    → OpensWith lib dsn opened key (settled options)
new_connector-chosen lib open_database dsn options opened key laws r1 r2 h =
    let same = apply_options-settled options in
    subst (OpensWith lib dsn opened key) same (
      loop-chosen lib open_database dsn options opened key laws r1
        (subst (λ o. Reads lib (merged lib o dsn)) (sym same) r2) h)
