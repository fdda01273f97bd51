-- ===== src/Connector/Settled.antt =====
-- What a list of connector options comes to, described by the last option of each kind, and that the
-- loop over the options in datafusion.go makes that.
use datafusion_go.Base.{◌≡◌, refl, ◌∙◌, ap, Bool, true, false, Option, none, some, List, [], ◌∷◌}
use datafusion_go.Base.Int.{ℤ, pos}
use datafusion_go.Connector.Dsn.{
  ConnectorOptions, default_connector_options, ConnectorOption, apply_option, apply_options,
  with_shared_session, with_runtime_workers, with_shared_runtime, with_prepared_statement_cache,
}

-- The later of two values, if there is one.
abbrev later {ℓ} : {A : Type ℓ} → Option A → Option A → Option A
later p none = p
later p (some y) = some y

-- The last of the options that are not nil, of those that `pick` takes a value from.
unfoldable pub last_value {ℓ} :
    {A : Type ℓ} → (ConnectorOption → Option A) → List (Option ConnectorOption) → Option A
last_value pick [] = none
last_value pick (none ∷ options) = last_value pick options
last_value pick (some option ∷ options) = later (pick option) (last_value pick options)

abbrev pub sharing_of : ConnectorOption → Option Bool
sharing_of (with_shared_session b) = some b
sharing_of _ = none

abbrev pub workers_of : ConnectorOption → Option ℤ
workers_of (with_runtime_workers w) = some w
workers_of _ = none

abbrev pub runtime_of : ConnectorOption → Option Bool
runtime_of (with_shared_runtime b) = some b
runtime_of _ = none

abbrev pub cache_of : ConnectorOption → Option Bool
cache_of (with_prepared_statement_cache b) = some b
cache_of _ = none

abbrev pub value_or {ℓ} : {A : Type ℓ} → A → Option A → A
value_or x none = x
value_or x (some y) = y

abbrev pub given_or {ℓ} : {A : Type ℓ} → Bool → Option A → Bool
given_or b none = b
given_or b (some x) = true

-- The options `o` with a value of each kind, where there is one.
abbrev pub with_values :
    ConnectorOptions → Option Bool → Option ℤ → Option Bool → Option Bool → ConnectorOptions
with_values o sharing workers runtime cache = record {
  shared_session = value_or o.shared_session sharing;
  runtime_workers = value_or o.runtime_workers workers;
  shared_runtime = value_or o.shared_runtime runtime;
  cache_statements = value_or o.cache_statements cache;
  runtime_workers_set = given_or o.runtime_workers_set workers;
  shared_runtime_set = given_or o.shared_runtime_set runtime;
  cache_statements_set = given_or o.cache_statements_set cache;
}

abbrev settled_over : ConnectorOptions → List (Option ConnectorOption) → ConnectorOptions
settled_over o options =
    with_values o (last_value sharing_of options) (last_value workers_of options)
      (last_value runtime_of options) (last_value cache_of options)

-- Without an option, sessions are shared, and nothing is set.
abbrev nothing_set : ConnectorOptions
nothing_set = record {
  shared_session = true;
  runtime_workers = pos 0;
  shared_runtime = false;
  cache_statements = false;
  runtime_workers_set = false;
  shared_runtime_set = false;
  cache_statements_set = false;
}

-- What options come to: of each kind the last one.
abbrev pub settled : List (Option ConnectorOption) → ConnectorOptions
settled options = settled_over nothing_set options

apply_option-with_values :
    (option : ConnectorOption) (o : ConnectorOptions)
    → apply_option option o
      ≡ with_values o (sharing_of option) (workers_of option) (runtime_of option) (cache_of option)
unfolding apply_option
apply_option-with_values (with_shared_session b) o = refl
apply_option-with_values (with_runtime_workers w) o = refl
apply_option-with_values (with_shared_runtime b) o = refl
apply_option-with_values (with_prepared_statement_cache b) o = refl

value_or-later {ℓ} :
    {A : Type ℓ} (x : A) (p q : Option A) → value_or (value_or x p) q ≡ value_or x (later p q)
value_or-later x p none = refl
value_or-later x p (some y) = refl

given_or-later {ℓ} :
    {A : Type ℓ} (b : Bool) (p q : Option A) → given_or (given_or b p) q ≡ given_or b (later p q)
given_or-later b p none = refl
given_or-later b p (some y) = refl

apply_options-settled_over :
    (options : List (Option ConnectorOption)) (o : ConnectorOptions)
    → apply_options options o ≡ settled_over o options
unfolding apply_options last_value
apply_options-settled_over [] o = refl
apply_options-settled_over (none ∷ options) o = apply_options-settled_over options o
apply_options-settled_over (some option ∷ options) o =
    ap (apply_options options) (apply_option-with_values option o)
    ∙ apply_options-settled_over options _
    ∙ cc (
      value_or-later o.shared_session (sharing_of option) (last_value sharing_of options),
      value_or-later o.runtime_workers (workers_of option) (last_value workers_of options),
      value_or-later o.shared_runtime (runtime_of option) (last_value runtime_of options),
      value_or-later o.cache_statements (cache_of option) (last_value cache_of options),
      given_or-later o.runtime_workers_set (workers_of option) (last_value workers_of options),
      given_or-later o.shared_runtime_set (runtime_of option) (last_value runtime_of options),
      given_or-later o.cache_statements_set (cache_of option) (last_value cache_of options),
    )

pub apply_options-settled :
    (options : List (Option ConnectorOption))
    → apply_options options default_connector_options ≡ settled options
apply_options-settled options = apply_options-settled_over options default_connector_options
