-- ===== src/Extension/Register.antt =====
-- The registrations of extensions.go, with their checks, and RegisteredTable of ffi_table_provider.go.
use datafusion_go.Base.{
  ℕ, suc, ◌+◌, String, str_eq, Bool, true, false, not, ◌||◌, List, [], ◌∷◌, if◌then◌else◌,
}
use datafusion_go.Base.Int.{ℤ, pos, ltb_ℤ, pos_part}
use datafusion_go.Errors.{errorf, int_arg, Result, ok, err, ◌>>◌, fail_if}
use datafusion_go.Session.State.{check_ctx}
use datafusion_go.Extension.Calls.{
  Environment, Outcome, after, register_go, register_ffi, deregister_table, with_extension,
}

-- A provider: a nil interface or pointer, or one with these capabilities.
pub data Provider : Type 0 where
  nil_provider : Provider
  provider_with : Bool → Bool → Provider

-- validateProvider.
unfoldable pub validate_provider : Provider → Result (Unit {0})
validate_provider nil_provider = err (errorf "datafusion table provider is nil" [])
validate_provider (provider_with pushdown writable) = ok tt

-- The bits of the capabilities.
unfoldable pub provider_kind : Provider → ℕ
provider_kind nil_provider = 0
provider_kind (provider_with pushdown writable) =
    (if pushdown then 1 else 0) + (if writable then 2 else 0)

unfoldable pub register_provider : Environment → String → Provider → Outcome
unfolding validate_provider provider_kind register_go with_extension
register_provider env name p =
    after (check_ctx env.ctx_err >> validate_provider p)
      (with_extension env (register_go env name (provider_kind p)))

-- ScalarFunction: of its parts, whether they are there.
pub record ScalarFunction : Type 0 where
  pub name : String
  pub arguments : List Bool
  pub has_return_type : Bool
  pub volatility : ℤ
  pub has_evaluate : Bool

-- The loop over the argument types, from the argument `i` on.
unfoldable pub check_arguments : ℕ → List Bool → Result (Unit {0})
check_arguments i [] = ok tt
check_arguments i (given ∷ rest) =
    fail_if (not given)
      (errorf "datafusion function argument %d has nil type" (int_arg (pos i) ∷ []))
    >> check_arguments (suc i) rest

unfoldable pub check_function : ScalarFunction → Result (Unit {0})
unfolding check_arguments
check_function f =
    fail_if (str_eq f.name "" || not f.has_return_type || not f.has_evaluate)
      (errorf "datafusion function requires a name, return type and evaluator" [])
    >> fail_if (ltb_ℤ f.volatility (pos 0) || ltb_ℤ (pos 2) f.volatility)
        (errorf "datafusion function has invalid volatility" [])
    >> check_arguments 0 f.arguments

unfoldable pub register_scalar_function : Environment → ScalarFunction → Outcome
unfolding check_function register_go with_extension
register_scalar_function env f =
    after (check_ctx env.ctx_err >> check_function f)
      (with_extension env (register_go env f.name (10 + pos_part f.volatility)))

-- A catalog: nil, or one that may list its names.
pub data Catalog : Type 0 where
  nil_catalog : Catalog
  catalog_with : Bool → Catalog

unfoldable pub check_catalog : Catalog → Result (Unit {0})
check_catalog nil_catalog = err (errorf "datafusion catalog is nil" [])
check_catalog (catalog_with listed) = ok tt

unfoldable pub catalog_kind : Catalog → ℕ
catalog_kind nil_catalog = 20
catalog_kind (catalog_with listed) = if listed then 21 else 20

unfoldable pub register_catalog : Environment → String → Catalog → Outcome
unfolding check_catalog catalog_kind register_go with_extension
register_catalog env name c =
    after (check_ctx env.ctx_err >> check_catalog c)
      (with_extension env (register_go env name (catalog_kind c)))

-- The functions on a *sql.Conn, which may be nil.
unfoldable pub on_conn : Environment → Bool → Outcome → Outcome
on_conn env has_conn register =
    after (fail_if (not has_conn) (errorf "datafusion sql connection is nil" []) >> env.raw)
      register

-- RegisterFFITableProvider, which takes no lock of the package.
unfoldable pub register_ffi_table_provider : Environment → Bool → String → Bool → String → Outcome
unfolding register_ffi
register_ffi_table_provider env has_conn name has_provider version =
    after
      (check_ctx env.ctx_err
        >> fail_if (not has_conn) (errorf "datafusion sql connection is nil" [])
        >> fail_if (str_eq name "") (errorf "datafusion ffi table name is empty" [])
        >> fail_if (not has_provider) (errorf "datafusion ffi table provider is nil" [])
        >> fail_if (str_eq version "")
            (errorf "datafusion ffi provider datafusion version is empty" [])
        >> env.raw
        >> check_ctx env.later_ctx
        >> env.reach)
      (register_ffi env has_provider name version)

-- RegisteredTable.
pub record RegisteredTable : Type 0 where
  pub name : String
  pub done : Bool

is_ok : Result (Unit {0}) → Bool
is_ok (ok u) = true
is_ok (err e) = false

mark : RegisteredTable → Outcome → RegisteredTable × Outcome
unfolding is_ok
mark t outcome = (record t { done = is_ok outcome.1 }, outcome)

-- RegisteredTable.Deregister.
unfoldable pub deregister : Environment → RegisteredTable → RegisteredTable × Outcome
unfolding mark deregister_table
deregister env t =
    if t.done
    then (t, ([], ok tt))
    else mark t
        (after (check_ctx env.ctx_err >> env.raw >> env.reach) (deregister_table env t.name))

-- Session.DeregisterTable.
unfoldable pub session_deregister_table : Environment → String → Outcome
unfolding deregister_table
session_deregister_table env name =
    after (check_ctx env.ctx_err >> env.reach) (deregister_table env name)
