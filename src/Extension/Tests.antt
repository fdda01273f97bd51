-- ===== src/Extension/Tests.antt =====
-- Runs of registrations.
use datafusion_go.Base.{◌≡◌, refl, true, false, none, some, [], ◌∷◌}
use datafusion_go.Base.Int.{pos}
use datafusion_go.Errors.{errorf, int_arg, canceled, ok, err}
use datafusion_go.Session.State.{check_no_nul_byte}
use datafusion_go.Extension.Calls.{Environment, lock_call, unlock_call}
use datafusion_go.Extension.Register.{
  ScalarFunction, register_scalar_function, register_catalog, RegisteredTable, deregister,
  catalog_with,
}
use datafusion_go.Extension.Serialized.{full_log}

abbrev test_environment : Environment
test_environment = record {
  ctx_err = none;
  lock = ok tt;
  later_ctx = none;
  raw = ok tt;
  reach = ok tt;
  answer = ok tt;
  shared_session = true;
}

abbrev test_function : ScalarFunction
test_function = record {
  name = "f";
  arguments = true ∷ false ∷ [];
  has_return_type = true;
  volatility = pos 2;
  has_evaluate = true;
}

abbrev good_function : ScalarFunction
good_function = record test_function { arguments = true ∷ true ∷ [] }

good_function_run :
    register_scalar_function test_environment good_function ≡ (full_log true "f" 12, ok tt)
unfolding register_scalar_function check_no_nul_byte
good_function_run = refl

nil_argument_run :
    register_scalar_function test_environment test_function
    ≡ ([], err (errorf "datafusion function argument %d has nil type" (int_arg (pos 1) ∷ [])))
unfolding register_scalar_function
nil_argument_run = refl

-- The context ends while the registration waits for the lock.
canceled_run :
    register_catalog
      (record test_environment { later_ctx = some canceled })
      "c"
      (catalog_with false)
    ≡ (lock_call true ∷ unlock_call true ∷ [], err canceled)
unfolding register_catalog
canceled_run = refl

-- The second call of Deregister does nothing.
abbrev table_t : RegisteredTable
table_t = record { name = "t"; done = false }

deregister_twice :
    deregister test_environment (deregister test_environment table_t).0
    ≡ (record { name = "t"; done = true }, ([], ok tt))
unfolding deregister check_no_nul_byte
deregister_twice = refl
