-- ===== src/Extension/Serialized.antt =====
-- Registrations of Go objects happen under the session's lock, which is free again behind them.
use datafusion_go.Base.{ℕ, String, ◌≡◌, ◌≢◌, ◌⊎◌, Bool, true, List, [], ◌∷◌, All}
use datafusion_go.Base.Int.{pos, ◌≤ℤ◌}
use datafusion_go.Errors.{ok, err}
use datafusion_go.Extension.Calls.{
  Call, Environment, Outcome, lock_call, unlock_call, register_call, activate_call, handle_call,
}
use datafusion_go.Extension.Register.{
  Provider, nil_provider, provider_with, ScalarFunction, Catalog, nil_catalog, catalog_with,
}

-- The calls of a registration under the lock.
abbrev pub full_log : Bool → String → ℕ → List Call
full_log shared name kind =
    lock_call shared
    ∷ activate_call
    ∷ handle_call
    ∷ register_call name kind
    ∷ unlock_call shared
    ∷ []

-- A registration that succeeds is of something valid, and has made its calls under the lock. One that
-- fails has made no call at all, or is of something valid, and has taken and freed the lock without
-- another call between, or has made its calls under the lock, and the error is what the library
-- answered.
abbrev pub IsSerialized : Environment → Type 0 → String → ℕ → Outcome → Type 0
IsSerialized env Valid name kind (log, ok u) = Valid × (log ≡ full_log env.shared_session name kind)
IsSerialized env Valid name kind (log, err e) =
    (log ≡ [])
    ⊎ (Valid × (log ≡ lock_call env.shared_session ∷ unlock_call env.shared_session ∷ []))
    ⊎ (Valid × (log ≡ full_log env.shared_session name kind) × (env.answer ≡ err e))

-- A provider and a catalog that are not nil.
abbrev pub IsProvider : Provider → Type 0
IsProvider nil_provider = ⊥
IsProvider (provider_with pushdown writable) = Unit

abbrev pub IsCatalog : Catalog → Type 0
IsCatalog nil_catalog = ⊥
IsCatalog (catalog_with listed) = Unit

-- A function with a name, a return type, an evaluator, one of the three volatilities, and a type for
-- each argument.
pub record IsFunction (f : ScalarFunction) : Type 0 where
  pub named : f.name ≢ ""
  pub returns : f.has_return_type ≡ true
  pub evaluates : f.has_evaluate ≡ true
  pub volatility : (pos 0 ≤ℤ f.volatility) × (f.volatility ≤ℤ pos 2)
  pub typed : All (λ given. given ≡ true) f.arguments
