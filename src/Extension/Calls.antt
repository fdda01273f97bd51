-- ===== src/Extension/Calls.antt =====
-- The lock of a session's changes, and the calls of the native library that register and remove.
use datafusion_go.Base.{ℕ, String, Bool, true, false, Option, List, [], ◌∷◌, ◌++◌}
use datafusion_go.Errors.{GoError, errorf, Result, ok, err, ◌>>◌}
use datafusion_go.Session.State.{check_ctx, check_no_nul_byte}

-- A lock is the connector's if its sessions are shared, and else the connection's. `activate_call` and
-- `handle_call` are extensions.activate and cgo.NewHandle of the object to register.
pub data Call : Type 0 where
  lock_call unlock_call : Bool → Call
  activate_call handle_call : Call
  register_call : String → ℕ → Call
  register_ffi_call : String → String → Call
  deregister_call : String → Call

-- What is outside of the code: the context before and behind the lock, whether the lock is taken, whether
-- sqlConn.Raw reaches a connection of the package and withNative an open native connection, and what
-- the library answers.
pub record Environment : Type 0 where
  pub ctx_err : Option GoError
  pub lock : Result (Unit {0})
  pub later_ctx : Option GoError
  pub raw : Result (Unit {0})
  pub reach : Result (Unit {0})
  pub answer : Result (Unit {0})
  pub shared_session : Bool

abbrev pub Outcome : Type 0
Outcome = List Call × Result (Unit {0})

-- Calls that follow a check.
abbrev pub after : Result (Unit {0}) → Outcome → Outcome
after (err e) outcome = ([], err e)
after (ok u) outcome = outcome

-- Connection.RegisterGo, of a connection that is open.
unfoldable pub register_go : Environment → String → ℕ → Outcome
register_go env name kind =
    after (check_no_nul_byte name "extension name")
      (activate_call ∷ handle_call ∷ register_call name kind ∷ [], env.answer)

check_provider : Bool → Result (Unit {0})
check_provider true = ok tt
check_provider false = err (errorf "datafusion-go FFI table provider is nil" [])

-- Connection.RegisterFFITableProvider, of a connection that is open.
unfoldable pub register_ffi : Environment → Bool → String → String → Outcome
unfolding check_provider
register_ffi env has_provider name version =
    after
      (check_provider has_provider
        >> check_no_nul_byte name "table name"
        >> check_no_nul_byte version "provider datafusion version")
      (register_ffi_call name version ∷ [], env.answer)

-- Connection.DeregisterTable, of a connection that is open.
unfoldable pub deregister_table : Environment → String → Outcome
deregister_table env name =
    after (check_no_nul_byte name "table name") (deregister_call name ∷ [], env.answer)

-- The `defer lock.Unlock()`.
abbrev pub under_lock : Bool → Outcome → Outcome
under_lock shared (log, r) = (lock_call shared ∷ (log ++ unlock_call shared ∷ []), r)

-- Conn.withExtension, with the locks of both kinds as one answer.
unfoldable pub with_extension : Environment → Outcome → Outcome
with_extension env register =
    after env.lock
      (under_lock env.shared_session (after (check_ctx env.later_ctx >> env.reach) register))
