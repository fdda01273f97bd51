-- ===== src/Import/Staging.antt =====
-- Import of internal/native/native.go, and the calls that it makes of the native library.
use datafusion_go.Base.{
  ℕ, suc, String, Bool, true, false, Option, none, some, List, [], ◌∷◌, ◌++◌, if◌then◌else◌,
}
use datafusion_go.Errors.{GoError, errorf, Result, ok, err}
use datafusion_go.Session.State.{check_no_nul_byte}

-- The calls dfgo_import_open, dfgo_import_append with one IPC stream, dfgo_import_commit and
-- dfgo_import_close. A stream has the schema and one batch or none, which the model names by a number.
pub data ImportCall : Type 0 where
  open_call : String → ImportCall
  append_call : Option ℕ → ImportCall
  commit_call close_call : ImportCall

-- What is outside of the code: the answers of the native library after the calls so far, and in the
-- same way whether sqlConn.Raw and Conn.withNative reach an open native connection, what the context
-- answers, and whether the IPC writer writes a batch.
pub record Environment : Type 0 where
  pub answer : List ImportCall → ImportCall → Result (Unit {0})
  pub reach : List ImportCall → Result (Unit {0})
  pub ctx_err : List ImportCall → ℕ → Option GoError
  pub write : Option ℕ → Result (Unit {0})

-- Whether the handle is open, whether a commit of it has succeeded, by which the library publishes the
-- table, the calls so far, and how often the context was asked.
pub record Staging : Type 0 where
  pub is_open : Bool
  pub published : Bool
  pub log : List ImportCall
  pub checks : ℕ

abbrev pub no_staging : Staging
no_staging = record { is_open = false; published = false; log = []; checks = 0 }

-- One call of the native library.
unfoldable pub call : Environment → ImportCall → Staging → Staging × Result (Unit {0})
call env c s = (record s { log = s.log ++ c ∷ [] }, env.answer s.log c)

-- One question to the context.
to_result : Option GoError → Result (Unit {0})
to_result none = ok tt
to_result (some e) = err e

unfoldable pub ask_ctx : Environment → Staging → Staging × Result (Unit {0})
unfolding to_result
ask_ctx env s = (record s { checks = suc s.checks }, to_result (env.ctx_err s.log s.checks))

-- The next step, unless the one before it has failed.
infixl 5 ◌>>>◌
abbrev pub ◌>>>◌ :
    Staging × Result (Unit {0})
    → (Staging → Staging × Result (Unit {0}))
    → Staging × Result (Unit {0})
(s, ok u) >>> next = next s
(s, err e) >>> next = (s, err e)

-- A check that changes nothing.
abbrev pub checked : Result (Unit {0}) → Staging → Staging × Result (Unit {0})
checked r s = (s, r)

-- The state with the handle open, if the library has opened it.
abbrev pub opened : Staging × Result (Unit {0}) → Staging × Result (Unit {0})
opened (s, ok u) = (record s { is_open = true }, ok u)
opened (s, err e) = (s, err e)

-- Connection.NewImport, of a connection that is open.
unfoldable pub new_import : Environment → String → Staging → Staging × Result (Unit {0})
unfolding call
new_import env name s =
    checked (check_no_nul_byte name "table name") s >>> λ s. opened (call env (open_call name) s)

import_is_closed : Result (Unit {0})
import_is_closed = err (errorf "datafusion-go import is closed" [])

-- Import.Append and Import.Commit.
unfoldable pub append_import : Environment → Option ℕ → Staging → Staging × Result (Unit {0})
unfolding call import_is_closed
append_import env batch s =
    if s.is_open then call env (append_call batch) s else checked import_is_closed s

-- The state that an answer to a commit leaves.
abbrev pub publish : Staging × Result (Unit {0}) → Staging × Result (Unit {0})
publish (s, ok u) = (record s { published = true }, ok u)
publish (s, err e) = (s, err e)

unfoldable pub commit_import : Environment → Staging → Staging × Result (Unit {0})
unfolding call import_is_closed
commit_import env s =
    if s.is_open then publish (call env commit_call s) else checked import_is_closed s

-- Import.Close.
unfoldable pub close_import : Staging → Staging
close_import s =
    if s.is_open then record s { is_open = false; log = s.log ++ close_call ∷ [] } else s
