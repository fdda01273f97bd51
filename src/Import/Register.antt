-- ===== src/Import/Register.antt =====
-- RegisterArrowReader of arrow.go and of session.go, with importArrowReader.
use datafusion_go.Base.{
  ℕ, String, str_eq, Bool, true, not, Option, none, some, List, [], ◌∷◌, if◌then◌else◌,
}
use datafusion_go.Errors.{GoError, errorf, Result, ok, err, fail_if}
use datafusion_go.Import.Staging.{
  Environment, Staging, no_staging, ask_ctx, ◌>>>◌, checked, new_import, append_import,
  commit_import, close_import,
}

-- The reader: whether there is one and it has a schema, the batches that are left in it, and what
-- Err returns behind them.
pub record Source : Type 0 where
  pub exists : Bool
  pub has_schema : Bool
  pub batches : List ℕ
  pub failure : Option GoError

-- appendBatch: one complete IPC stream, with a batch or with the schema alone.
unfoldable pub append_batch : Environment → Option ℕ → Staging → Staging × Result (Unit {0})
unfolding append_import
append_batch env batch s = checked (env.write batch) s >>> append_import env batch

-- The loop over the batches.
unfoldable pub append_batches : Environment → List ℕ → Staging → Staging × Result (Unit {0})
unfolding append_batch
append_batches env [] s = (s, ok tt)
append_batches env (b ∷ bs) s =
    ask_ctx env s >>> append_batch env (some b) >>> append_batches env bs

unfoldable pub reader_failure : Option GoError → Result (Unit {0})
reader_failure none = ok tt
reader_failure (some e) = err e

-- The commit function that both callers pass: it reaches the connection, and asks the context again.
unfoldable pub commit : Environment → Staging → Staging × Result (Unit {0})
unfolding commit_import
commit env s = checked (env.reach s.log) s >>> ask_ctx env >>> commit_import env

-- importArrowReader.
unfoldable pub import_arrow_reader : Environment → Source → Staging → Staging × Result (Unit {0})
unfolding append_batches reader_failure commit
import_arrow_reader env reader s =
    append_batch env none s
    >>> append_batches env reader.batches
    >>> checked (reader_failure reader.failure)
    >>> ask_ctx env
    >>> commit env

-- The `defer importer.Close()`.
abbrev pub close_after : Staging × Result (Unit {0}) → Staging × Result (Unit {0})
close_after (s, r) = (close_import s, r)

-- The open import runs, and is closed at the end; without one, the error is returned.
unfoldable pub run_import :
    Environment → Source → Staging × Result (Unit {0}) → Staging × Result (Unit {0})
unfolding import_arrow_reader close_import
run_import env reader (s, ok u) = close_after (import_arrow_reader env reader s)
run_import env reader (s, err e) = (s, err e)

-- What the two functions have in common, behind their checks.
unfoldable pub import_table : Environment → String → Source → Staging → Staging × Result (Unit {0})
unfolding run_import new_import
import_table env name reader s =
    run_import env reader (checked (env.reach s.log) s >>> new_import env name)

-- validateArrowRegistration.
unfoldable pub validate_arrow_registration :
    Environment → Bool → String → Source → Staging → Staging × Result (Unit {0})
validate_arrow_registration env has_conn name reader s =
    ask_ctx env s
    >>> checked (fail_if (not has_conn) (errorf "datafusion sql connection is nil" []))
    >>> checked (fail_if (str_eq name "") (errorf "datafusion arrow table name is empty" []))
    >>> checked (fail_if (not reader.exists) (errorf "datafusion arrow reader is nil" []))
    >>> checked
        (fail_if (not reader.has_schema) (errorf "datafusion arrow reader schema is nil" []))

-- RegisterArrowReader of arrow.go.
unfoldable pub register_arrow_reader :
    Environment → Bool → String → Source → Staging × Result (Unit {0})
unfolding validate_arrow_registration import_table
register_arrow_reader env has_conn name reader =
    validate_arrow_registration env has_conn name reader no_staging >>> import_table env name reader

-- Session.RegisterArrowReader.
unfoldable pub session_register_arrow_reader :
    Environment → String → Source → Staging × Result (Unit {0})
unfolding import_table
session_register_arrow_reader env name reader =
    ask_ctx env no_staging
    >>> checked (
        fail_if (if reader.exists then not reader.has_schema else true)
          (errorf "datafusion arrow reader or schema is nil" []))
    >>> import_table env name reader
