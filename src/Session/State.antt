-- ===== src/Session/State.antt =====
-- Conn, Stmt and Connector, the native handles behind them, and Prepare, Close and ExecuteArrow of
-- internal/native/native.go.
use Prim.Native.Char.{code}
use datafusion_go.Base.{ℕ, ◌-◌, ◌==◌, String, Bool, false, ◌||◌, Option, none, some, List, [], ◌∷◌}
use datafusion_go.Base.Int.{ℤ}
use datafusion_go.Errors.{GoError, errorf, str_arg, Result, ok, err, ◌>>=◌, ◌>>◌, fail_if}
use datafusion_go.Params.Args.{NamedValue}
use datafusion_go.Params.Bind.{check_arg_count, statement_params}

-- What dfgo_prepare tells of a statement, and the session that it was prepared on.
pub record Handle : Type 0 where
  pub session : ℕ
  pub num_input : ℤ
  pub serializes : Bool

pub record Prepared : Type 0 where
  pub inputs : ℤ
  pub serialized : Bool

-- Stmt. `registered` is whether it is in the map `statements` of its connection.
pub record Statement : Type 0 where
  pub native : Option Handle
  pub query : String
  pub num_input : ℤ
  pub serializes : Bool
  pub closed : Bool
  pub registered : Bool

-- Conn. `native` is the session behind its native connection. `statements` are all that it prepared.
pub record Conn : Type 0 where
  pub native : Option ℕ
  pub owns_connector : Bool
  pub closed : Bool
  pub statements : List Statement

-- Connector.
pub record Connector : Type 0 where
  pub db_open : Bool
  pub has_init : Bool
  pub shared_session : Bool
  pub closed : Bool

-- A connection with its connector. `sessions` numbers the native connections that were made, and the
-- other counters are the native handles that are open and the locks that are taken. `pending` are the
-- connections that a reset has made and not installed yet.
pub record Driver : Type 0 where
  pub connector : Connector
  pub conn : Conn
  pub sessions : ℕ
  pub open_connections : ℕ
  pub open_statements : ℕ
  pub conn_locks : ℕ
  pub connector_locks : ℕ
  pub pending : List ℕ

-- What the callers' contexts, the native library and the user's callback answer. `ctx_err` is what the
-- context answers first, and `connect_ctx` and `execute_ctx` what it answers at connectNative and ExecuteArrow.
pub record Answers : Type 0 where
  pub ctx_err : Option GoError
  pub connect_ctx : Option GoError
  pub execute_ctx : Option GoError
  pub prepare : Result Prepared
  pub execute : Result (Unit {0})
  pub connect : Result (Unit {0})
  pub init : Option GoError
  pub lock : Result (Unit {0})

-- `if err := ctx.Err(); err != nil { return err }`.
abbrev pub check_ctx : Option GoError → Result (Unit {0})
check_ctx none = ok tt
check_ctx (some e) = err e

-- checkNoNULByte.
unfoldable pub has_nul : String → Bool
has_nul String.[] = false
has_nul (String.◌∷◌ c s) = (code c == 0) || has_nul s

unfoldable pub check_no_nul_byte : String → String → Result (Unit {0})
unfolding has_nul
check_no_nul_byte value what =
    fail_if (has_nul value) (errorf "datafusion-go %s contains a NUL byte" (str_arg what ∷ []))

-- Connection.Prepare: dfgo_prepare answers, unless the handle is closed or the query has a NUL.
unfoldable pub native_prepare : Option ℕ → String → Result Prepared → Result Handle
unfolding check_no_nul_byte
native_prepare none query answer = err (errorf "datafusion-go connection is closed" [])
native_prepare (some session) query answer = do
  check_no_nul_byte query "query"
  p ← answer
  ok (record { session = session; num_input = p.inputs; serializes = p.serialized })

-- Statement.Close: the handles that are open after it.
abbrev pub native_close : Option Handle → ℕ → ℕ
native_close none n = n
native_close (some h) n = n - 1

-- Connection.Close.
abbrev pub native_connection_close : Option ℕ → ℕ → ℕ
native_connection_close none n = n
native_connection_close (some s) n = n - 1

-- What ExecuteArrow hands out: the result stream of a query on a session.
pub record Execution : Type 0 where
  pub on_session : ℕ
  pub args : List NamedValue

-- ExecuteArrow, up to the call of the native library, which answers.
unfoldable pub native_execute :
    Option Handle → Option GoError → List NamedValue → Result (Unit {0}) → Result Execution
unfolding check_arg_count statement_params
native_execute none ctx args answer = err (errorf "datafusion-go statement is closed" [])
native_execute (some h) ctx args answer = do
  check_ctx ctx
  check_arg_count h.num_input args
  statement_params args >>= λ block. answer
  ok (record { on_session = h.session; args = args })
