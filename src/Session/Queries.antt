-- ===== src/Session/Queries.antt =====
-- runArrowQuery of execution.go, with prepareOperation of Conn and Stmt, and lockSerializedStatement.
use datafusion_go.Base.{
  ℕ, suc, ◌-◌, String, Bool, true, false, not, ◌&&◌, Option, none, some, List, get_elem?,
  if◌then◌else◌,
}
use datafusion_go.Errors.{nil, prepare, closed, Result, ok, err, ◌>>◌, driver_error}
use datafusion_go.Params.Normalize.{Clock}
use datafusion_go.Params.Args.{NamedValue, normalize_slice}
use datafusion_go.Session.State.{
  Handle, Statement, Driver, Answers, check_ctx, native_prepare, Execution,
}
use datafusion_go.Session.Statements.{execute_native_statement, execute_arrow}
use datafusion_go.Session.Connections.{is_valid}

-- What is run: a query text, on a statement of its own, or the prepared statement `i`.
pub data Source : Type 0 where
  direct : String → Source
  prepared : ℕ → Source

-- queryOperation: `temporary` is the statement that the operation owns.
pub record QueryOperation : Type 0 where
  pub serializes : Bool
  pub temporary : Option Handle
  pub statement : ℕ

-- The lock that a result owns: the `ddlMu` of the connection or of the connector.
pub data Lock : Type 0 where
  conn_lock connector_lock : Lock

-- prepareOperation of Conn, with withNative.
unfoldable pub prepare_direct : Answers → String → Driver → Driver × Result QueryOperation
unfolding is_valid
prepare_direct a query d = elim (is_valid d) [
  | false ↦ (d, err (driver_error closed "datafusion connection is closed" nil))
  | true ↦ elim (native_prepare d.conn.native query a.prepare) [
    | err e ↦ (d, err (driver_error prepare "could not prepare DataFusion statement" e))
    | ok h ↦ (
      record d { open_statements = suc d.open_statements },
      ok (record { serializes = h.serializes; temporary = some h; statement = 0 }),
    )
  ]
]

abbrev pub serializes_of : Option Statement → Bool
serializes_of none = false
serializes_of (some s) = not s.closed && s.serializes

-- prepareOperation of Stmt and of Conn.
unfoldable pub prepare_operation : Answers → Source → Driver → Driver × Result QueryOperation
unfolding prepare_direct
prepare_operation a (direct query) d = prepare_direct a query d
prepare_operation a (prepared i) d = (
  d,
  ok (record {
    serializes = serializes_of (get_elem? d.conn.statements i);
    temporary = none;
    statement = i;
  }),
)

-- Which lock a query needs.
abbrev pub lock_of : Driver → Bool → Option Lock
lock_of d serializes =
    if serializes && not d.connector.shared_session
    then some conn_lock
    else (if serializes then some connector_lock else none)

abbrev pub take_lock : Option Lock → Driver → Driver
take_lock none d = d
take_lock (some conn_lock) d = record d { conn_locks = suc d.conn_locks }
take_lock (some connector_lock) d = record d { connector_locks = suc d.connector_locks }

abbrev pub free_lock : Option Lock → Driver → Driver
free_lock none d = d
free_lock (some conn_lock) d = record d { conn_locks = d.conn_locks - 1 }
free_lock (some connector_lock) d = record d { connector_locks = d.connector_locks - 1 }

-- Waiting for a lock may fail, when the context ends.
abbrev pub acquire : Option Lock → Result (Unit {0}) → Result (Unit {0})
acquire none answer = ok tt
acquire (some l) answer = answer

-- `op.close`, if there is one.
abbrev pub close_operation : Option Handle → Driver → Driver
close_operation none d = d
close_operation (some h) d = record d { open_statements = d.open_statements - 1 }

-- `op.execute`.
unfoldable pub execute_operation :
    Answers → QueryOperation → List NamedValue → Driver → Driver × Result Execution
unfolding execute_native_statement execute_arrow
execute_operation a op args d = elim op.temporary [
  | some h ↦ (d, execute_native_statement a (some h) args)
  | none ↦ execute_arrow a op.statement args d
]

-- A result with the lock that it owns, which newSerializedArrowReader frees when it is closed.
pub record Running : Type 0 where
  pub execution : Execution
  pub lock : Option Lock

-- runArrowQuery once the lock is taken.
unfoldable pub run_locked :
    Answers → QueryOperation → Option Lock → List NamedValue → Driver → Driver × Result Running
unfolding execute_operation
run_locked a op lock args d =
    let (d1, result) = execute_operation a op args d in
    elim result [
      | err e ↦ (free_lock lock d1, err e)
      | ok x ↦ (d1, ok (record { execution = x; lock = lock }))
    ]

-- runArrowQuery once the operation is prepared.
unfoldable pub run_operation :
    Answers → QueryOperation → List NamedValue → Driver → Driver × Result Running
unfolding run_locked
run_operation a op args d =
    let lock = lock_of d op.serializes in
    elim (acquire lock a.lock) [
      | err e ↦ (close_operation op.temporary d, err e)
      | ok u ↦
          let (d1, result) = run_locked a op lock args (take_lock lock d) in
          (close_operation op.temporary d1, result)
    ]

-- runArrowQuery.
unfoldable pub run_arrow_query :
    Clock → Answers → Source → List NamedValue → Driver → Driver × Result Running
unfolding prepare_operation run_operation
run_arrow_query c a source args d = elim (check_ctx a.ctx_err >> normalize_slice c args) [
  | err e ↦ (d, err e)
  | ok named ↦
      let (d1, made) = prepare_operation a source d in
      elim made [ err e ↦ (d1, err e) | ok op ↦ run_operation a op named d1 ]
]
