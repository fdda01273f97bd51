-- ===== src/Lib.antt =====
-- datafusion-go, a database/sql driver in Go over a native DataFusion library: the logic of the
-- driver's own Go code, as functions with explicit states, and what holds of them.
--
-- A query takes its arguments through normalization, prepares a statement or reuses one, takes a lock
-- if the statement must not run beside others, binds the arguments to C parameters, and hands out a
-- reader of Arrow batches that owns the lock. The reader is used as it is, or as rows of
-- database/sql, or drained for the number of affected rows. Connections come from a connector and
-- are reset between uses.
--
--   Errors     errors.go, internal/native/errors.go: errors, their kinds, errors.Is
--   Params     parameters.go, internal/native/parameters.go, and the binding in
--              internal/native/native.go: normalizeParameterValue is `normalize`, its loop over
--              arguments `normalize_slice`, and statementParams `statement_params`
--   Arrow      the data model of Arrow, as far as the Go code looks at it
--   Reader     the ArrowReader interface of arrow.go with the laws that its users rely on;
--              resultReader of internal/native/native.go and serializedArrowReader of arrow.go
--   Exec       result.go: execResult is `exec_result`; exec.go: ExecStatements is `exec_statements`
--   Rows       rows.go, and queryRows of execution.go: Next is `next_row`, Close `close_rows`
--   Filter     internal/native/expr.go: decodeFilters is `decode_filters`, decodeExpr `decode_expr`,
--              Literal.UnmarshalJSON `unmarshal_literal`; documents and what encoding/json does with
--              them are in Filter/Json, and the form that rust/src/pushdown.rs writes in Filter/Print
--   Connector  datafusion.go up to an open connection: normalizeDSN is `normalize_dsn`,
--              NewConnectorWithInitContext `new_connector`, Connect `connect_connector`, Driver.Open
--              `driver_open`; NewSession and Close of session.go
--   Import     RegisterArrowReader of arrow.go and session.go, with Import of
--              internal/native/native.go
--   Session    connection.go, statement.go, execution.go, context_mutex.go, and the Connector of
--              datafusion.go: Conn, Stmt and Connector, runArrowQuery as `run_arrow_query`,
--              ResetSession as `reset_session` and in the parts between which other calls may run,
--              and the steps of contextMutex
--   Callback   internal/native/callbacks.go: dfgoGoInvoke is `invoke`, dispatchCallback
--              `dispatch_callback`, with a definition for each opcode in Callback/Opcodes;
--              internal/native/record_reader.go in Callback/SafeReader
--   Extension  extensions.go and ffi_table_provider.go: registerProvider is `register_provider`,
--              withExtension `with_extension`, Deregister `deregister`
--   Provider   provider_reader.go: Next is `next_batch`, Release `release`
--   Base       shared names, Boolean tests, lists, integers and int64
--
-- Every state is a record with the fields of the Go struct, and an operation returns the new state
-- with a `Result`, a value or an error. An error keeps the format and the arguments of its message.
-- A panic is the error `panicked`, or one case of what user code does. Integers are ℤ with the
-- wrap-around of int64 written out, and a float64 is its bits.
--
-- What is outside of the Go code is an argument: the answers of the native library, of contexts, of
-- locks and of callbacks (`Answers`, `OpenAnswers`, `Environment`), the conversions of the Arrow
-- library (`Conversions`, `Names`), time zones and UnixNano (`Clock`), net/url (`UrlLibrary`),
-- floats and base64 (`Codec`), and what a native stream or a user's reader will do (`StreamEvent`,
-- `InnerStep`). The native side of a bound parameter is `decode`, which is a specification and not
-- a translation; it reads texts and bytes by the lengths in the C struct. Where native handles
-- matter they are counted, the batches that are taken and released have counters that only grow,
-- and the calls on the handles of a result stream are a log.
--
-- Two loops run on fuel, the one of execResult and the one of Next. One unit is used for each batch
-- that the reader hands out, with one more for the end and, in Next, one for the row that is found;
-- the theorems on them say that this fuel gives a result.
--
-- Not modelled: RegisterArrowReaderZeroCopy and QueryArrowContext as entry points, the loading of the
-- native library and its trust, tools, cgo glue, and the Rust code. Goroutines are sequences of
-- operations that each hold a lock; that a sync.Mutex excludes others is assumed. The package's own
-- contextMutex is modelled by the steps of its goroutines.
pub mod Base
pub mod Errors
pub mod Params
pub mod Arrow
pub mod Reader
pub mod Exec
pub mod Rows
pub mod Filter
pub mod Connector
pub mod Import
pub mod Session
pub mod Callback
pub mod Extension
pub mod Provider
