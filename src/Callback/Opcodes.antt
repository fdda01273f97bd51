-- ===== src/Callback/Opcodes.antt =====
-- The operations of dispatchCallback in internal/native/callbacks.go, one for each opcode.
use datafusion_go.Base.{
  ℕ, ◌+◌, ◌-◌, String, Bool, true, ◌&&◌, Option, none, some, List, [], ◌==◌, if◌then◌else◌,
}
use datafusion_go.Errors.{errorf, panicked, Result, ok, err, ◌>>=◌, ◌>>◌}
use datafusion_go.Session.State.{check_ctx}
use datafusion_go.Filter.Json.{Document}
use datafusion_go.Filter.Scalars.{Codec}
use datafusion_go.Callback.Names.{catalog_names}
use datafusion_go.Callback.Scan.{
  ScanRequest, decode_request, scan_question, SchemaAnswer, ScanResult, finish_scan, TableRef,
  decode_table_ref, decode_name, schema_panics, schema_nil, schema_given,
}
use datafusion_go.Callback.Handles.{
  Object, Table, NextAnswer, EvalAnswer, Answers, Invocation, Payload, Reply, cancel_object,
  context_object, reader_object, table_object, function_object, catalog_object, next_panics,
  exhausted, batch_nil, batch_given, eval_panics, eval_returns, no_bytes, schema_stream,
  batch_stream, number_text, name_list,
}

-- A Go type assertion that fails, or user code that panics.
abbrev pub panic : Reply
panic = err panicked

abbrev pub reply : Payload → Reply
reply p = ok (p, none)

abbrev pub after_encoding : Answers → Payload → Reply
after_encoding a p = a.encoded >> reply p

-- Opcode 0: the deferred Delete comes behind it, also if Release panics.
unfoldable pub release_object : Object → Table → Table
release_object reader_object t = record t { open_readers = t.open_readers - 1 }
release_object _ t = t

unfoldable pub release_reply : Answers → Object → Reply
release_reply a reader_object = if a.release_panics then panic else reply no_bytes
release_reply a _ = reply no_bytes

-- Opcode 2.
unfoldable pub cancel_context : Invocation → Object → Table → Table × Reply
unfolding cancel_object
cancel_context inv (context_object b) t =
    (record t { objects = cancel_object inv.handle t.objects }, reply no_bytes)
cancel_context inv _ t = (t, panic)

-- Opcode 3.
unfoldable pub schema_reply : Answers → SchemaAnswer → Reply
schema_reply a schema_panics = panic
schema_reply a schema_nil = err (errorf "go provider returned nil schema" [])
schema_reply a schema_given = after_encoding a schema_stream

unfoldable pub provider_schema : Answers → Object → Reply
unfolding schema_reply
provider_schema a (table_object pushdown writable) = schema_reply a a.schema
provider_schema a _ = panic

-- Opcode 4: the reader goes to a new handle, or is released, and then Release may panic.
unfoldable pub scan_reply : Bool → ScanResult → Table → Table × Reply
scan_reply release_panics r t =
    let opened = record t { open_readers = t.open_readers + (if r.handed_out then 1 else 0) } in
    let left = record opened {
      open_readers = opened.open_readers - (if r.released then 1 else 0);
    } in
    let sent : Reply = r.outcome >> ok (schema_stream, some reader_object) in
    (left, if r.released && release_panics then panic else sent)

-- The scan of an object, which is a provider or not.
unfoldable pub scan_object : Codec → Answers → ScanRequest → Object → Table → Table × Reply
unfolding scan_question finish_scan scan_reply
scan_object c a request (table_object pushdown writable) t =
    elim (scan_question c pushdown request) [
      | err e ↦ (t, err e)
      | ok question ↦ scan_reply a.release_panics (finish_scan (a.scan question) a.encoded) t
    ]
scan_object c a request _ t = (t, panic)

unfoldable pub open_scan : Codec → Invocation → Object → Table → Table × Reply
unfolding decode_request scan_object
open_scan c inv o t = elim (decode_request inv.input) [
  | err e ↦ (t, err e)
  | ok request ↦ scan_object c inv.answers request o t
]

-- Opcode 5.
unfoldable pub next_reply : Answers → NextAnswer → Reply
next_reply a next_panics = panic
next_reply a (exhausted none) = reply no_bytes
next_reply a (exhausted (some e)) = err e
next_reply a batch_nil = err (errorf "go reader returned nil batch" [])
next_reply a batch_given = after_encoding a batch_stream

unfoldable pub read_batch : Answers → Object → Reply
unfolding next_reply
read_batch a reader_object = check_ctx a.ctx_err >> next_reply a a.next_batch
read_batch a _ = panic

-- Opcode 7, behind the reading of the arguments: their number of rows, if there is a batch.
unfoldable pub eval_result : Answers → ℕ → EvalAnswer → Reply
eval_result a rows eval_panics = panic
eval_result a rows (eval_returns result (some e)) = err e
eval_result a rows (eval_returns none none) = err (errorf "go UDF returned wrong length or type" [])
eval_result a rows (eval_returns (some (len, same_type)) none) =
    if (len == rows) && same_type
    then after_encoding a batch_stream
    else err (errorf "go UDF returned wrong length or type" [])

unfoldable pub eval_arguments : Answers → Option ℕ → Reply
unfolding eval_result
eval_arguments a none = err (errorf "missing UDF argument batch" [])
eval_arguments a (some rows) = eval_result a rows a.evaluate

unfoldable pub evaluate_function : Answers → Object → Reply
unfolding eval_arguments
evaluate_function a function_object = a.arguments >>= eval_arguments a
evaluate_function a _ = panic

-- Opcode 6.
unfoldable pub function_signature : Answers → Object → Reply
function_signature a function_object = after_encoding a schema_stream
function_signature a _ = panic

-- Opcode 8: the capabilities of the provider, as bits.
unfoldable pub resolved : Option (Bool × Bool) → Reply
resolved none = reply no_bytes
resolved (some (pushdown, writable)) = ok (
  number_text ((if pushdown then 1 else 0) + (if writable then 2 else 0)),
  some (table_object pushdown writable),
)

unfoldable pub resolve_in : Answers → TableRef → Object → Reply
unfolding resolved
resolve_in a ref (catalog_object listed) = a.resolve ref >>= resolved
resolve_in a ref _ = panic

unfoldable pub resolve_table : Answers → Document → Object → Reply
unfolding resolve_in decode_table_ref
resolve_table a input o = decode_table_ref input >>= λ ref. resolve_in a ref o

-- Opcodes 9 to 11.
unfoldable pub insert_rows : Answers → Object → Reply
insert_rows a (table_object pushdown true) =
    a.insert >>= λ written. check_ctx a.input_err >> reply (number_text written)
insert_rows a _ = panic

unfoldable pub insert_into : Answers → Object → Reply
unfolding insert_rows
insert_into a o = a.exchange >> insert_rows a o

-- Opcodes 14 and 15: the names of the schemas, or of the tables of one that the input names.
unfoldable pub asked_schema : Bool → Document → Result (Option String)
unfolding decode_name
asked_schema of_tables input =
    if of_tables then (decode_name input >>= λ schema. ok (some schema)) else ok none

unfoldable pub listed_names : Answers → Bool → Document → Result (List String)
unfolding asked_schema catalog_names
listed_names a of_tables input = asked_schema of_tables input >>= a.names >>= catalog_names

unfoldable pub list_names : Answers → Bool → Document → Object → Reply
unfolding listed_names
list_names a of_tables input (catalog_object true) =
    check_ctx a.ctx_err >> (listed_names a of_tables input >>= λ ns. reply (name_list ns))
list_names a of_tables input _ = check_ctx a.ctx_err >> panic

-- dispatchArrowCallback, whose readers and functions are the ones of opcodes 5 and 7.
unfoldable pub arrow_callback : Answers → Bool → Object → Reply
unfolding read_batch evaluate_function
arrow_callback a reads o = do
  a.exchange
  check_ctx a.ctx_err
  if reads then read_batch a o else evaluate_function a o
