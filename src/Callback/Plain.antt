-- ===== src/Callback/Plain.antt =====
-- The opcodes that change no handle answer with no reader.
use datafusion_go.Base.{ℕ, Bool, true, false, ◌&&◌, ◌||◌, Option, none, some, ◌==◌, if◌then◌else◌}
use datafusion_go.Errors.{GoError, Result, ok, err, ◌>>=◌}
use datafusion_go.Session.State.{check_ctx}
use datafusion_go.Filter.Json.{Document}
use datafusion_go.Callback.Scan.{
  SchemaAnswer, TableRef, decode_table_ref, schema_panics, schema_nil, schema_given,
}
use datafusion_go.Callback.Handles.{
  Object, NextAnswer, EvalAnswer, Answers, Invocation, Payload, Reply, reader_object, table_object,
  function_object, catalog_object, next_panics, exhausted, batch_nil, batch_given, eval_panics,
  eval_returns, schema_stream, batch_stream,
}
use datafusion_go.Callback.Opcodes.{
  after_encoding, schema_reply, provider_schema, next_reply, read_batch, eval_result,
  eval_arguments, evaluate_function, function_signature, resolved, resolve_in, insert_rows,
  listed_names, list_names, arrow_callback,
}
use datafusion_go.Callback.Dispatch.{is_op, dispatch_answer}

-- An error, a reply alone, or one with a provider.
pub data IsPlain : Reply → Type 0 where
  refused : {e : GoError} → IsPlain (err e)
  replied : {p : Payload} → IsPlain (ok (p, none))
  provided :
      {p : Payload} {pushdown writable : Bool}
      → IsPlain (ok (p, some (table_object pushdown writable)))

IsPlain-if : (b : Bool) {x y : Reply} → IsPlain x → IsPlain y → IsPlain (if b then x else y)
IsPlain-if true hx hy = hx
IsPlain-if false hx hy = hy

IsPlain->>= {ℓ} :
    {A : Type ℓ} (r : Result A) {f : A → Reply} → ((a : A) → IsPlain (f a)) → IsPlain (r >>= f)
IsPlain->>= (ok a) k = k a
IsPlain->>= (err e) k = refused

encoding-IsPlain : (a : Answers) (p : Payload) → IsPlain (after_encoding a p)
encoding-IsPlain a p = IsPlain->>= a.encoded λ u. replied

schema-IsPlain : (a : Answers) (s : SchemaAnswer) → IsPlain (schema_reply a s)
unfolding schema_reply
schema-IsPlain a schema_panics = refused
schema-IsPlain a schema_nil = refused
schema-IsPlain a schema_given = encoding-IsPlain a schema_stream

provider_schema-IsPlain : (a : Answers) (o : Object) → IsPlain (provider_schema a o)
unfolding provider_schema
provider_schema-IsPlain a (table_object pushdown writable) = schema-IsPlain a a.schema
provider_schema-IsPlain a _ = refused

next_reply-IsPlain : (a : Answers) (n : NextAnswer) → IsPlain (next_reply a n)
unfolding next_reply
next_reply-IsPlain a next_panics = refused
next_reply-IsPlain a (exhausted none) = replied
next_reply-IsPlain a (exhausted (some e)) = refused
next_reply-IsPlain a batch_nil = refused
next_reply-IsPlain a batch_given = encoding-IsPlain a batch_stream

read_batch-IsPlain : (a : Answers) (o : Object) → IsPlain (read_batch a o)
unfolding read_batch
read_batch-IsPlain a reader_object =
    IsPlain->>= (check_ctx a.ctx_err) λ u. next_reply-IsPlain a a.next_batch
read_batch-IsPlain a _ = refused

eval_result-IsPlain : (a : Answers) (rows : ℕ) (r : EvalAnswer) → IsPlain (eval_result a rows r)
unfolding eval_result
eval_result-IsPlain a rows eval_panics = refused
eval_result-IsPlain a rows (eval_returns result (some e)) = refused
eval_result-IsPlain a rows (eval_returns none none) = refused
eval_result-IsPlain a rows (eval_returns (some (len, same_type)) none) =
    IsPlain-if ((len == rows) && same_type) (encoding-IsPlain a batch_stream) refused

eval_arguments-IsPlain : (a : Answers) (rows : Option ℕ) → IsPlain (eval_arguments a rows)
unfolding eval_arguments
eval_arguments-IsPlain a none = refused
eval_arguments-IsPlain a (some rows) = eval_result-IsPlain a rows a.evaluate

evaluate_function-IsPlain : (a : Answers) (o : Object) → IsPlain (evaluate_function a o)
unfolding evaluate_function
evaluate_function-IsPlain a function_object = IsPlain->>= a.arguments (eval_arguments-IsPlain a)
evaluate_function-IsPlain a _ = refused

signature-IsPlain : (a : Answers) (o : Object) → IsPlain (function_signature a o)
unfolding function_signature
signature-IsPlain a function_object = encoding-IsPlain a schema_stream
signature-IsPlain a _ = refused

resolved-IsPlain : (r : Option (Bool × Bool)) → IsPlain (resolved r)
unfolding resolved
resolved-IsPlain none = replied
resolved-IsPlain (some (pushdown, writable)) = provided

resolve_in-IsPlain : (a : Answers) (ref : TableRef) (o : Object) → IsPlain (resolve_in a ref o)
unfolding resolve_in
resolve_in-IsPlain a ref (catalog_object listed) = IsPlain->>= (a.resolve ref) resolved-IsPlain
resolve_in-IsPlain a ref _ = refused

insert_rows-IsPlain : (a : Answers) (o : Object) → IsPlain (insert_rows a o)
unfolding insert_rows
insert_rows-IsPlain a (table_object pushdown true) =
    IsPlain->>= a.insert λ n. IsPlain->>= (check_ctx a.input_err) λ u. replied
insert_rows-IsPlain a (table_object pushdown false) = refused
insert_rows-IsPlain a _ = refused

list_names-IsPlain :
    (a : Answers) (of_tables : Bool) (input : Document) (o : Object)
    → IsPlain (list_names a of_tables input o)
unfolding list_names
list_names-IsPlain a of_tables input (catalog_object true) =
    IsPlain->>= (check_ctx a.ctx_err)
      λ u. IsPlain->>= (listed_names a of_tables input) λ ns. replied
list_names-IsPlain a of_tables input (catalog_object false) =
    IsPlain->>= (check_ctx a.ctx_err) λ u. refused
list_names-IsPlain a of_tables input _ = IsPlain->>= (check_ctx a.ctx_err) λ u. refused

arrow_callback-IsPlain :
    (a : Answers) (reads : Bool) (o : Object) → IsPlain (arrow_callback a reads o)
unfolding arrow_callback
arrow_callback-IsPlain a reads o = IsPlain->>= a.exchange λ u.
    IsPlain->>= (check_ctx a.ctx_err)
      λ v. IsPlain-if reads (read_batch-IsPlain a o) (evaluate_function-IsPlain a o)

pub dispatch_answer-IsPlain : (inv : Invocation) (o : Object) → IsPlain (dispatch_answer inv o)
unfolding dispatch_answer
dispatch_answer-IsPlain inv o =
    let a = inv.answers in
    let op : ℕ → Bool = λ n. is_op n inv.opcode in
    IsPlain-if (op 3) (provider_schema-IsPlain a o) (
      IsPlain-if (op 5) (read_batch-IsPlain a o) (
        IsPlain-if (op 6) (signature-IsPlain a o) (
          IsPlain-if (op 7) (evaluate_function-IsPlain a o) (
            IsPlain-if (op 8)
              (IsPlain->>= (decode_table_ref inv.input) λ ref. resolve_in-IsPlain a ref o)
              (IsPlain-if (op 9 || op 10 || op 11)
                (IsPlain->>= a.exchange λ u. insert_rows-IsPlain a o)
                (IsPlain-if (op 12 || op 13) (arrow_callback-IsPlain a (op 12) o) (
                  IsPlain-if (op 14 || op 15) (list_names-IsPlain a (op 15) inv.input o)
                    refused)))))))
