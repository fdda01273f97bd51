-- ===== src/Callback/Dispatch.antt =====
-- dispatchCallback and dfgoGoInvoke of internal/native/callbacks.go, over a table of handles.
use datafusion_go.Base.{
  ℕ, suc, Bool, true, false, not, ◌&&◌, ◌||◌, Option, none, some, List, [], ◌∷◌, ◌==◌,
  if◌then◌else◌,
}
use datafusion_go.Base.Int.{ℤ, pos, negsuc}
use datafusion_go.Errors.{errorf, int_arg, panicked, Result, ok, err}
use datafusion_go.Filter.Scalars.{Codec}
use datafusion_go.Callback.Handles.{
  Object, Table, Invocation, Payload, Reply, lookup_object, delete_object, context_object,
  table_object, function_object, catalog_object, no_bytes,
}
use datafusion_go.Callback.Opcodes.{
  release_object, release_reply, cancel_context, provider_schema, open_scan, read_batch,
  evaluate_function, function_signature, resolve_table, insert_into, list_names, arrow_callback,
}

unfoldable pub is_op : ℕ → ℤ → Bool
is_op n (pos m) = m == n
is_op n (negsuc m) = false

-- The opcodes that change no handle.
unfoldable pub dispatch_answer : Invocation → Object → Reply
unfolding is_op provider_schema read_batch function_signature evaluate_function resolve_table
    insert_into list_names arrow_callback
dispatch_answer inv o =
    let a = inv.answers in
    let op : ℕ → Bool = λ n. is_op n inv.opcode in
    if op 3
    then provider_schema a o
    else if op 5
    then read_batch a o
    else if op 6
    then function_signature a o
    else if op 7
    then evaluate_function a o
    else if op 8
    then resolve_table a inv.input o
    else if op 9 || op 10 || op 11
    then insert_into a o
    else if op 12 || op 13
    then arrow_callback a (op 12) o
    else if op 14 || op 15
    then list_names a (op 15) inv.input o
    else err (errorf "unsupported Go callback operation %d" (int_arg inv.opcode ∷ []))

-- dispatchCallback.
unfoldable pub dispatch_callback : Codec → Invocation → Object → Table → Table × Reply
unfolding is_op release_object release_reply cancel_context open_scan dispatch_answer
dispatch_callback c inv o t =
    if is_op 0 inv.opcode
    then (release_object o t, release_reply inv.answers o)
    else if is_op 1 inv.opcode
    then (t, ok (no_bytes, some (context_object false)))
    else if is_op 2 inv.opcode
    then cancel_context inv o t
    else if is_op 4 inv.opcode
    then open_scan c inv o t
    else (t, dispatch_answer inv o)

-- cgo.NewHandle.
unfoldable pub new_handle : Object → Table → Table
new_handle o t = record t { objects = (t.next, o) ∷ t.objects; next = suc t.next }

-- The context of the operation, if one is given: its handle must be of a callbackContext.
is_context : Option Object → Bool
is_context (some (context_object b)) = true
is_context _ = false

unfoldable pub operation_fails : Invocation → Table → Bool
unfolding is_context lookup_object
operation_fails inv t =
    not (inv.operation == 0) && not (is_context (lookup_object inv.operation t.objects))

-- The deferred Delete of opcode 0.
unfoldable pub delete_after : Invocation → Table → Table
unfolding is_op delete_object
delete_after inv t =
    if is_op 0 inv.opcode then record t { objects = delete_object inv.handle t.objects } else t

-- A child gets a handle, and an error goes back as text with status 1.
unfoldable pub settle : Table × Reply → Table × Result Payload
unfolding new_handle
settle (t, err e) = (t, err e)
settle (t, ok (p, none)) = (t, ok p)
settle (t, ok (p, some o)) = (new_handle o t, ok p)

-- A callback on an object, up to its deferred Delete.
unfoldable pub run_callback : Codec → Invocation → Option Object → Table → Table × Result Payload
unfolding dispatch_callback operation_fails settle
run_callback c inv none t = (t, err panicked)
run_callback c inv (some o) t =
    if operation_fails inv t then (t, err panicked) else settle (dispatch_callback c inv o t)

unfoldable pub negative : ℤ → Bool
negative (pos n) = false
negative (negsuc n) = true

-- dfgoGoInvoke: a panic anywhere comes back as an error.
unfoldable pub invoke : Codec → Invocation → Table → Table × Result Payload
unfolding negative run_callback delete_after lookup_object
invoke c inv t =
    if negative inv.input_length
    then (t, err (errorf "invalid callback input length" []))
    else let done = run_callback c inv (lookup_object inv.handle t.objects) t in
      (delete_after inv done.0, done.1)

-- What RegisterGo registers, and its handle.
pub data Registration : Type 0 where
  table_registration : Bool → Bool → Registration
  function_registration : Registration
  catalog_registration : Bool → Registration

unfoldable pub registered_object : Registration → Object
registered_object (table_registration pushdown writable) = table_object pushdown writable
registered_object function_registration = function_object
registered_object (catalog_registration listed) = catalog_object listed

pub data Event : Type 0 where
  registered : Registration → Event
  invoked : Invocation → Event

unfoldable pub run_events : Codec → List Event → Table → Table
unfolding registered_object new_handle invoke
run_events c [] t = t
run_events c (registered r ∷ es) t = run_events c es (new_handle (registered_object r) t)
run_events c (invoked inv ∷ es) t = run_events c es (invoke c inv t).0
