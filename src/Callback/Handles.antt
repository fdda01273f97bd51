-- ===== src/Callback/Handles.antt =====
-- The Go objects behind handles, and what an invocation of a callback gives and gets.
use datafusion_go.Base.{
  ℕ, String, Bool, true, Option, none, some, List, [], ◌∷◌, ◌==◌, if◌then◌else◌,
}
use datafusion_go.Base.Int.{ℤ}
use datafusion_go.Errors.{GoError, Result}
use datafusion_go.Filter.Json.{Document}
use datafusion_go.Callback.Scan.{ScanOptions, SchemaAnswer, ScanAnswer, TableRef}

-- What a handle stands for: a callbackContext and whether it was canceled, a callbackReader, a provider
-- that takes options or writes, a function, or a catalog that may list its names.
pub data Object : Type 0 where
  context_object : Bool → Object
  reader_object : Object
  table_object : Bool → Bool → Object
  function_object : Object
  catalog_object : Bool → Object

-- The handles of runtime/cgo, which are never used again, and the readers that are not released.
pub record Table : Type 0 where
  pub objects : List (ℕ × Object)
  pub next : ℕ
  pub open_readers : ℕ

pub data NextAnswer : Type 0 where
  next_panics : NextAnswer
  exhausted : Option GoError → NextAnswer
  batch_nil batch_given : NextAnswer

-- The result of a function: its length, and whether its type is the announced one.
pub data EvalAnswer : Type 0 where
  eval_panics : EvalAnswer
  eval_returns : Option (ℕ × Bool) → Option GoError → EvalAnswer

-- What user code, the context, Arrow and the input answer in one invocation, and whether the Release of a
-- user's reader panics.
pub record Answers : Type 0 where
  pub ctx_err : Option GoError
  pub schema : SchemaAnswer
  pub scan : Option ScanOptions → ScanAnswer
  pub next_batch : NextAnswer
  pub evaluate : EvalAnswer
  pub resolve : TableRef → Result (Option (Bool × Bool))
  pub insert : Result ℕ
  pub input_err : Option GoError
  pub names : Option String → Result (List String)
  pub encoded : Result (Unit {0})
  pub arguments : Result (Option ℕ)
  pub exchange : Result (Unit {0})
  pub release_panics : Bool

-- An invocation: a handle, the handle of an operation or zero, an opcode, and the input.
pub record Invocation : Type 0 where
  pub handle : ℕ
  pub operation : ℕ
  pub opcode : ℤ
  pub input_length : ℤ
  pub input : Document
  pub answers : Answers

-- What goes back: nothing, an IPC stream, a number, or names.
pub data Payload : Type 0 where
  no_bytes schema_stream batch_stream : Payload
  number_text : ℕ → Payload
  name_list : List String → Payload

abbrev pub Reply : Type 0
Reply = Result (Payload × Option Object)

unfoldable pub lookup_object : ℕ → List (ℕ × Object) → Option Object
lookup_object h [] = none
lookup_object h ((k, o) ∷ rest) = if k == h then some o else lookup_object h rest

-- Handle.Delete.
unfoldable pub delete_object : ℕ → List (ℕ × Object) → List (ℕ × Object)
delete_object h [] = []
delete_object h ((k, o) ∷ rest) =
    let later = delete_object h rest in if k == h then rest else (k, o) ∷ later

unfoldable pub cancel_object : ℕ → List (ℕ × Object) → List (ℕ × Object)
cancel_object h [] = []
cancel_object h ((k, context_object b) ∷ rest) =
    let later = cancel_object h rest in
    if k == h then (k, context_object true) ∷ rest else (k, context_object b) ∷ later
cancel_object h ((k, o) ∷ rest) = (k, o) ∷ cancel_object h rest
