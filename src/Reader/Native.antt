-- ===== src/Reader/Native.antt =====
-- resultReader and cancelToken of internal/native/native.go: the reader over a native result stream.
-- What the native stream and the context will do is a script; the calls into the native library are
-- kept in a log.
use datafusion_go.Base.{
  String, str_eq, Bool, true, false, Option, none, some, List, [], ◌∷◌, ◌++◌, if◌then◌else◌,
}
use datafusion_go.Base.Int.{ℤ}
use datafusion_go.Errors.{GoError, eof, errorf, native_of, int_arg, str_arg, Result, ok, err}
use datafusion_go.Arrow.{Batch, Field}
use datafusion_go.Reader.Interface.{Event, batch, failed}

-- What the next read meets: the context is done before it, the stream hands out a batch, the batch
-- cannot be imported, or the stream fails with an error number, its last message, and the kind of
-- the native error (empty if it is none), where the context may be done by then.
pub data StreamEvent : Type 0 where
  context_done : GoError → StreamEvent
  next : Batch → StreamEvent
  import_failed : GoError → StreamEvent
  stream_failed : ℤ → Option String → String → Option GoError → StreamEvent

pub data NativeCall : Type 0 where
  token_cancel done_close result_cancel array_release stream_release result_close token_close :
      NativeCall

pub record ResultReader : Type 0 where
  pub schema : List Field
  pub context : Option GoError
  pub pending : List StreamEvent
  pub closed : Bool
  pub has_array : Bool
  pub has_stream : Bool
  pub has_result : Bool
  pub token_open : Bool
  pub calls : List NativeCall

-- A reader as newResultReader returns it.
unfoldable pub new_result_reader : List Field → List StreamEvent → ResultReader
new_result_reader schema events = record {
  schema = schema;
  context = none;
  pending = events;
  closed = false;
  has_array = true;
  has_stream = true;
  has_result = true;
  token_open = true;
  calls = [];
}

abbrev call : NativeCall → ResultReader → ResultReader
call c r = record r { calls = r.calls ++ c ∷ [] }

-- cancelToken.Cancel and cancelToken.Close.
unfoldable pub cancel : ResultReader → ResultReader
cancel r = if r.token_open then call token_cancel r else r

token_close_once : ResultReader → ResultReader
token_close_once r = if r.token_open then record (call token_close r) { token_open = false } else r

close_array : ResultReader → ResultReader
close_array r = if r.has_array then record (call array_release r) { has_array = false } else r

close_stream : ResultReader → ResultReader
close_stream r = if r.has_stream then record (call stream_release r) { has_stream = false } else r

cancel_result : ResultReader → ResultReader
cancel_result r = if r.has_result then call result_cancel r else r

close_result : ResultReader → ResultReader
close_result r = if r.has_result then record (call result_close r) { has_result = false } else r

-- closeLocked.
unfoldable pub close_locked : ResultReader → ResultReader
unfolding token_close_once close_array close_stream cancel_result close_result
close_locked r =
    if r.closed
    then r
    else token_close_once (
        close_result (
          close_stream
            (close_array (cancel_result (call done_close (record r { closed = true }))))))

-- Close.
unfoldable pub close_reader : ResultReader → ResultReader
unfolding cancel close_locked
close_reader r = close_locked (cancel r)

-- streamError.
unfoldable pub stream_error : ℤ → Option String → GoError
stream_error errno none = errorf "arrow stream failed with errno %d" (int_arg errno ∷ [])
stream_error errno (some message) =
    errorf "arrow stream failed with errno %d: %s" (int_arg errno ∷ str_arg message ∷ [])

-- contextError.
unfoldable pub context_error : Option GoError → GoError → GoError
context_error none e = e
context_error (some c) e = c

-- The error of a failed get_next.
unfoldable pub read_error : ℤ → Option String → String → Option GoError → GoError
unfolding context_error stream_error
read_error errno message kind c = context_error c (
    if str_eq kind ""
    then stream_error errno message
    else native_of kind (stream_error errno message))

-- The branch of Read for a context that is done.
unfoldable pub give_up : ResultReader → GoError → ResultReader × Result Batch
unfolding cancel close_reader
give_up r e = (close_reader (cancel r), err e)

-- Read, by the context, the `closed` flag and what the stream meets.
unfoldable pub read_with :
    Option GoError → Bool → List StreamEvent → ResultReader → ResultReader × Result Batch
unfolding give_up close_locked read_error
read_with (some e) closed es r = give_up r e
read_with none closed (context_done e ∷ es) r =
    give_up (record r { context = some e; pending = es }) e
read_with none true [] r = (r, err eof)
read_with none true (_ ∷ es) r = (r, err eof)
read_with none false [] r = (close_locked r, err eof)
read_with none false (next b ∷ es) r = (record r { pending = es }, ok b)
read_with none false (import_failed e ∷ es) r = (close_locked (record r { pending = es }), err e)
read_with none false (stream_failed errno message kind c ∷ es) r =
    (close_locked (record r { context = c; pending = es }), err (read_error errno message kind c))

unfoldable pub read : ResultReader → ResultReader × Result Batch
unfolding read_with
read r = read_with r.context r.closed r.pending r

-- What the reader has still to hand out, until it fails or ends.
events_of : List StreamEvent → List Event
unfolding read_error
events_of [] = []
events_of (context_done e ∷ es) = failed e ∷ []
events_of (next b ∷ es) = batch b ∷ events_of es
events_of (import_failed e ∷ es) = failed e ∷ []
events_of (stream_failed errno message kind c ∷ es) = failed (read_error errno message kind c) ∷ []

script_of : Option GoError → Bool → List StreamEvent → List Event
unfolding events_of
script_of (some e) closed es = failed e ∷ []
script_of none true (context_done e ∷ es) = failed e ∷ []
script_of none true _ = []
script_of none false es = events_of es

unfoldable pub script : ResultReader → List Event
unfolding script_of
script r = script_of r.context r.closed r.pending
