-- ===== src/Reader/Serialized.antt =====
-- The two implementations of ArrowReader: resultReader of internal/native/native.go, and
-- serializedArrowReader of arrow.go around another reader, which frees a lock when it is closed.
use datafusion_go.Base.{
  When, when_map, ℕ, suc, ap, sym, subst, ◌||◌, ◌≡◌, refl, Bool, true, false, Option, none, some,
  List, [], ◌∷◌, if◌then◌else◌, arith,
}
use datafusion_go.Errors.{GoError, Result, ok, err, eof}
use datafusion_go.Arrow.{Batch, Field}
use datafusion_go.Reader.Interface.{ArrowReader, Event, batch, failed}
use datafusion_go.Reader.Native.{
  ResultReader, StreamEvent, context_done, next, import_failed, stream_failed, NativeCall,
  close_reader, read, script,
}

module _ (s : List Field) (a t u v : Bool) (calls : List NativeCall) where
  abbrev pub reader_of : Option GoError → Bool → List StreamEvent → ResultReader
  reader_of c closed p = record {
    schema = s;
    context = c;
    pending = p;
    closed = closed;
    has_array = a;
    has_stream = t;
    has_result = u;
    token_open = v;
    calls = calls;
  }

  pub batch_law :
      (c : Option GoError) (closed : Bool) (p : List StreamEvent) (b : Batch) (es : List Event)
      → script (reader_of c closed p) ≡ batch b ∷ es
      → ((read (reader_of c closed p)).1 ≡ ok b) × (script (read (reader_of c closed p)).0 ≡ es)
  unfolding read script
  batch_law none false (next x ∷ p) b es e = ground arith
  batch_law none false [] b es e = cc
  batch_law none false (context_done x ∷ p) b es e = cc
  batch_law none false (import_failed x ∷ p) b es e = cc
  batch_law none false (stream_failed n m k x ∷ p) b es e = cc
  batch_law none true [] b es e = cc
  batch_law none true (context_done x ∷ p) b es e = cc
  batch_law none true (next x ∷ p) b es e = cc
  batch_law none true (x ∷ p) b es e = cc
  batch_law (some x) closed p b es e = cc

  pub failed_law :
      (c : Option GoError) (closed : Bool) (p : List StreamEvent) (x : GoError) (es : List Event)
      → script (reader_of c closed p) ≡ failed x ∷ es
      → (read (reader_of c closed p)).1 ≡ err x
  unfolding read script
  failed_law none false (next y ∷ p) x es e = cc
  failed_law none false [] x es e = cc
  failed_law none false (context_done y ∷ p) x es e = cc
  failed_law none false (import_failed y ∷ p) x es e = cc
  failed_law none false (stream_failed n m k y ∷ p) x es e = cc
  failed_law none true [] x es e = cc
  failed_law none true (context_done y ∷ p) x es e = cc
  failed_law none true (next y ∷ p) x es e = cc
  failed_law none true (y ∷ p) x es e = cc
  failed_law (some y) closed p x es e = cc

  pub end_law :
      (c : Option GoError) (closed : Bool) (p : List StreamEvent)
      → script (reader_of c closed p) ≡ []
      → ((read (reader_of c closed p)).1 ≡ err eof) × (script (read (reader_of c closed p)).0 ≡ [])
  unfolding read script
  end_law none false [] e = ground arith
  end_law none true [] e = (refl, refl)
  end_law none true (context_done y ∷ p) e = cc
  end_law none true (next y ∷ p) e = (refl, refl)
  end_law none true (y ∷ p) e = (refl, refl)
  end_law none false (next y ∷ p) e = cc
  end_law none false (y ∷ p) e = cc
  end_law (some y) closed p e = cc

pub close_reader-closed : (r : ResultReader) → (close_reader r).closed ≡ true
unfolding close_reader
close_reader-closed r = ground arith

pub closed_law :
    (s : List Field) (a t u v : Bool) (calls : List NativeCall) (c : Option GoError) (closed : Bool)
    (p : List StreamEvent)
    → closed ≡ true
    → (read (reader_of s a t u v calls c closed p)).0.closed ≡ true
unfolding read
closed_law s a t u v calls (some e) closed p h = ground arith
closed_law s a t u v calls none false p h = cc
closed_law s a t u v calls none true [] h = refl
closed_law s a t u v calls none true (context_done e ∷ p) h = ground arith
closed_law s a t u v calls none true (x ∷ p) h = refl

-- The reader over a native result stream keeps the laws of the interface.
abbrev pub result_reader : ArrowReader
result_reader = record {
  State = ResultReader;
  schema = λ r. some r.schema;
  read = read;
  close = close_reader;
  script = script;
  is_closed = λ r. r.closed;
  read_batch = λ r.
      batch_law r.schema r.has_array r.has_stream r.has_result r.token_open r.calls r.context
        r.closed r.pending;
  read_failed = λ r.
      failed_law r.schema r.has_array r.has_stream r.has_result r.token_open r.calls r.context
        r.closed r.pending;
  read_end = λ r.
      end_law r.schema r.has_array r.has_stream r.has_result r.token_open r.calls r.context r.closed
        r.pending;
  close_closes = close_reader-closed;
  read_closed = λ r.
      closed_law r.schema r.has_array r.has_stream r.has_result r.token_open r.calls r.context
        r.closed r.pending;
}

-- serializedArrowReader: `done` is the state of its `once`, and `unlocks` counts the calls of unlock.
pub record Serialized (S : Type 0) : Type 0 where
  pub inner : S
  pub done : Bool
  pub unlocks : ℕ

module _ (reader : ArrowReader) where
  open reader use {State, is_closed}

  -- newSerializedArrowReader, with a lock to free.
  unfoldable pub new_serialized : State → Serialized State
  new_serialized r = record { inner = r; done = false; unlocks = 0 }

  unfoldable pub read_serialized : Serialized State → Serialized State × Result Batch
  read_serialized r = (record r { inner = (reader.read r.inner).0 }, (reader.read r.inner).1)

  -- Close, and finalize.
  unfoldable pub close_serialized : Serialized State → Serialized State
  close_serialized r =
      if r.done
      then r
      else record { inner = reader.close r.inner; done = true; unlocks = suc r.unlocks }

  -- The state when the reader was closed, and when it was not: the lock was freed once, and the
  -- inner reader is closed; or the lock is still held.
  pub record FreesOnce (closed : Bool) (r : Serialized State) : Type 0 where
    pub done : r.done ≡ closed
    pub freed : r.unlocks ≡ (if closed then 1 else 0)
    pub inner_closed : When closed (is_closed r.inner ≡ true)

  read_serialized-FreesOnce :
      (closed : Bool) (r : Serialized State)
      → FreesOnce closed r
      → FreesOnce closed (read_serialized r).0
  unfolding read_serialized
  read_serialized-FreesOnce closed r h = record {
    done = h.done;
    freed = h.freed;
    inner_closed = when_map closed (reader.read_closed r.inner) h.inner_closed;
  }

  close_serialized-FreesOnce :
      (closed : Bool) (r : Serialized State)
      → FreesOnce closed r
      → FreesOnce true (close_serialized r)
  unfolding close_serialized
  close_serialized-FreesOnce true r h =
      let stays : close_serialized r ≡ r = simp (h.done, close_serialized) refl in
      subst (FreesOnce true) (sym stays) h
  close_serialized-FreesOnce false r h =
      let shut : Serialized State = record {
        inner = reader.close r.inner;
        done = true;
        unlocks = suc r.unlocks;
      } in
      let shuts : close_serialized r ≡ shut = simp (h.done, close_serialized) refl in
      subst (FreesOnce true) (sym shuts)
        (record { done = refl; freed = ap suc h.freed; inner_closed = reader.close_closes r.inner })

  pub data SerializedOp : Type 0 where
    reads closes finalizes : SerializedOp

  pub run_serialized : List SerializedOp → Serialized State → Serialized State
  run_serialized [] r = r
  run_serialized (reads ∷ ops) r = run_serialized ops (read_serialized r).0
  run_serialized (closes ∷ ops) r = run_serialized ops (close_serialized r)
  run_serialized (finalizes ∷ ops) r = run_serialized ops (close_serialized r)

  -- Whether one of the operations closes the reader, by Close or by the finalizer.
  unfoldable pub any_close : List SerializedOp → Bool
  any_close [] = false
  any_close (reads ∷ ops) = any_close ops
  any_close (closes ∷ ops) = true
  any_close (finalizes ∷ ops) = true

  run_serialized-keeps :
      (ops : List SerializedOp) (closed : Bool) (r : Serialized State)
      → FreesOnce closed r
      → FreesOnce (closed || any_close ops) (run_serialized ops r)
  unfolding run_serialized any_close
  run_serialized-keeps [] true r h = h
  run_serialized-keeps [] false r h = h
  run_serialized-keeps (reads ∷ ops) closed r h =
      run_serialized-keeps ops closed (read_serialized r).0 (read_serialized-FreesOnce closed r h)
  run_serialized-keeps (closes ∷ ops) true r h =
      run_serialized-keeps ops true (close_serialized r) (close_serialized-FreesOnce true r h)
  run_serialized-keeps (closes ∷ ops) false r h =
      run_serialized-keeps ops true (close_serialized r) (close_serialized-FreesOnce false r h)
  run_serialized-keeps (finalizes ∷ ops) true r h =
      run_serialized-keeps ops true (close_serialized r) (close_serialized-FreesOnce true r h)
  run_serialized-keeps (finalizes ∷ ops) false r h =
      run_serialized-keeps ops true (close_serialized r) (close_serialized-FreesOnce false r h)

  -- Over any sequence of reads, closes and finalizer runs, the lock of a new serialized reader is
  -- freed exactly once if one of them is a close or a finalizer run, and then the inner reader is
  -- closed too; if they are all reads, the lock is not freed.
  pub run_serialized-FreesOnce :
      (ops : List SerializedOp) (r : State)
      → FreesOnce (any_close ops) (run_serialized ops (new_serialized r))
  unfolding new_serialized
  run_serialized-FreesOnce ops r =
      run_serialized-keeps ops false (new_serialized r)
        (record { done = refl; freed = refl; inner_closed = tt })
