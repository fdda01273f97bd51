-- ===== src/Reader/Interface.antt =====
-- The interface ArrowReader of arrow.go, with the laws that its users rely on.
use datafusion_go.Base.{◌≡◌, Bool, true, false, List, [], ◌∷◌}
use datafusion_go.Errors.{GoError, eof, Result, ok, err}
use datafusion_go.Arrow.{Batch, Field}
use datafusion_go.Base.{Option}

-- `err == io.EOF`.
abbrev pub is_eof : GoError → Bool
is_eof e = elim e [ eof ↦ true | _ ↦ false ]

-- What a reader will hand out.
pub data Event : Type 0 where
  batch : Batch → Event
  failed : GoError → Event

-- A reader with its state explicit. `script` is what is still to come, with `io.EOF` behind it.
pub record ArrowReader : Type 1 where
  pub State : Type 0
  pub schema : State → Option (List Field)
  pub read : State → State × Result Batch
  pub close : State → State
  pub script : State → List Event
  pub is_closed : State → Bool
  pub read_batch :
      (r : State) (b : Batch) (es : List Event)
      → script r ≡ batch b ∷ es
      → ((read r).1 ≡ ok b) × (script (read r).0 ≡ es)
  pub read_failed :
      (r : State) (e : GoError) (es : List Event) → script r ≡ failed e ∷ es → (read r).1 ≡ err e
  pub read_end : (r : State) → script r ≡ [] → ((read r).1 ≡ err eof) × (script (read r).0 ≡ [])
  pub close_closes : (r : State) → is_closed (close r) ≡ true
  pub read_closed : (r : State) → is_closed r ≡ true → is_closed (read r).0 ≡ true
