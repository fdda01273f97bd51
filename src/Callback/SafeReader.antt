-- ===== src/Callback/SafeReader.antt =====
-- panicSafeRecordReader of internal/native/record_reader.go, which the native library drains.
use datafusion_go.Base.{
  ℕ, zero, suc, ◌<◌, ◌≡◌, refl, sym, ap, subst, Bool, true, false, Option, none, some, List, [],
  ◌∷◌, arith, if◌then◌else◌, length,
}
use datafusion_go.Errors.{GoError, errorf, text_of, Result, ok, err}

-- What the reader inside does in one call of Next and behind it: Next, Err or RecordBatch may panic.
pub data InnerStep : Type 0 where
  step_panics : InnerStep
  step_ends : Option GoError → InnerStep
  step_batch : Option ℕ → InnerStep

-- The reader with what the one inside will do; behind that, it has ended.
pub record SafeReader : Type 0 where
  pub inner : List InnerStep
  pub batch : Option ℕ
  pub failure : Option GoError
  pub done : Bool

abbrev panic_error : GoError
panic_error = errorf "datafusion-go arrow reader callback panicked: %v" []

abbrev nil_batch_error : GoError
nil_batch_error = errorf "datafusion-go arrow reader returned a nil batch after Next" []

-- errors.New(err.Error()), where there is an error.
abbrev text_error : Option GoError → Option GoError
text_error none = none
text_error (some e) = some (text_of e)

-- Next of a reader that is not done, by what the one inside does.
unfoldable pub next_step : InnerStep → List InnerStep → SafeReader
next_step step_panics rest = record {
  inner = rest;
  batch = none;
  failure = some panic_error;
  done = true;
}
next_step (step_ends e) rest = record {
  inner = rest;
  batch = none;
  failure = text_error e;
  done = true;
}
next_step (step_batch none) rest = record {
  inner = rest;
  batch = none;
  failure = some nil_batch_error;
  done = true;
}
next_step (step_batch (some b)) rest = record {
  inner = rest;
  batch = some b;
  failure = none;
  done = false;
}

unfoldable pub end_of : SafeReader
end_of = record { inner = []; batch = none; failure = none; done = true }

unfoldable pub next_from : List InnerStep → SafeReader
unfolding next_step end_of
next_from [] = end_of
next_from (s ∷ rest) = next_step s rest

-- Next.
unfoldable pub safe_next : SafeReader → SafeReader
unfolding next_from
safe_next r = if r.done then record r { batch = none } else next_from r.inner

-- newPanicSafeRecordReader, of a reader whose Schema panics, is nil or is given.
pub data SchemaOf : Type 0 where
  panics missing given : SchemaOf

unfoldable pub new_safe_reader : SchemaOf → List InnerStep → Result SafeReader
new_safe_reader panics inner = err (errorf "datafusion-go arrow reader Schema panicked: %v" [])
new_safe_reader missing inner = err (errorf "datafusion-go arrow reader schema is nil" [])
new_safe_reader given inner =
    ok (record { inner = inner; batch = none; failure = none; done = false })

-- The batches that a number of calls of Next make, and the reader behind them.
unfoldable pub with_batch : Option ℕ → List ℕ → List ℕ
with_batch none bs = bs
with_batch (some b) bs = b ∷ bs

unfoldable pub read_safe : ℕ → SafeReader → List ℕ × SafeReader
unfolding safe_next with_batch
read_safe zero r = ([], r)
read_safe (suc n) r =
    let later = read_safe n (safe_next r) in (with_batch (safe_next r).batch later.0, later.1)

-- What a reader delivers, and the error that it ends with: up to the first end, panic or nil batch.
unfoldable pub delivered : List InnerStep → List ℕ
delivered [] = []
delivered (step_batch (some b) ∷ rest) = b ∷ delivered rest
delivered (_ ∷ rest) = []

unfoldable pub ending : List InnerStep → Option GoError
ending [] = none
ending (step_panics ∷ rest) = some panic_error
ending (step_ends e ∷ rest) = text_error e
ending (step_batch none ∷ rest) = some nil_batch_error
ending (step_batch (some b) ∷ rest) = ending rest

-- What a run of Next comes to.
abbrev pub Reads : List ℕ → Option GoError → List ℕ × SafeReader → Type 0
Reads bs e (batches, r) = (batches ≡ bs) × (r.failure ≡ e) × (r.done ≡ true)

abbrev StepReads : ℕ → List ℕ → Option GoError → SafeReader → Type 0
StepReads n bs e r = Reads bs e (with_batch r.batch (read_safe n r).0, (read_safe n r).1)

-- A reader that is done stays done, without a batch and with its error.
read_safe-done : (n : ℕ) (r : SafeReader) → r.done ≡ true → Reads [] r.failure (read_safe n r)
unfolding read_safe
read_safe-done zero r d = (refl, refl, d)
read_safe-done (suc n) r d =
    let after : SafeReader = record r { batch = none } in
    let step : safe_next r ≡ after = simp (d, safe_next) refl in
    subst (StepReads n [] r.failure) (sym step) (read_safe-done n after d)

ended :
    (n : ℕ) (rest : List InnerStep) (e : Option GoError)
    → StepReads n [] e (record { inner = rest; batch = none; failure = e; done = true })
unfolding with_batch
ended n rest e =
    read_safe-done n (record { inner = rest; batch = none; failure = e; done = true }) refl

read_safe-delivered :
    (n : ℕ) (steps : List InnerStep) (b : Option ℕ)
    → length steps < n
    → Reads
        (delivered steps)
        (ending steps)
        (read_safe n (record { inner = steps; batch = b; failure = none; done = false }))
unfolding read_safe safe_next delivered ending
read_safe-delivered zero steps b h = absurd (omega arith)
read_safe-delivered (suc n) [] b h = ended n [] none
read_safe-delivered (suc n) (step_panics ∷ rest) b h = ended n rest (some panic_error)
read_safe-delivered (suc n) (step_ends e ∷ rest) b h = ended n rest (text_error e)
read_safe-delivered (suc n) (step_batch none ∷ rest) b h = ended n rest (some nil_batch_error)
read_safe-delivered (suc n) (step_batch (some x) ∷ rest) b h =
    let (batches, failure, done) = read_safe-delivered n rest (some x) (omega arith) in
    (ap (λ bs. x ∷ bs) batches, failure, done)

-- Whatever the reader inside does, also where it panics: reading it through the safe reader, with one
-- call of Next more than it has steps, gives the batches before its first end, panic or nil batch,
-- and the error of that, and then the reader is done.
pub read_safe-Reads :
    (steps : List InnerStep) (n : ℕ) (r : SafeReader)
    → length steps < n
    → new_safe_reader given steps ≡ ok r
    → Reads (delivered steps) (ending steps) (read_safe n r)
unfolding new_safe_reader
read_safe-Reads steps n r h e =
    subst (λ x. Reads (delivered steps) (ending steps) (read_safe n x)) (cc (e))
      (read_safe-delivered n steps none h)
