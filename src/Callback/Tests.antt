-- ===== src/Callback/Tests.antt =====
-- Runs of callbacks.
use datafusion_go.Base.{ℕ, ◌≡◌, refl, true, false, none, some, List, [], ◌∷◌, arith}
use datafusion_go.Base.Int.{ℤ, pos}
use datafusion_go.Errors.{errorf, panicked, ok, err}
use datafusion_go.Filter.Json.{unmarshal, document, object, no_member}
use datafusion_go.Filter.Scalars.{Codec}
use datafusion_go.Session.State.{has_nul}
use datafusion_go.Callback.Names.{
  name_le, sort, any_bad, catalog_names, IsListing, mem, catalog_names-IsListing,
}
use datafusion_go.Callback.Scan.{ScanAnswer, schema_panics, schema_given, scan_panics, scan_returns}
use datafusion_go.Callback.Handles.{Answers, Invocation, batch_given, eval_panics}
use datafusion_go.Callback.Dispatch.{
  is_op, Event, run_events, table_registration, registered, invoked,
}
use datafusion_go.Callback.Children.{IsOwned}
use datafusion_go.Callback.SafeReader.{
  InnerStep, new_safe_reader, read_safe, delivered, ending, Reads, read_safe-Reads, step_panics,
  step_batch,
}
use datafusion_go.Callback.Owned.{empty_table, run_events-IsOwned}

catalog_names_run : catalog_names ("b" ∷ "a" ∷ "b" ∷ []) ≡ ok ("a" ∷ "b" ∷ [])
unfolding catalog_names any_bad sort name_le has_nul
catalog_names_run = refl

catalog_names-IsListing_example :
    IsListing ("a" ∷ "b" ∷ [])
    × (mem "b" ("a" ∷ "b" ∷ []) ≡ mem "b" ("b" ∷ "a" ∷ "b" ∷ []))
    × (any_bad ("b" ∷ "a" ∷ "b" ∷ []) ≡ false)
catalog_names-IsListing_example =
    catalog_names-IsListing ("b" ∷ "a" ∷ "b" ∷ []) ("a" ∷ "b" ∷ []) "b" catalog_names_run

abbrev test_codec : Codec
test_codec = record { parse_float = λ w n. none; decode_base64 = λ s. err (errorf "none" []) }

-- User code whose scan answers as given.
abbrev answers_of : ScanAnswer → Answers
answers_of scan = record {
  ctx_err = none;
  schema = schema_given;
  scan = λ question. scan;
  next_batch = batch_given;
  evaluate = eval_panics;
  resolve = λ ref. ok none;
  insert = ok 3;
  input_err = none;
  names = λ asked. ok [];
  encoded = ok tt;
  arguments = ok none;
  exchange = ok tt;
  release_panics = true;
}

abbrev call_of : ℕ → ℤ → ScanAnswer → Invocation
call_of handle opcode scan = record {
  handle = handle;
  operation = 0;
  opcode = opcode;
  input_length = pos 2;
  input = document (object no_member);
  answers = answers_of scan;
}

-- A provider is registered at handle 1; its first scan succeeds and gives handle 2, its second one
-- panics in Schema, and its third one has an error beside the reader; then handle 2 is released, where Release panics.
abbrev scan_events : List Event
scan_events =
    registered (table_registration true false)
    ∷ invoked (call_of 1 (pos 4) (scan_returns (some schema_given) none))
    ∷ invoked (call_of 1 (pos 4) (scan_returns (some schema_panics) none))
    ∷ invoked (call_of 1 (pos 4) (scan_returns (some schema_given) (some panicked)))
    ∷ invoked (call_of 2 (pos 0) scan_panics)
    ∷ []

scanned_run : (run_events test_codec scan_events empty_table).open_readers ≡ 0
unfolding run_events unmarshal is_op
scanned_run = refl

run_events-IsOwned_example : IsOwned (run_events test_codec scan_events empty_table)
unfolding is_op
run_events-IsOwned_example = run_events-IsOwned test_codec scan_events (tt, (tt, (tt, (refl, tt))))

-- Two batches, and then a panic, behind which nothing is read.
abbrev test_steps : List InnerStep
test_steps = step_batch (some 7) ∷ step_batch (some 8) ∷ step_panics ∷ step_batch (some 9) ∷ []

read_safe-Reads_example :
    Reads
      (7 ∷ 8 ∷ [])
      (ending test_steps)
      (read_safe 5 (record { inner = test_steps; batch = none; failure = none; done = false }))
unfolding delivered new_safe_reader
read_safe-Reads_example =
    read_safe-Reads test_steps 5
      (record { inner = test_steps; batch = none; failure = none; done = false }) (omega arith) refl
