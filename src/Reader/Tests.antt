-- ===== src/Reader/Tests.antt =====
-- Examples for the theorems on readers.
use datafusion_go.Base.{ℕ, ◌≡◌, true, false, List, [], ◌∷◌, ◌++◌, replicate, some}
use datafusion_go.Base.Int.{pos}
use datafusion_go.Errors.{canceled}
use datafusion_go.Arrow.{Batch}
use datafusion_go.Reader.Native.{
  StreamEvent, next, stream_failed, token_cancel, new_result_reader, close_reader,
}
use datafusion_go.Reader.Tidy.{
  IsTidy, Op, reads, cancels, closes, run, ending, run-IsTidy, close_reader-run,
}
use datafusion_go.Reader.Serialized.{
  result_reader, new_serialized, FreesOnce, any_close, SerializedOp, run_serialized,
  run_serialized-FreesOnce,
}

abbrev empty_batch : Batch
empty_batch = record { columns = []; num_rows = 0 }

abbrev events : List StreamEvent
events = next empty_batch ∷ stream_failed (pos 5) (some "stopped") "cancelled" (some canceled) ∷ []

abbrev ops : List Op
ops = reads ∷ cancels ∷ reads ∷ closes ∷ reads ∷ []

run-IsTidy_example : IsTidy (run ops (new_result_reader [] events))
run-IsTidy_example = run-IsTidy ops [] events

close_reader-run_example :
    let r = close_reader (run ops (new_result_reader [] events)) in
    (r.has_array ≡ false)
    × (r.has_stream ≡ false)
    × (r.has_result ≡ false)
    × (r.token_open ≡ false)
    × ((n : ℕ) × (r.calls ≡ replicate n token_cancel ++ ending))
close_reader-run_example = close_reader-run ops [] events

abbrev serialized_ops : List (SerializedOp result_reader)
serialized_ops =
    SerializedOp.reads ∷ SerializedOp.closes ∷ SerializedOp.closes ∷ SerializedOp.finalizes ∷ []

run_serialized-FreesOnce_example : FreesOnce result_reader true (
    run_serialized result_reader serialized_ops
      (new_serialized result_reader (new_result_reader [] events)))
unfolding any_close
run_serialized-FreesOnce_example =
    run_serialized-FreesOnce result_reader serialized_ops (new_result_reader [] events)
