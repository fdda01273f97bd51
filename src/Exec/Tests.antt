-- ===== src/Exec/Tests.antt =====
-- Examples for the theorems on affected rows, with the two readers of the package.
use datafusion_go.Exec.Script.{
  settle_statement, exec_from, StopsAtFailure, exec_statements, exec_statements-StopsAtFailure,
}
use datafusion_go.Params.Normalize.{is_blank}
use datafusion_go.Base.{
  ℕ, ◌≡◌, refl, true, some, none, List, [], ◌∷◌, map, arith, String, if◌then◌else◌, ◌==◌,
}
use datafusion_go.Base.Int.{pos, negsuc, ◌+ℤ◌, ◌-ℤ◌, wrap64, IsInt64}
use datafusion_go.Errors.{ok, Result, err, wrapf, int_arg, canceled}
use datafusion_go.Arrow.{ArrowArray, Batch, uint64_array, int64_array}
use datafusion_go.Reader.Interface.{batch}
use datafusion_go.Reader.Native.{ResultReader, next, new_result_reader, script}
use datafusion_go.Reader.Serialized.{result_reader}
use datafusion_go.Exec.Count.{sum_integer_array, integer_values, rows_affected_from_record}
use datafusion_go.Exec.Loop.{exec_result, start}
use datafusion_go.Exec.Sums.{cell_sum, count_sum, sum_integer_array-exact}
use datafusion_go.Exec.Totals.{exec_events, HaveCounts, exec_result-exec_events, exec_result-counts}

abbrev counts : ℕ → Batch
counts n = record { columns = ("COUNT", uint64_array (some n ∷ [])) ∷ []; num_rows = 1 }

abbrev batches : List Batch
batches = counts 3 ∷ counts 4 ∷ []

abbrev reader : ResultReader
reader = new_result_reader [] (next (counts 3) ∷ next (counts 4) ∷ [])

reader-script : script reader ≡ map batch batches
unfolding script new_result_reader
reader-script = refl

batches-HaveCounts : HaveCounts batches (3 ∷ 4 ∷ [])
unfolding rows_affected_from_record ◌-ℤ◌ wrap64 ◌+ℤ◌
batches-HaveCounts = (refl, (refl, tt))

exec_result-counts_example :
    (r' : ResultReader) × (exec_result result_reader 3 reader ≡ some (r', ok (pos 7)))
    × (r'.closed ≡ true)
exec_result-counts_example =
    exec_result-counts result_reader reader batches (3 ∷ 4 ∷ []) reader-script batches-HaveCounts
      (omega arith)

exec_result-exec_events_example :
    (r' : ResultReader) × (exec_result result_reader 5 reader
      ≡ some (r', exec_events start (script reader)))
    × (r'.closed ≡ true)
exec_result-exec_events_example =
    exec_result-exec_events result_reader 5 reader (rw reader-script (omega arith))

abbrev column : ArrowArray
column = int64_array (some (pos 5) ∷ none ∷ some (negsuc 1) ∷ [])

column-sum : sum_integer_array column ≡ ok (pos 3)
unfolding sum_integer_array ◌-ℤ◌ wrap64 ◌+ℤ◌
column-sum = refl

sum_integer_array-exact_example : (pos 3 ≡ cell_sum (integer_values column)) × IsInt64 (pos 3)
unfolding integer_values
sum_integer_array-exact_example =
    sum_integer_array-exact column (pos 3) (omega arith, (omega arith, tt)) column-sum

abbrev count_column : ArrowArray
count_column = uint64_array (some 5 ∷ none ∷ some 6 ∷ [])

count_column-small : count_sum (integer_values count_column) ≡ 11
unfolding integer_values count_sum
count_column-small = refl

-- The third statement of a script fails; the second one is blank.
abbrev failing_exec : ℕ → String → Result (Unit {0})
failing_exec i s = if i == 2 then err canceled else ok tt

abbrev failing_script : List String
failing_script = "a" ∷ "  " ∷ "b" ∷ "c" ∷ []

failing_run :
    exec_statements failing_exec failing_script
    ≡ ("a" ∷ "b" ∷ [], err (wrapf "datafusion statement %d: %w" (int_arg (pos 3) ∷ []) canceled))
unfolding exec_statements exec_from settle_statement is_blank
failing_run = refl

exec_statements-StopsAtFailure_example :
    StopsAtFailure failing_exec failing_script (exec_statements failing_exec failing_script)
exec_statements-StopsAtFailure_example = exec_statements-StopsAtFailure failing_exec failing_script
