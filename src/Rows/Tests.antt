-- ===== src/Rows/Tests.antt =====
-- Examples for the theorems on rows, over the reader of a native result stream.
use datafusion_go.Base.{
  ℕ, suc, ◌≡◌, refl, true, false, some, none, List, [], ◌∷◌, length, map, arith, if◌then◌else◌,
}
use datafusion_go.Base.Int.{pos, negsuc, ◌*ℤ◌, is_int64}
use datafusion_go.Errors.{GoError, ok, err, scan, driver_error}
use datafusion_go.Params.Value.{GoTime}
use datafusion_go.Arrow.{Batch, Field, int64, string, list, int64_array, string_array, uint64_array}
use datafusion_go.Reader.Native.{ResultReader, next, new_result_reader, script, read}
use datafusion_go.Rows.Iterate.{next_row, close_rows}
use datafusion_go.Reader.Serialized.{result_reader}
use datafusion_go.Rows.Types.{Names, is_database_sql_type, scan_type}
use datafusion_go.Rows.Value.{Conversions, arrow_value, duration_nanos, duration_overflow}
use datafusion_go.Rows.Durations.{duration_nanos-is_int64}
use datafusion_go.Rows.Agree.{type_of, Fits, arrow_value-Fits}
use datafusion_go.Rows.Columns.{Rows, blank_rows, query_rows, new_rows}
use datafusion_go.Rows.Metadata.{
  ForEach, Describes, AnyUnsupported, query_rows-AreSupported, query_rows-AnyUnsupported,
}
use datafusion_go.Rows.Order.{view}
use datafusion_go.Rows.Next.{Answers, next_row-Answers}
use datafusion_go.Rows.Release.{
  IsBalanced, RowsOp, next_op, close_op, run_rows, run_rows-IsBalanced,
}

abbrev names : Names
names = record { type_name = λ t. "int64"; type_text = λ t. "int64"; unit_text = λ u. "ms" }

abbrev instant : GoTime
instant = record { sec = pos 0; nsec = 0; offset = pos 0; location = none }

abbrev conversions : Conversions
conversions = record {
  of_float16 = λ n. n;
  of_float32 = λ n. n;
  of_date32 = λ n. instant;
  of_date64 = λ n. instant;
  of_time32 = λ u n. instant;
  of_time64 = λ u n. instant;
  to_time_func = λ u z. ok (λ n. instant);
  multiplier = λ u. pos 1000000;
  decimal_text = λ n k. "0";
}

abbrev fields : List Field
fields =
    record { name = "id"; type = int64; nullable = false }
    ∷ record { name = "name"; type = string; nullable = true }
    ∷ []

abbrev batch_of : ℕ → Batch
batch_of n = record {
  columns =
      ("id", int64_array (some (pos n) ∷ some (pos (suc n)) ∷ []))
      ∷ ("name", string_array (none ∷ some "x" ∷ []))
      ∷ [];
  num_rows = 2;
}

abbrev empty : Batch
empty = record { columns = []; num_rows = 0 }

abbrev reader : ResultReader
reader = new_result_reader fields (next empty ∷ next (batch_of 7) ∷ [])

reader-schema : some reader.schema ≡ some fields
unfolding new_result_reader
reader-schema = refl

query_rows-AreSupported_example :
    (r : Rows ResultReader) × (query_rows result_reader names reader ≡ (reader, ok r))
    × (r.reader ≡ reader)
    × (r.closed ≡ false)
    × (r.columns ≡ map (λ (f : Field). f.name) fields)
    × ForEach (Describes result_reader names r) fields
unfolding is_database_sql_type
query_rows-AreSupported_example =
    query_rows-AreSupported result_reader names reader fields reader-schema (refl, (refl, tt))

abbrev bad_fields : List Field
bad_fields = record { name = "xs"; type = list int64; nullable = false } ∷ []

abbrev bad_reader : ResultReader
bad_reader = new_result_reader bad_fields []

bad_reader-schema : some bad_reader.schema ≡ some bad_fields
unfolding new_result_reader
bad_reader-schema = refl

bad-AnyUnsupported : AnyUnsupported bad_fields
unfolding is_database_sql_type
bad-AnyUnsupported = (0, record { name = "xs"; type = list int64; nullable = false }, refl, refl)

query_rows-AnyUnsupported_example :
    (e : GoError) × (query_rows result_reader names bad_reader ≡ (
      result_reader.close bad_reader,
      err (driver_error scan "could not create DataFusion rows" e),
    ))
    × ((query_rows result_reader names bad_reader).0.closed ≡ true)
query_rows-AnyUnsupported_example =
    query_rows-AnyUnsupported result_reader names bad_reader bad_fields bad_reader-schema
      bad-AnyUnsupported

reader-length : length (script reader) ≡ 2
unfolding script new_result_reader
reader-length = refl

next_row-Answers_example :
    Answers conversions result_reader 9 2
      (view conversions result_reader (blank_rows reader))
      (blank_rows reader)
next_row-Answers_example =
    next_row-Answers conversions result_reader 9 2 (blank_rows reader) refl
      (omega (arith, reader-length))

-- An empty batch, and two of two rows.
abbrev some_rows : ResultReader
some_rows = new_result_reader [] (next empty ∷ next (batch_of 7) ∷ next (batch_of 9) ∷ [])

some_rows-made : new_rows result_reader names some_rows ≡ ok (blank_rows some_rows)
unfolding new_rows new_result_reader
some_rows-made = refl

-- The third row is in the third batch, and the close behind it releases that batch.
abbrev some_ops : List (RowsOp conversions result_reader)
some_ops = next_op 9 2 ∷ next_op 9 2 ∷ next_op 9 2 ∷ close_op ∷ next_op 9 2 ∷ []

some_ops_run :
    let r = run_rows conversions result_reader some_ops (blank_rows some_rows) in
    (r.taken ≡ 3) × (r.releases ≡ 3)
unfolding run_rows new_result_reader next_row read arrow_value close_rows
some_ops_run = (refl, refl)

run_rows-IsBalanced_example :
    IsBalanced conversions result_reader
      (run_rows conversions result_reader some_ops (blank_rows some_rows))
run_rows-IsBalanced_example =
    run_rows-IsBalanced conversions result_reader names some_rows (blank_rows some_rows) some_ops
      some_rows-made

arrow_value-Fits_example :
    Fits
      (scan_type (type_of (uint64_array (some 5 ∷ none ∷ []))) true)
      (arrow_value conversions (uint64_array (some 5 ∷ none ∷ [])) 1)
unfolding is_database_sql_type type_of
arrow_value-Fits_example =
    arrow_value-Fits conversions (uint64_array (some 5 ∷ none ∷ [])) 1 true refl

duration_nanos-is_int64_example : duration_nanos (negsuc 9223372036854) (pos 1000000) ≡ (
    if is_int64 (negsuc 9223372036854 *ℤ pos 1000000)
    then ok (negsuc 9223372036854 *ℤ pos 1000000)
    else err (duration_overflow (negsuc 9223372036854)))
duration_nanos-is_int64_example =
    duration_nanos-is_int64 (negsuc 9223372036854) 999999 (omega arith)
