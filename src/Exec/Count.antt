-- ===== src/Exec/Count.antt =====
-- The counting half of result.go: rowsAffectedFromRecord, sumIntegerArray and integerValue.
use Prim.Native.Char.{code}
use datafusion_go.Base.{
  ℕ, ◌+◌, String, Bool, true, false, ◌&&◌, ◌||◌, Option, none, some, List, [], ◌∷◌, leb, ltb, ◌==◌,
  if◌then◌else◌, replicate,
}
use datafusion_go.Base.Int.{ℤ, pos, ltb_ℤ, ◌+ℤ◌, ◌-ℤ◌, wrap64, max_int64, min_int64}
use datafusion_go.Errors.{GoError, errorf, int_arg, Result, ok, err, ◌>>=◌, ◌>>◌, fail_if}
use datafusion_go.Arrow.{
  ArrowArray, Batch, null_array, boolean_array, int8_array, int16_array, int32_array, int64_array,
  uint8_array, uint16_array, uint32_array, uint64_array, float16_array, float32_array,
  float64_array, string_array, large_string_array, string_view_array, binary_array,
  large_binary_array, binary_view_array, fixed_size_binary_array, date32_array, date64_array,
  time32_array, time64_array, duration_array, timestamp_array, decimal32_array, decimal64_array,
  decimal128_array, decimal256_array, month_interval_array, day_time_interval_array,
  month_day_nano_interval_array, nested_array,
}

-- The guards of the two places that add a count: `count > 0 && sum > MaxInt64 - count`, and the same
-- below. The differences do not wrap, for the sign that is tested first.
unfoldable pub overflows : ℤ → ℤ → Bool
overflows total value =
    (ltb_ℤ (pos 0) value && ltb_ℤ (max_int64 -ℤ value) total)
    || (ltb_ℤ value (pos 0) && ltb_ℤ total (min_int64 -ℤ value))

unfoldable pub checked_add : GoError → ℤ → ℤ → Result ℤ
unfolding overflows
checked_add e total value = fail_if (overflows total value) e >> ok (wrap64 (total +ℤ value))

abbrev column_overflow : GoError
column_overflow = errorf "count column overflowed int64" []

-- Option.map, under a name of its own for the cells of an array.
abbrev cells_by {ℓ} : {A : Type ℓ} → (A → Result ℤ) → List (Option A) → List (Option (Result ℤ))
cells_by f [] = []
cells_by f (none ∷ cells) = none ∷ cells_by f cells
cells_by f (some a ∷ cells) = some (f a) ∷ cells_by f cells

uint64_cell : ℕ → Result ℤ
uint64_cell n =
    if ltb 9223372036854775807 n
    then err (errorf "count value %d exceeds int64 range" (int_arg (pos n) ∷ []))
    else ok (pos n)

-- The message ends in the type of the array.
abbrev non_integer : GoError
non_integer = errorf "count column has non-integer Arrow type %s" []

abbrev non_integer_cell {ℓ} : {A : Type ℓ} → A → Result ℤ
non_integer_cell a = err non_integer

-- For each row, `none` where IsNull holds and else what integerValue returns. A null array answers
-- false to IsNull, since it has no bitmap.
unfoldable pub integer_values : ArrowArray → List (Option (Result ℤ))
unfolding uint64_cell
integer_values (int8_array cells) = cells_by ok cells
integer_values (int16_array cells) = cells_by ok cells
integer_values (int32_array cells) = cells_by ok cells
integer_values (int64_array cells) = cells_by ok cells
integer_values (uint8_array cells) = cells_by (λ n. ok (pos n)) cells
integer_values (uint16_array cells) = cells_by (λ n. ok (pos n)) cells
integer_values (uint32_array cells) = cells_by (λ n. ok (pos n)) cells
integer_values (uint64_array cells) = cells_by uint64_cell cells
integer_values (null_array n) = replicate n (some (err non_integer))
integer_values (boolean_array cells) = cells_by non_integer_cell cells
integer_values (float16_array cells) = cells_by non_integer_cell cells
integer_values (float32_array cells) = cells_by non_integer_cell cells
integer_values (float64_array cells) = cells_by non_integer_cell cells
integer_values (string_array cells) = cells_by non_integer_cell cells
integer_values (large_string_array cells) = cells_by non_integer_cell cells
integer_values (string_view_array cells) = cells_by non_integer_cell cells
integer_values (binary_array cells) = cells_by non_integer_cell cells
integer_values (large_binary_array cells) = cells_by non_integer_cell cells
integer_values (binary_view_array cells) = cells_by non_integer_cell cells
integer_values (fixed_size_binary_array w cells) = cells_by non_integer_cell cells
integer_values (date32_array cells) = cells_by non_integer_cell cells
integer_values (date64_array cells) = cells_by non_integer_cell cells
integer_values (time32_array unit cells) = cells_by non_integer_cell cells
integer_values (time64_array unit cells) = cells_by non_integer_cell cells
integer_values (duration_array unit cells) = cells_by non_integer_cell cells
integer_values (timestamp_array unit zone cells) = cells_by non_integer_cell cells
integer_values (decimal32_array p k cells) = cells_by non_integer_cell cells
integer_values (decimal64_array p k cells) = cells_by non_integer_cell cells
integer_values (decimal128_array p k cells) = cells_by non_integer_cell cells
integer_values (decimal256_array p k cells) = cells_by non_integer_cell cells
integer_values (month_interval_array cells) = cells_by non_integer_cell cells
integer_values (day_time_interval_array cells) = cells_by non_integer_cell cells
integer_values (month_day_nano_interval_array cells) = cells_by non_integer_cell cells
integer_values (nested_array type cells) = cells_by non_integer_cell cells

-- The loop of sumIntegerArray; null cells are skipped.
unfoldable pub sum_values : ℤ → List (Option (Result ℤ)) → Result ℤ
unfolding checked_add
sum_values total [] = ok total
sum_values total (none ∷ cells) = sum_values total cells
sum_values total (some value ∷ cells) = do
  v ← value
  next ← checked_add column_overflow total v
  sum_values next cells

unfoldable pub sum_integer_array : ArrowArray → Result ℤ
unfolding integer_values sum_values
sum_integer_array values = sum_values (pos 0) (integer_values values)

-- strings.ToLower, on the code points of a name in ASCII; the rest of it never meets the three names.
abbrev lower : ℕ → ℕ
lower c = if leb b'A' c && leb c b'Z' then c + 32 else c

lower_codes : String → List ℕ
lower_codes String.[] = []
lower_codes (String.◌∷◌ c s) = lower (code c) ∷ lower_codes s

same_codes : List ℕ → List ℕ → Bool
same_codes [] [] = true
same_codes (a ∷ xs) (b ∷ ys) = a == b && same_codes xs ys
same_codes _ _ = false

-- isRowsAffectedColumn.
unfoldable pub is_rows_affected_column : String → Bool
unfolding lower_codes same_codes
is_rows_affected_column name =
    same_codes (lower_codes name) (lower_codes "count")
    || same_codes (lower_codes name) (lower_codes "rows_affected")
    || same_codes (lower_codes name) (lower_codes "rowsaffected")

-- rowsAffectedFromRecord: `none` where the batch is no count.
count_of_columns : List (String × ArrowArray) → Result (Option ℤ)
unfolding is_rows_affected_column sum_integer_array
count_of_columns ((name, values) ∷ []) =
    if is_rows_affected_column name then (do n ← sum_integer_array values; ok (some n)) else ok none
count_of_columns _ = ok none

unfoldable pub rows_affected_from_record : Batch → Result (Option ℤ)
unfolding count_of_columns
rows_affected_from_record rec = count_of_columns rec.columns
