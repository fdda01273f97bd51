-- ===== src/Rows/Agree.antt =====
-- The `switch`es of rows.go agree: the types that are checked are the ones with a value, and a value is
-- of the type that is announced for its column.
use datafusion_go.Base.{
  ℕ, zero, suc, ◌≡◌, Bool, true, false, Option, none, some, List, [], ◌∷◌, ltb, arith,
  if◌then◌else◌,
}
use datafusion_go.Base.Int.{pos}
use datafusion_go.Errors.{errorf, int_arg, Result, ok, err, ◌>>=◌}
use datafusion_go.Arrow.{
  ArrowType, null, bool, int8, int16, int32, int64, uint8, uint16, uint32, uint64, float16, float32,
  float64, string, large_string, string_view, binary, large_binary, binary_view, fixed_size_binary,
  date32, date64, time32, time64, duration, timestamp, decimal32, decimal64, decimal128, decimal256,
  interval_months, interval_day_time, interval_month_day_nano, ArrowArray, null_array,
  boolean_array, int8_array, int16_array, int32_array, int64_array, uint8_array, uint16_array,
  uint32_array, uint64_array, float16_array, float32_array, float64_array, string_array,
  large_string_array, string_view_array, binary_array, large_binary_array, binary_view_array,
  fixed_size_binary_array, date32_array, date64_array, time32_array, time64_array, duration_array,
  timestamp_array, decimal32_array, decimal64_array, decimal128_array, decimal256_array,
  month_interval_array, day_time_interval_array, month_day_nano_interval_array, nested_array,
}
use datafusion_go.Rows.Types.{
  is_database_sql_type, ScanType, scan_any, scan_bool, scan_int64, scan_float64, scan_time,
  scan_string, scan_bytes, scan_null_bool, scan_null_int64, scan_null_float64, scan_null_time,
  scan_null_string, scan_type,
}
use datafusion_go.Rows.Value.{
  SqlValue, sql_nil, sql_bool, sql_int64, sql_float64, sql_string, sql_format, sql_bytes, sql_time,
  Conversions, arrow_value, at_row, duration_nanos, of_uint64,
}

-- The data type of an array.
unfoldable pub type_of : ArrowArray → ArrowType
type_of (null_array n) = null
type_of (boolean_array cells) = bool
type_of (int8_array cells) = int8
type_of (int16_array cells) = int16
type_of (int32_array cells) = int32
type_of (int64_array cells) = int64
type_of (uint8_array cells) = uint8
type_of (uint16_array cells) = uint16
type_of (uint32_array cells) = uint32
type_of (uint64_array cells) = uint64
type_of (float16_array cells) = float16
type_of (float32_array cells) = float32
type_of (float64_array cells) = float64
type_of (string_array cells) = string
type_of (large_string_array cells) = large_string
type_of (string_view_array cells) = string_view
type_of (binary_array cells) = binary
type_of (large_binary_array cells) = large_binary
type_of (binary_view_array cells) = binary_view
type_of (fixed_size_binary_array w cells) = fixed_size_binary w
type_of (date32_array cells) = date32
type_of (date64_array cells) = date64
type_of (time32_array u cells) = time32 u
type_of (time64_array u cells) = time64 u
type_of (duration_array u cells) = duration u
type_of (timestamp_array u z cells) = timestamp u z
type_of (decimal32_array p s cells) = decimal32 p s
type_of (decimal64_array p s cells) = decimal64 p s
type_of (decimal128_array p s cells) = decimal128 p s
type_of (decimal256_array p s cells) = decimal256 p s
type_of (month_interval_array cells) = interval_months
type_of (day_time_interval_array cells) = interval_day_time
type_of (month_day_nano_interval_array cells) = interval_month_day_nano
type_of (nested_array type cells) = type

-- Whether database/sql can hold a value as one of a Go type, by the kind that is announced: any type
-- takes a null except the plain ones, which stand for columns that have none, and bytes, whose nil is
-- one.
pub fits : ScanType → SqlValue → Bool
fits scan_any v = true
fits _ sql_nil = true
fits scan_bool (sql_bool b) = true
fits scan_null_bool (sql_bool b) = true
fits scan_int64 (sql_int64 n) = true
fits scan_null_int64 (sql_int64 n) = true
fits scan_float64 (sql_float64 b) = true
fits scan_null_float64 (sql_float64 b) = true
fits scan_time (sql_time t) = true
fits scan_null_time (sql_time t) = true
fits scan_string (sql_string s) = true
fits scan_null_string (sql_string s) = true
fits scan_string (sql_format s args) = true
fits scan_null_string (sql_format s args) = true
fits scan_bytes (sql_bytes b) = true
fits _ _ = false

pub Fits : ScanType → Result SqlValue → Type 0
Fits s (ok v) = fits s v ≡ true
Fits s (err e) = Unit

fits-sql_nil : (s : ScanType) → fits s sql_nil ≡ true
unfolding fits
fits-sql_nil s = ground arith

-- A cell of a column fits if each value of its Go type does.
at_row-Fits {ℓ} :
    {A : Type ℓ} (s : ScanType) (cells : List (Option A)) (row : ℕ) (f : A → Result SqlValue)
    → ((a : A) → Fits s (f a))
    → Fits s (at_row cells row f)
unfolding Fits
at_row-Fits s [] row f h = tt
at_row-Fits s (none ∷ cells) zero f h = fits-sql_nil s
at_row-Fits s (some a ∷ cells) zero f h = h a
at_row-Fits s (c ∷ cells) (suc row) f h = at_row-Fits s cells row f h

of_uint64-Fits : (s : ScanType) (n : ℕ) → fits s (sql_int64 (pos n)) ≡ true → Fits s (of_uint64 n)
unfolding Fits of_uint64
of_uint64-Fits s n h =
    elim (ltb 9223372036854775807 n)
      as (λ b. Fits s (
        if b
        then err (errorf "uint64 value %d exceeds int64 range" (int_arg (pos n) ∷ []))
        else ok (sql_int64 (pos n)))) [ true ↦ tt | false ↦ h ]

-- A value that an error may stand for.
bind-Fits {ℓ} :
    {A : Type ℓ} (s : ScanType) (r : Result A) (f : A → SqlValue)
    → ((a : A) → fits s (f a) ≡ true)
    → Fits s (r >>= λ a. ok (f a))
unfolding Fits
bind-Fits s (ok a) f h = h a
bind-Fits s (err e) f h = tt

-- A row of a column whose type checkDatabaseSQLType accepts reads as null, as a value of the type that
-- scanType announces for the column, or as an error: never as a value of another type.
pub arrow_value-Fits :
    (c : Conversions) (a : ArrowArray) (row : ℕ) (nullable : Bool)
    → is_database_sql_type (type_of a) ≡ true
    → Fits (scan_type (type_of a) nullable) (arrow_value c a row)
unfolding arrow_value scan_type Fits fits type_of is_database_sql_type of_uint64
arrow_value-Fits c (null_array n) row nullable h = fits-sql_nil (scan_type null nullable)
arrow_value-Fits c (boolean_array cells) row nullable h =
    at_row-Fits (scan_type bool nullable) cells row _ λ _. ground arith
arrow_value-Fits c (int8_array cells) row nullable h =
    at_row-Fits (scan_type int8 nullable) cells row _ λ _. ground arith
arrow_value-Fits c (int16_array cells) row nullable h =
    at_row-Fits (scan_type int16 nullable) cells row _ λ _. ground arith
arrow_value-Fits c (int32_array cells) row nullable h =
    at_row-Fits (scan_type int32 nullable) cells row _ λ _. ground arith
arrow_value-Fits c (int64_array cells) row nullable h =
    at_row-Fits (scan_type int64 nullable) cells row _ λ _. ground arith
arrow_value-Fits c (uint8_array cells) row nullable h =
    at_row-Fits (scan_type uint8 nullable) cells row _ λ _. ground arith
arrow_value-Fits c (uint16_array cells) row nullable h =
    at_row-Fits (scan_type uint16 nullable) cells row _ λ _. ground arith
arrow_value-Fits c (uint32_array cells) row nullable h =
    at_row-Fits (scan_type uint32 nullable) cells row _ λ _. ground arith
arrow_value-Fits c (uint64_array cells) row nullable h =
    at_row-Fits (scan_type uint64 nullable) cells row _ λ n. of_uint64-Fits _ n (ground arith)
arrow_value-Fits c (float16_array cells) row nullable h =
    at_row-Fits (scan_type float16 nullable) cells row _ λ _. ground arith
arrow_value-Fits c (float32_array cells) row nullable h =
    at_row-Fits (scan_type float32 nullable) cells row _ λ _. ground arith
arrow_value-Fits c (float64_array cells) row nullable h =
    at_row-Fits (scan_type float64 nullable) cells row _ λ _. ground arith
arrow_value-Fits c (string_array cells) row nullable h =
    at_row-Fits (scan_type string nullable) cells row _ λ _. ground arith
arrow_value-Fits c (large_string_array cells) row nullable h =
    at_row-Fits (scan_type large_string nullable) cells row _ λ _. ground arith
arrow_value-Fits c (string_view_array cells) row nullable h =
    at_row-Fits (scan_type string_view nullable) cells row _ λ _. ground arith
arrow_value-Fits c (binary_array cells) row nullable h =
    at_row-Fits (scan_type binary nullable) cells row _ λ _. ground arith
arrow_value-Fits c (large_binary_array cells) row nullable h =
    at_row-Fits (scan_type large_binary nullable) cells row _ λ _. ground arith
arrow_value-Fits c (binary_view_array cells) row nullable h =
    at_row-Fits (scan_type binary_view nullable) cells row _ λ _. ground arith
arrow_value-Fits c (fixed_size_binary_array w cells) row nullable h =
    at_row-Fits (scan_type (fixed_size_binary w) nullable) cells row _ λ _. ground arith
arrow_value-Fits c (date32_array cells) row nullable h =
    at_row-Fits (scan_type date32 nullable) cells row _ λ _. ground arith
arrow_value-Fits c (date64_array cells) row nullable h =
    at_row-Fits (scan_type date64 nullable) cells row _ λ _. ground arith
arrow_value-Fits c (time32_array u cells) row nullable h =
    at_row-Fits (scan_type (time32 u) nullable) cells row _ λ _. ground arith
arrow_value-Fits c (time64_array u cells) row nullable h =
    at_row-Fits (scan_type (time64 u) nullable) cells row _ λ _. ground arith
arrow_value-Fits c (duration_array u cells) row nullable h =
    at_row-Fits (scan_type (duration u) nullable) cells row _
      λ n. bind-Fits _ (duration_nanos n (c.multiplier u)) _ λ _. ground arith
arrow_value-Fits c (timestamp_array u z cells) row nullable h =
    at_row-Fits (scan_type (timestamp u z) nullable) cells row _
      λ n. bind-Fits _ (c.to_time_func u z) _ λ _. ground arith
arrow_value-Fits c (decimal32_array p s cells) row nullable h =
    at_row-Fits (scan_type (decimal32 p s) nullable) cells row _ λ _. ground arith
arrow_value-Fits c (decimal64_array p s cells) row nullable h =
    at_row-Fits (scan_type (decimal64 p s) nullable) cells row _ λ _. ground arith
arrow_value-Fits c (decimal128_array p s cells) row nullable h =
    at_row-Fits (scan_type (decimal128 p s) nullable) cells row _ λ _. ground arith
arrow_value-Fits c (decimal256_array p s cells) row nullable h =
    at_row-Fits (scan_type (decimal256 p s) nullable) cells row _ λ _. ground arith
arrow_value-Fits c (month_interval_array cells) row nullable h =
    at_row-Fits (scan_type interval_months nullable) cells row _ λ _. ground arith
arrow_value-Fits c (day_time_interval_array cells) row nullable h =
    at_row-Fits (scan_type interval_day_time nullable) cells row _ λ _. ground arith
arrow_value-Fits c (month_day_nano_interval_array cells) row nullable h =
    at_row-Fits (scan_type interval_month_day_nano nullable) cells row _ λ _. ground arith
arrow_value-Fits c (nested_array type cells) row nullable h = at_row-Fits _ cells row _ λ _. tt
