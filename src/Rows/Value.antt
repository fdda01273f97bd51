-- ===== src/Rows/Value.antt =====
-- arrowValue and durationNanos of rows.go: an Arrow cell as a database/sql value.
use datafusion_go.Base.{
  ℕ, suc, ◌/◌, ◌-◌, ◌==◌, String, Bool, not, ◌&&◌, Option, none, some, List, [], ◌∷◌, ltb,
  get_elem?, if◌then◌else◌,
}
use datafusion_go.Base.Int.{ℤ, pos, negsuc, ◌*ℤ◌, ltb_ℤ, wrap64, max_int64, min_int64}
use datafusion_go.Errors.{
  GoError, errorf, panicked, FmtArg, int_arg, Result, ok, err, ◌>>=◌, ◌>>◌, fail_if,
}
use datafusion_go.Params.Value.{GoTime}
use datafusion_go.Arrow.{
  TimeUnit, ArrowArray, null_array, boolean_array, int8_array, int16_array, int32_array,
  int64_array, uint8_array, uint16_array, uint32_array, uint64_array, float16_array, float32_array,
  float64_array, string_array, large_string_array, string_view_array, binary_array,
  large_binary_array, binary_view_array, fixed_size_binary_array, date32_array, date64_array,
  time32_array, time64_array, duration_array, timestamp_array, decimal32_array, decimal64_array,
  decimal128_array, decimal256_array, month_interval_array, day_time_interval_array,
  month_day_nano_interval_array, nested_array,
}

-- driver.Value. A float64 is its bits; `sql_format` is a string that fmt.Sprintf makes.
pub data SqlValue : Type 0 where
  sql_nil : SqlValue
  sql_bool : Bool → SqlValue
  sql_int64 : ℤ → SqlValue
  sql_float64 : ℕ → SqlValue
  sql_string : String → SqlValue
  sql_format : String → List FmtArg → SqlValue
  sql_bytes : List ℕ → SqlValue
  sql_time : GoTime → SqlValue

-- The conversions that the Arrow library makes.
pub record Conversions : Type 0 where
  pub of_float16 : ℕ → ℕ
  pub of_float32 : ℕ → ℕ
  pub of_date32 : ℤ → GoTime
  pub of_date64 : ℤ → GoTime
  pub of_time32 : TimeUnit → ℤ → GoTime
  pub of_time64 : TimeUnit → ℤ → GoTime
  pub to_time_func : TimeUnit → String → Result (ℤ → GoTime)
  pub multiplier : TimeUnit → ℤ
  pub decimal_text : ℤ → ℤ → String

-- Go's division of int64 values, towards 0, by a positive one.
abbrev pub quotient : ℤ → ℤ → ℤ
quotient (pos n) (pos m) = pos (n / m)
quotient (negsuc n) (pos m) = let q = suc n / m in if q == 0 then pos 0 else negsuc (q - 1)
quotient n (negsuc m) = pos 0

abbrev pub duration_overflow : ℤ → GoError
duration_overflow value =
    errorf "duration value %d overflows int64 nanoseconds" (int_arg value ∷ [])

-- durationNanos.
unfoldable pub duration_nanos : ℤ → ℤ → Result ℤ
duration_nanos value multiplier = do
  fail_if (not (ltb_ℤ (pos 0) multiplier))
      (errorf "duration unit multiplier must be positive, got %d" (int_arg multiplier ∷ []))
  fail_if (ltb_ℤ (pos 0) value && ltb_ℤ (quotient max_int64 multiplier) value)
      (duration_overflow value)
  fail_if (ltb_ℤ value (pos 0) && ltb_ℤ value (quotient min_int64 multiplier))
      (duration_overflow value)
  ok (wrap64 (value *ℤ multiplier))

-- A null cell is nil, and a row behind the last is a panic of the library.
abbrev pub at_row {ℓ} : {A : Type ℓ} → List (Option A) → ℕ → (A → Result SqlValue) → Result SqlValue
at_row cells row f = elim (get_elem? cells row) [
  | none ↦ err panicked
  | some none ↦ ok sql_nil
  | some (some a) ↦ f a
]

unfoldable pub of_uint64 : ℕ → Result SqlValue
of_uint64 n =
    if ltb 9223372036854775807 n
    then err (errorf "uint64 value %d exceeds int64 range" (int_arg (pos n) ∷ []))
    else ok (sql_int64 (pos n))

-- arrowValue. strings.Clone and copyBytes copy, which values do not show.
unfoldable pub arrow_value : Conversions → ArrowArray → ℕ → Result SqlValue
unfolding duration_nanos of_uint64
arrow_value c (null_array n) row = ok sql_nil
arrow_value c (boolean_array cells) row = at_row cells row λ b. ok (sql_bool b)
arrow_value c (int8_array cells) row = at_row cells row λ n. ok (sql_int64 n)
arrow_value c (int16_array cells) row = at_row cells row λ n. ok (sql_int64 n)
arrow_value c (int32_array cells) row = at_row cells row λ n. ok (sql_int64 n)
arrow_value c (int64_array cells) row = at_row cells row λ n. ok (sql_int64 n)
arrow_value c (uint8_array cells) row = at_row cells row λ n. ok (sql_int64 (pos n))
arrow_value c (uint16_array cells) row = at_row cells row λ n. ok (sql_int64 (pos n))
arrow_value c (uint32_array cells) row = at_row cells row λ n. ok (sql_int64 (pos n))
arrow_value c (uint64_array cells) row = at_row cells row of_uint64
arrow_value c (float16_array cells) row = at_row cells row λ b. ok (sql_float64 (c.of_float16 b))
arrow_value c (float32_array cells) row = at_row cells row λ b. ok (sql_float64 (c.of_float32 b))
arrow_value c (float64_array cells) row = at_row cells row λ b. ok (sql_float64 b)
arrow_value c (string_array cells) row = at_row cells row λ s. ok (sql_string s)
arrow_value c (large_string_array cells) row = at_row cells row λ s. ok (sql_string s)
arrow_value c (string_view_array cells) row = at_row cells row λ s. ok (sql_string s)
arrow_value c (binary_array cells) row = at_row cells row λ b. ok (sql_bytes b)
arrow_value c (large_binary_array cells) row = at_row cells row λ b. ok (sql_bytes b)
arrow_value c (fixed_size_binary_array w cells) row = at_row cells row λ b. ok (sql_bytes b)
arrow_value c (binary_view_array cells) row = at_row cells row λ b. ok (sql_bytes b)
arrow_value c (date32_array cells) row = at_row cells row λ d. ok (sql_time (c.of_date32 d))
arrow_value c (date64_array cells) row = at_row cells row λ d. ok (sql_time (c.of_date64 d))
arrow_value c (time32_array unit cells) row =
    at_row cells row λ n. ok (sql_time (c.of_time32 unit n))
arrow_value c (time64_array unit cells) row =
    at_row cells row λ n. ok (sql_time (c.of_time64 unit n))
arrow_value c (timestamp_array unit zone cells) row =
    at_row cells row λ n. do to_time ← c.to_time_func unit zone; ok (sql_time (to_time n))
arrow_value c (duration_array unit cells) row =
    at_row cells row λ n. do nanos ← duration_nanos n (c.multiplier unit); ok (sql_int64 nanos)
arrow_value c (decimal32_array p s cells) row =
    at_row cells row λ n. ok (sql_string (c.decimal_text n s))
arrow_value c (decimal64_array p s cells) row =
    at_row cells row λ n. ok (sql_string (c.decimal_text n s))
arrow_value c (decimal128_array p s cells) row =
    at_row cells row λ n. ok (sql_string (c.decimal_text n s))
arrow_value c (decimal256_array p s cells) row =
    at_row cells row λ n. ok (sql_string (c.decimal_text n s))
arrow_value c (month_interval_array cells) row =
    at_row cells row λ n. ok (sql_format "%d months" (int_arg n ∷ []))
arrow_value c (day_time_interval_array cells) row =
    at_row cells row λ v. ok (sql_format "%d days %d milliseconds" (int_arg v.0 ∷ int_arg v.1 ∷ []))
arrow_value c (month_day_nano_interval_array cells) row = at_row cells row λ v.
    ok
      (sql_format "%d months %d days %d nanoseconds" (int_arg v.0 ∷ int_arg v.1 ∷ int_arg v.2 ∷ []))
arrow_value c (nested_array type cells) row =
    at_row cells row λ _. err (errorf "unsupported Arrow type %s" [])
