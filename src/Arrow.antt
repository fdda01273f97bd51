-- ===== src/Arrow.antt =====
-- The part of the Arrow data model that the Go code reads: data types, arrays and record batches of
-- github.com/apache/arrow-go, by what rows.go, result.go and native.go ask of them.
use datafusion_go.Base.{ℕ, String, Bool, Option, List}
use datafusion_go.Base.Int.{ℤ}

pub data TimeUnit : Type 0 where
  second millisecond microsecond nanosecond : TimeUnit

mutual
  pub data ArrowType : Type 0 where
    null bool int8 int16 int32 int64 uint8 uint16 uint32 uint64 : ArrowType
    float16 float32 float64 : ArrowType
    string large_string string_view binary large_binary binary_view : ArrowType
    fixed_size_binary : ℕ → ArrowType
    date32 date64 : ArrowType
    time32 time64 duration : TimeUnit → ArrowType
    timestamp : TimeUnit → String → ArrowType
    decimal32 decimal64 decimal128 decimal256 : ℕ → ℤ → ArrowType
    interval_months interval_day_time interval_month_day_nano : ArrowType
    list large_list list_view large_list_view : ArrowType → ArrowType
    fixed_size_list : ℕ → ArrowType → ArrowType
    struct : Fields → ArrowType
    map_of : Fields → ArrowType
    sparse_union dense_union : Fields → ArrowType
    dictionary : ArrowType → ArrowType → ArrowType
    extension : ArrowType → ArrowType
    run_end_encoded : ArrowType → ArrowType → ArrowType

  -- Fields with their names and whether they are nullable.
  pub data Fields : Type 0 where
    no_field : Fields
    field : String → ArrowType → Bool → Fields → Fields

-- An array, by its Go type. A cell that is null is `none`. A float is its bits, and a decimal its
-- unscaled value. `nested_array` is one of the types that database/sql has no value for.
pub data ArrowArray : Type 0 where
  null_array : ℕ → ArrowArray
  boolean_array : List (Option Bool) → ArrowArray
  int8_array int16_array int32_array int64_array : List (Option ℤ) → ArrowArray
  uint8_array uint16_array uint32_array uint64_array : List (Option ℕ) → ArrowArray
  float16_array float32_array float64_array : List (Option ℕ) → ArrowArray
  string_array large_string_array string_view_array : List (Option String) → ArrowArray
  binary_array large_binary_array binary_view_array : List (Option (List ℕ)) → ArrowArray
  fixed_size_binary_array : ℕ → List (Option (List ℕ)) → ArrowArray
  date32_array date64_array : List (Option ℤ) → ArrowArray
  time32_array time64_array duration_array : TimeUnit → List (Option ℤ) → ArrowArray
  timestamp_array : TimeUnit → String → List (Option ℤ) → ArrowArray
  decimal32_array decimal64_array decimal128_array decimal256_array :
      ℕ → ℤ → List (Option ℤ) → ArrowArray
  month_interval_array : List (Option ℤ) → ArrowArray
  day_time_interval_array : List (Option (ℤ × ℤ)) → ArrowArray
  month_day_nano_interval_array : List (Option (ℤ × ℤ × ℤ)) → ArrowArray
  nested_array : ArrowType → List (Option (Unit {0})) → ArrowArray

-- A record batch: named columns of one length.
pub record Batch : Type 0 where
  pub columns : List (String × ArrowArray)
  pub num_rows : ℕ

pub record Field : Type 0 where
  pub name : String
  pub type : ArrowType
  pub nullable : Bool
