-- ===== src/Params/Value.antt =====
-- The parameter types of parameters.go and internal/native/parameters.go.
use datafusion_go.Base.{
  ℕ, ◌+◌, ◌*◌, ◌/◌, ◌%◌, ◌-◌, String, str_eq, Bool, not, ◌||◌, Option, List, [], ◌∷◌, ltb, ◌==◌,
  if◌then◌else◌,
}
use datafusion_go.Base.Int.{ℤ, pos, negsuc, ltb_ℤ, ◌+ℤ◌}
use datafusion_go.Errors.{GoError, errorf, int_arg, Result, ok, err, ◌>>◌, fail_if}

-- An instant, with the offset and the name of its location. `nsec` is below 10^9.
pub record GoTime : Type 0 where
  pub sec : ℤ
  pub nsec : ℕ
  pub offset : ℤ
  pub location : Option String

pub data ParameterType : Type 0 where
  parameter_bool parameter_int64 parameter_uint64 parameter_float64 : ParameterType
  parameter_string parameter_binary parameter_date parameter_time : ParameterType
  parameter_timestamp parameter_duration parameter_decimal : ParameterType
  other_type : ℤ → ParameterType

pub record Date : Type 0 where
  pub days : ℤ

pub record Time : Type 0 where
  pub nanoseconds : ℤ

pub record Timestamp : Type 0 where
  pub t : GoTime
  pub time_zone : String

pub record Duration : Type 0 where
  pub nanoseconds : ℤ

-- `precision` is a uint8 and `scale` an int8.
pub record Decimal : Type 0 where
  pub value : String
  pub precision : ℕ
  pub scale : ℤ

pub record Null : Type 0 where
  pub type : ParameterType
  pub precision : ℕ
  pub scale : ℤ
  pub time_zone : String

-- ParameterType of internal/native.
pub data NativeType : Type 0 where
  native_bool native_int64 native_uint64 native_float64 native_string native_binary : NativeType
  native_date native_time native_timestamp native_duration native_decimal : NativeType

-- The parameter structs of internal/native.
pub data NativeParameter : Type 0 where
  uint64_parameter : ℕ → NativeParameter
  date_parameter : ℤ → NativeParameter
  time_parameter : ℤ → NativeParameter
  timestamp_parameter : ℤ → String → NativeParameter
  duration_parameter : ℤ → NativeParameter
  decimal_parameter : String → ℕ → ℤ → NativeParameter
  null_parameter : NativeType → ℕ → ℤ → String → NativeParameter

-- A Go value of type `any`. The first row are the types that database/sql passes on as they are;
-- `…_kind` is a value of another type of that kind. A float64 is its bits.
pub data GoValue : Type 0 where
  go_nil : GoValue
  go_bool : Bool → GoValue
  go_int64 : ℤ → GoValue
  go_float64 : ℕ → GoValue
  go_string : String → GoValue
  go_bytes : List ℕ → GoValue
  go_time : GoTime → GoValue
  go_uint go_uint8 go_uint16 go_uint32 go_uint64 : ℕ → GoValue
  go_duration : ℤ → GoValue
  int_kind : ℤ → GoValue
  uint_kind uint64_kind : ℕ → GoValue
  float_kind : ℕ → GoValue
  bool_kind : Bool → GoValue
  string_kind : String → GoValue
  bytes_kind : List ℕ → GoValue
  nil_pointer : GoValue
  pointer : GoValue → GoValue
  valuer_value : GoValue → GoValue
  valuer_error : GoError → GoValue
  decomposer : String → GoValue
  other : String → GoValue
  uint64_value : ℕ → GoValue
  date_value : Date → GoValue
  time_value : Time → GoValue
  timestamp_value : Timestamp → GoValue
  duration_value : Duration → GoValue
  decimal_value : Decimal → GoValue
  null_value : Null → GoValue
  native_value : NativeParameter → GoValue

abbrev pub nanos_per_day : ℕ
nanos_per_day = 86400000000000

abbrev pub seconds_per_day : ℕ
seconds_per_day = 86400

-- The value as an int32.
abbrev pub wrap32 : ℤ → ℤ
wrap32 (pos n) =
    let w = n % 4294967296 in if ltb w 2147483648 then pos w else negsuc (4294967295 - w)
wrap32 (negsuc n) =
    let w = n % 4294967296 in if ltb w 2147483648 then negsuc w else pos (4294967295 - w)

-- Division that rounds down, as a calendar does, and its remainder.
abbrev pub floor_div : ℤ → ℕ → ℤ
floor_div (pos n) k = pos (n / k)
floor_div (negsuc n) k = negsuc (n / k)

abbrev pub floor_mod : ℤ → ℕ → ℕ
floor_mod (pos n) k = n % k
floor_mod (negsuc n) k = k - 1 - n % k

-- DateFromTime. The calendar date of the instant in its location is a count of days; its midnight
-- in UTC is a multiple of a day, so the quotient is that count.
unfoldable pub date_from_time : GoTime → Date
date_from_time t = record { days = wrap32 (floor_div (t.sec +ℤ t.offset) seconds_per_day) }

-- TimeFromTime, from the hour, minute and second of the clock.
unfoldable pub time_from_time : GoTime → Time
time_from_time t =
    let s = floor_mod (t.sec +ℤ t.offset) seconds_per_day in
    let hour = s / 3600 in
    let minute = s % 3600 / 60 in
    let second = s % 60 in
    record {
      nanoseconds =
          pos (hour * 3600000000000 + minute * 60000000000 + second * 1000000000 + t.nsec);
    }

-- TimeNanos, which checks nothing.
unfoldable pub time_nanos : ℤ → Time
time_nanos n = record { nanoseconds = n }

unfoldable pub time_out_of_range : ℤ → Bool
time_out_of_range n = ltb_ℤ n (pos 0) || not (ltb_ℤ n (pos nanos_per_day))

abbrev pub time_range_error : ℤ → GoError
time_range_error n =
    errorf "datafusion time parameter nanoseconds must be in [0,%d), got %d"
      (int_arg (pos nanos_per_day) ∷ int_arg n ∷ [])

-- NewTimeNanos.
unfoldable pub new_time_nanos : ℤ → Result Time
unfolding time_out_of_range
new_time_nanos n =
    fail_if (time_out_of_range n) (time_range_error n) >> ok (record { nanoseconds = n })

-- TimestampFromTime and TimestampWithTimeZone.
unfoldable pub timestamp_from_time : GoTime → Timestamp
timestamp_from_time t = record { t = t; time_zone = "UTC" }

unfoldable pub timestamp_with_time_zone : GoTime → String → Timestamp
timestamp_with_time_zone t zone = record { t = t; time_zone = zone }

abbrev pub or_utc : String → String
or_utc zone = if str_eq zone "" then "UTC" else zone

-- Timestamp.TimeZone.
unfoldable pub timestamp_zone : Timestamp → String
timestamp_zone v = or_utc v.time_zone

-- validateDecimalType; int8(precision) is exact, since the precision is 38 at most by then.
unfoldable pub validate_decimal_type : ℕ → ℤ → Result (Unit {0})
validate_decimal_type precision scale = do
  fail_if (precision == 0 || ltb 38 precision)
      (errorf "decimal precision must be in [1,38], got %d" (int_arg (pos precision) ∷ []))
  fail_if (ltb_ℤ scale (pos 0) || ltb_ℤ (pos precision) scale) (
      errorf "decimal scale must be in [0,%d], got %d"
        (int_arg (pos precision) ∷ int_arg scale ∷ []))

-- DecimalString and NewDecimalString.
unfoldable pub decimal_string : String → ℕ → ℤ → Decimal
decimal_string value precision scale = record {
  value = value;
  precision = precision;
  scale = scale;
}

unfoldable pub new_decimal_string : String → ℕ → ℤ → Result Decimal
unfolding validate_decimal_type
new_decimal_string value precision scale = do
  validate_decimal_type precision scale
  fail_if (str_eq value "") (errorf "decimal value is empty" [])
  ok (record { value = value; precision = precision; scale = scale })

-- NullOf, NullDecimal and NullTimestamp.
unfoldable pub null_of : ParameterType → Null
null_of type = record { type = type; precision = 0; scale = pos 0; time_zone = "UTC" }

unfoldable pub null_decimal : ℕ → ℤ → Null
null_decimal precision scale = record {
  type = parameter_decimal;
  precision = precision;
  scale = scale;
  time_zone = "";
}

unfoldable pub null_timestamp : String → Null
null_timestamp zone = record {
  type = parameter_timestamp;
  precision = 0;
  scale = pos 0;
  time_zone = zone;
}

-- The numbers of the constants of parameters.go, and of those of internal/native.
unfoldable pub type_code : ParameterType → ℤ
type_code parameter_bool = pos 1
type_code parameter_int64 = pos 2
type_code parameter_uint64 = pos 3
type_code parameter_float64 = pos 4
type_code parameter_string = pos 5
type_code parameter_binary = pos 6
type_code parameter_date = pos 7
type_code parameter_time = pos 8
type_code parameter_timestamp = pos 9
type_code parameter_duration = pos 10
type_code parameter_decimal = pos 11
type_code (other_type n) = n

unfoldable pub native_code : NativeType → ℤ
native_code native_bool = pos 1
native_code native_int64 = pos 2
native_code native_uint64 = pos 3
native_code native_float64 = pos 4
native_code native_string = pos 5
native_code native_binary = pos 6
native_code native_date = pos 7
native_code native_time = pos 8
native_code native_timestamp = pos 9
native_code native_duration = pos 10
native_code native_decimal = pos 11

-- nativeParameterType.
unfoldable pub native_parameter_type : ParameterType → Result NativeType
native_parameter_type parameter_bool = ok native_bool
native_parameter_type parameter_int64 = ok native_int64
native_parameter_type parameter_uint64 = ok native_uint64
native_parameter_type parameter_float64 = ok native_float64
native_parameter_type parameter_string = ok native_string
native_parameter_type parameter_binary = ok native_binary
native_parameter_type parameter_date = ok native_date
native_parameter_type parameter_time = ok native_time
native_parameter_type parameter_timestamp = ok native_timestamp
native_parameter_type parameter_duration = ok native_duration
native_parameter_type parameter_decimal = ok native_decimal
native_parameter_type (other_type n) = err (errorf "unsupported parameter type %d" (int_arg n ∷ []))
