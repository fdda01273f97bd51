-- ===== src/Params/Normalize.antt =====
-- normalizeParameterValue, normalizeNamedValueSlice and checkNamedValue of parameters.go, namedValues
-- of arrow.go and positionalNamedValues of execution.go, with Go's DefaultParameterConverter.
use Prim.Native.Char.{code}
use datafusion_go.Base.{
  ℕ, String, str_eq, Bool, true, false, not, ◌&&◌, ◌||◌, Option, none, some, [], ◌∷◌, leb, ◌==◌,
  if◌then◌else◌,
}
use datafusion_go.Base.Int.{ℤ, pos, wrap64}
use datafusion_go.Errors.{GoError, errorf, str_arg, Result, ok, err, ◌>>=◌, ◌>>◌, fail_if}
use datafusion_go.Params.Value.{
  GoTime, ParameterType, parameter_decimal, parameter_timestamp, Null, NativeParameter,
  uint64_parameter, date_parameter, time_parameter, timestamp_parameter, duration_parameter,
  decimal_parameter, null_parameter, GoValue, go_nil, go_bool, go_int64, go_float64, go_string,
  go_bytes, go_time, go_uint, go_uint8, go_uint16, go_uint32, go_uint64, go_duration, int_kind,
  uint_kind, uint64_kind, float_kind, bool_kind, string_kind, bytes_kind, nil_pointer, pointer,
  valuer_value, valuer_error, decomposer, other, uint64_value, date_value, time_value,
  timestamp_value, duration_value, decimal_value, null_value, native_value, time_out_of_range,
  time_range_error, or_utc, timestamp_zone, validate_decimal_type, native_parameter_type,
}

-- What the code calls outside the repository: arrow.TimestampFromTime at nanoseconds, and whether
-- time.LoadLocation finds a name in the time zone database of the machine.
pub record Clock : Type 0 where
  pub timestamp_nanos : GoTime → Result ℤ
  pub has_location : String → Bool

-- unicode.IsSpace.
unfoldable pub is_space : ℕ → Bool
is_space c =
    (leb 9 c && leb c 13)
    || c == 32
    || c == 0x85
    || c == 0xa0
    || c == 0x1680
    || (leb 0x2000 c && leb c 0x200a)
    || c == 0x2028
    || c == 0x2029
    || c == 0x202f
    || c == 0x205f
    || c == 0x3000

-- strings.TrimSpace(s) == "".
unfoldable pub is_blank : String → Bool
unfolding is_space
is_blank String.[] = true
is_blank (String.◌∷◌ c s) = is_space (code c) && is_blank s

high_bit_error : GoError
high_bit_error = errorf "uint64 values with high bit set are not supported" []

non_value_error : GoError
non_value_error = errorf "non-Value type %T returned from Value" []

unsupported_kind : String → GoError
unsupported_kind name = errorf "unsupported type %T, a %s" (str_arg name ∷ [])

of_uint64 : ℕ → Result GoValue
of_uint64 n = if leb 9223372036854775808 n then err high_bit_error else ok (go_int64 (pos n))

-- driver.IsValue.
is_value : GoValue → Bool
is_value go_nil = true
is_value (go_bool b) = true
is_value (go_int64 n) = true
is_value (go_float64 b) = true
is_value (go_string s) = true
is_value (go_bytes b) = true
is_value (go_time t) = true
is_value (decomposer name) = true
is_value _ = false

-- driver.DefaultParameterConverter.ConvertValue. A struct has no conversion.
unfoldable pub convert_value : GoValue → Result GoValue
unfolding of_uint64 is_value high_bit_error non_value_error unsupported_kind
convert_value go_nil = ok go_nil
convert_value (go_bool b) = ok (go_bool b)
convert_value (go_int64 n) = ok (go_int64 n)
convert_value (go_float64 b) = ok (go_float64 b)
convert_value (go_string s) = ok (go_string s)
convert_value (go_bytes b) = ok (go_bytes b)
convert_value (go_time t) = ok (go_time t)
convert_value (decomposer name) = ok (decomposer name)
convert_value (valuer_value v) = fail_if (not (is_value v)) non_value_error >> ok v
convert_value (valuer_error e) = err e
convert_value nil_pointer = ok go_nil
convert_value (pointer v) = convert_value v
convert_value (int_kind n) = ok (go_int64 n)
convert_value (go_duration n) = ok (go_int64 n)
convert_value (uint_kind n) = ok (go_int64 (wrap64 (pos n)))
convert_value (go_uint n) = ok (go_int64 (wrap64 (pos n)))
convert_value (go_uint8 n) = ok (go_int64 (wrap64 (pos n)))
convert_value (go_uint16 n) = ok (go_int64 (wrap64 (pos n)))
convert_value (go_uint32 n) = ok (go_int64 (wrap64 (pos n)))
convert_value (uint64_kind n) = of_uint64 n
convert_value (go_uint64 n) = of_uint64 n
convert_value (uint64_value n) = of_uint64 n
convert_value (float_kind b) = ok (go_float64 b)
convert_value (bool_kind b) = ok (go_bool b)
convert_value (string_kind s) = ok (go_string s)
convert_value (bytes_kind b) = ok (go_bytes b)
convert_value (other name) = err (unsupported_kind name)
convert_value (date_value d) = err (unsupported_kind "datafusion.Date")
convert_value (time_value v) = err (unsupported_kind "datafusion.Time")
convert_value (timestamp_value v) = err (unsupported_kind "datafusion.Timestamp")
convert_value (duration_value v) = err (unsupported_kind "datafusion.Duration")
convert_value (decimal_value v) = err (unsupported_kind "datafusion.Decimal")
convert_value (null_value v) = err (unsupported_kind "datafusion.Null")
convert_value (native_value p) = err (unsupported_kind "native parameter")

-- timeZoneFromLocation.
unfoldable pub time_zone_from_location : Clock → Option String → String
time_zone_from_location c none = "UTC"
time_zone_from_location c (some name) =
    if str_eq name "" || str_eq name "Local"
    then "UTC"
    else if str_eq name "UTC"
    then name
    else if c.has_location name
    then name
    else "UTC"

-- timestampNanos and timestampParameter.
unfoldable pub timestamp_parameter_of : Clock → GoTime → String → Result NativeParameter
timestamp_parameter_of c t zone = do
  nanos ← c.timestamp_nanos t
  ok (timestamp_parameter nanos (or_utc zone))

abbrev is_decimal : ParameterType → Bool
is_decimal parameter_decimal = true
is_decimal _ = false

abbrev is_timestamp : ParameterType → Bool
is_timestamp parameter_timestamp = true
is_timestamp _ = false

unfoldable pub check_null_decimal : Null → Result (Unit {0})
unfolding validate_decimal_type
check_null_decimal v =
    if is_decimal v.type
    then (do
      fail_if (v.precision == 0) (
          errorf
            "datafusion NullOf(ParameterDecimal) has no decimal precision or scale; use NullDecimal(precision, scale)"
            [])
      validate_decimal_type v.precision v.scale)
    else ok tt

-- The case of a typed null.
unfoldable pub normalize_null : Null → Result NativeParameter
unfolding check_null_decimal native_parameter_type
normalize_null v = do
  type ← native_parameter_type v.type
  check_null_decimal v
  ok (
      null_parameter type v.precision v.scale
        (if is_timestamp v.type then or_utc v.time_zone else v.time_zone))

-- The last `switch`, on what the converter returned.
unfoldable pub accept_converted : Clock → GoValue → Result GoValue
unfolding timestamp_parameter_of time_zone_from_location
accept_converted c go_nil = ok go_nil
accept_converted c (go_bool b) = ok (go_bool b)
accept_converted c (go_int64 n) = ok (go_int64 n)
accept_converted c (go_float64 b) = ok (go_float64 b)
accept_converted c (go_string s) = ok (go_string s)
accept_converted c (go_bytes b) = ok (go_bytes b)
accept_converted c (go_time t) = do
  p ← timestamp_parameter_of c t (time_zone_from_location c t.location)
  ok (native_value p)
accept_converted c (decomposer name) =
    err (errorf "unsupported parameter type %T" (str_arg name ∷ []))
accept_converted c v = err (errorf "unsupported parameter type %T" [])

-- normalizeParameterValue.
unfoldable pub normalize : Clock → GoValue → Result GoValue
unfolding convert_value accept_converted normalize_null timestamp_parameter_of timestamp_zone
    validate_decimal_type time_out_of_range is_blank
normalize c (native_value p) = ok (native_value p)
normalize c (uint64_value n) = ok (native_value (uint64_parameter n))
normalize c (go_uint n) = ok (native_value (uint64_parameter n))
normalize c (go_uint8 n) = ok (native_value (uint64_parameter n))
normalize c (go_uint16 n) = ok (native_value (uint64_parameter n))
normalize c (go_uint32 n) = ok (native_value (uint64_parameter n))
normalize c (go_uint64 n) = ok (native_value (uint64_parameter n))
normalize c (date_value d) = ok (native_value (date_parameter d.days))
normalize c (time_value v) =
    fail_if (time_out_of_range v.nanoseconds) (time_range_error v.nanoseconds)
    >> ok (native_value (time_parameter v.nanoseconds))
normalize c (timestamp_value v) = do
  p ← timestamp_parameter_of c v.t (timestamp_zone v)
  ok (native_value p)
normalize c (duration_value v) = ok (native_value (duration_parameter v.nanoseconds))
normalize c (go_duration n) = ok (native_value (duration_parameter n))
normalize c (decimal_value v) = do
  validate_decimal_type v.precision v.scale
  fail_if (is_blank v.value) (errorf "decimal value is empty" [])
  ok (native_value (decimal_parameter v.value v.precision v.scale))
normalize c (null_value v) = do p ← normalize_null v; ok (native_value p)
normalize c v = do converted ← convert_value v; accept_converted c converted
