-- ===== src/Filter/Scalars.antt =====
-- How `encoding/json` decodes into the scalar types of expr.go. A null leaves the value as it is.
use datafusion_go.Base.{
  ℕ, zero, suc, ◌-◌, ◌^◌, ◌<◌, String, Bool, true, false, Option, none, some, List, ltb,
  if◌then◌else◌,
}
use datafusion_go.Base.Int.{ℤ, pos, negsuc}
use datafusion_go.Errors.{Result, ok, err}
use datafusion_go.Filter.Json.{Number, whole, Json, null, bool, number, text, type_error}

-- What expr.go takes from strconv and encoding/base64: a float of a width, as its bits, if the
-- number is in range; and the bytes that a text encodes.
pub record Codec : Type 0 where
  pub parse_float : ℕ → Number → Option ℕ
  pub decode_base64 : String → Result (List ℕ)

-- The values of a signed and of an unsigned integer type.
abbrev pub IsInt : ℕ → ℤ → Type 0
IsInt width (pos n) = n < 2 ^ (width - 1)
IsInt width (negsuc n) = n < 2 ^ (width - 1)

abbrev pub IsUint : ℕ → ℕ → Type 0
IsUint width n = n < 2 ^ width

negate : ℕ → ℤ
negate zero = pos 0
negate (suc n) = negsuc n

-- reflect.Value.OverflowInt.
unfoldable pub overflow_int : ℕ → ℤ → Bool
overflow_int width (pos n) = if ltb n (2 ^ (width - 1)) then false else true
overflow_int width (negsuc n) = if ltb n (2 ^ (width - 1)) then false else true

unfoldable pub set_bool : Json → Bool → Result Bool
set_bool (bool b) old = ok b
set_bool null old = ok old
set_bool j old = err (type_error j "bool")

unfoldable pub set_string : Json → String → Result String
set_string (text s) old = ok s
set_string null old = ok old
set_string j old = err (type_error j "string")

unfoldable pub fit_int : ℕ → Json → ℤ → Result ℤ
unfolding overflow_int
fit_int width j z = if overflow_int width z then err (type_error j "int") else ok z

-- strconv.ParseInt, and the check that the value fits.
unfoldable pub set_int : ℕ → Json → ℤ → Result ℤ
unfolding negate fit_int
set_int width (number (whole minus n)) old =
    fit_int width (number (whole minus n)) (if minus then negate n else pos n)
set_int width null old = ok old
set_int width j old = err (type_error j "int")

-- strconv.ParseUint takes no sign.
unfoldable pub set_uint : ℕ → Json → ℕ → Result ℕ
set_uint width (number (whole false n)) old =
    if ltb n (2 ^ width) then ok n else err (type_error (number (whole false n)) "uint")
set_uint width null old = ok old
set_uint width j old = err (type_error j "uint")

float_or : Json → Option ℕ → Result ℕ
float_or j none = err (type_error j "float")
float_or j (some bits) = ok bits

unfoldable pub set_float : Codec → ℕ → Json → ℕ → Result ℕ
unfolding float_or
set_float c width (number n) old = float_or (number n) (c.parse_float width n)
set_float c width null old = ok old
set_float c width j old = err (type_error j "float")
