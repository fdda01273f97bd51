-- ===== src/Filter/Literals.antt =====
-- Literal of internal/native/expr.go, and Literal.UnmarshalJSON.
use datafusion_go.Base.{ℕ, String, str_eq, Bool, false, ◌||◌, List, [], ◌∷◌, if◌then◌else◌}
use datafusion_go.Base.Int.{ℤ, pos}
use datafusion_go.Errors.{errorf, wrapf, str_arg, Result, ok, err, ◌>>=◌, map_err}
use datafusion_go.Filter.Json.{
  Json, RawMessage, empty, message, Setter, decoded, same_key, store, unmarshal,
}
use datafusion_go.Filter.Scalars.{Codec, set_bool, set_string, set_int, set_uint, set_float}

-- The Go value of a literal, by its type: integers and floats with their width.
pub data LiteralValue : Type 0 where
  nil_value : LiteralValue
  bool_value : Bool → LiteralValue
  int_value : ℕ → ℤ → LiteralValue
  uint_value : ℕ → ℕ → LiteralValue
  float_value : ℕ → ℕ → LiteralValue
  string_value : String → LiteralValue
  bytes_value : List ℕ → LiteralValue

pub record Literal : Type 0 where
  pub type : String
  pub value : LiteralValue
  pub unit : String
  pub time_zone : String

abbrev pub zero_literal : Literal
zero_literal = record { type = ""; value = nil_value; unit = ""; time_zone = "" }

-- The struct that the wire form is decoded into first.
pub record RawLiteral : Type 0 where
  pub type : String
  pub value : RawMessage
  pub unit : String
  pub tz : String

abbrev pub zero_raw : RawLiteral
zero_raw = record { type = ""; value = empty; unit = ""; tz = "" }

unfoldable pub set_raw : Setter RawLiteral
unfolding store
set_raw key v saved raw =
    if same_key key "type"
    then store (set_string v raw.type) (λ t. record raw { type = t }) saved raw
    else if same_key key "value"
    then decoded saved (record raw { value = message v })
    else if same_key key "unit"
    then store (set_string v raw.unit) (λ u. record raw { unit = u }) saved raw
    else if same_key key "tz"
    then store (set_string v raw.tz) (λ z. record raw { tz = z }) saved raw
    else decoded saved raw

-- The closure `decode`, with what the value is stored as.
unfoldable pub decode_value {ℓ} :
    {A : Type ℓ} → String → Result A → (A → LiteralValue) → Result LiteralValue
decode_value type r as_value =
    map_err (wrapf "literal of type %q: %w" (str_arg type ∷ [])) r >>= λ v. ok (as_value v)

-- `decode` into the text of a binary literal, and the bytes that it encodes.
unfoldable pub decode_text : String → Json → Result String
decode_text type j = map_err (wrapf "literal of type %q: %w" (str_arg type ∷ [])) (set_string j "")

unfoldable pub decode_bytes : Codec → String → String → Result (List ℕ)
decode_bytes c type s =
    map_err (wrapf "literal of type %q: invalid base64: %w" (str_arg type ∷ [])) (c.decode_base64 s)

decode_binary : Codec → String → Json → Result LiteralValue
unfolding decode_text decode_bytes
decode_binary c type j =
    decode_text type j >>= λ s. decode_bytes c type s >>= λ b. ok (bytes_value b)

unfoldable pub is_time_unit : String → Bool
is_time_unit u = str_eq u "s" || str_eq u "ms" || str_eq u "us" || str_eq u "ns"

-- The value that a literal of a type has, other than a timestamp.
unfoldable pub plain_value : Codec → String → Json → Result LiteralValue
unfolding decode_value decode_binary
plain_value c type j =
    if str_eq type "bool"
    then decode_value type (set_bool j false) bool_value
    else if str_eq type "int8"
    then decode_value type (set_int 8 j (pos 0)) (int_value 8)
    else if str_eq type "int16"
    then decode_value type (set_int 16 j (pos 0)) (int_value 16)
    else if str_eq type "int32"
    then decode_value type (set_int 32 j (pos 0)) (int_value 32)
    else if str_eq type "int64"
    then decode_value type (set_int 64 j (pos 0)) (int_value 64)
    else if str_eq type "uint8"
    then decode_value type (set_uint 8 j 0) (uint_value 8)
    else if str_eq type "uint16"
    then decode_value type (set_uint 16 j 0) (uint_value 16)
    else if str_eq type "uint32"
    then decode_value type (set_uint 32 j 0) (uint_value 32)
    else if str_eq type "uint64"
    then decode_value type (set_uint 64 j 0) (uint_value 64)
    else if str_eq type "float32"
    then decode_value type (set_float c 32 j 0) (float_value 32)
    else if str_eq type "float64"
    then decode_value type (set_float c 64 j 0) (float_value 64)
    else if str_eq type "utf8"
    then decode_value type (set_string j "") string_value
    else if str_eq type "binary"
    then decode_binary c type j
    else if str_eq type "date32"
    then decode_value type (set_int 32 j (pos 0)) (int_value 32)
    else if str_eq type "date64"
    then decode_value type (set_int 64 j (pos 0)) (int_value 64)
    else err (errorf "unknown literal type %q" (str_arg type ∷ []))

unfoldable pub timestamp_of : RawLiteral → LiteralValue → Result Literal
timestamp_of raw v =
    if is_time_unit raw.unit
    then ok (record { type = raw.type; value = v; unit = raw.unit; time_zone = raw.tz })
    else err (errorf "timestamp literal has invalid unit %q" (str_arg raw.unit ∷ []))

-- The switch on the type. Only a timestamp sets the unit and the time zone.
unfoldable pub literal_of : Codec → RawLiteral → RawMessage → Literal → Result Literal
unfolding plain_value timestamp_of
literal_of c raw empty l = err (errorf "literal of type %q has no value" (str_arg raw.type ∷ []))
literal_of c raw (message j) l =
    if str_eq raw.type "timestamp"
    then decode_value raw.type (set_int 64 j (pos 0)) (int_value 64) >>= timestamp_of raw
    else plain_value c raw.type j >>= λ v. ok (record l { type = raw.type; value = v })

-- Literal.UnmarshalJSON.
unfoldable pub unmarshal_literal : Codec → Json → Literal → Result Literal
unfolding literal_of set_raw
unmarshal_literal c j l = map_err (wrapf "literal: %w" []) (unmarshal set_raw j zero_raw) >>= λ raw.
    literal_of c raw raw.value l
