-- ===== src/Params/Decode.antt =====
-- What the native side reads out of the C structs of Bind, to state that nothing is lost in them.
use Prim.Native.String.{len}
use Prim.Native.String.len
use package.text.Mathlib.TextPositions.{len_utf8-pos}
use datafusion_go.Base.{
  ℕ, ◌≡◌, refl, sym, inl, inr, String, Bool, true, false, not, Option, none, some, List, [], ◌∷◌,
  ◌++◌, length, get_elem?, take, leb, ap, ◌==◌, ==_iff, if◌then◌else◌, Bool-cases, arith,
}
use datafusion_go.Base.Int.{ℤ, pos, negsuc}
use datafusion_go.Params.Value.{
  NativeType, native_bool, native_int64, native_uint64, native_float64, native_string,
  native_binary, native_date, native_time, native_timestamp, native_duration, native_decimal,
  native_code, uint64_parameter, date_parameter, time_parameter, timestamp_parameter,
  duration_parameter, decimal_parameter, null_parameter, GoValue, go_nil, go_bool, go_int64,
  go_float64, go_string, go_bytes, native_value,
}
use datafusion_go.Params.Bind.{Block, text, raw, size, CParameter, c_param_data}

-- A pointer and a number of bytes. The bytes of a text are read as UTF-8, which is the text if they are
-- the whole block; a part of a text, or more than the block, is read as nothing here.
block_text : ℕ → Option Block → Option String
block_text n (some (text s)) = if len s == n then some s else none
block_text n _ = none

block_bytes : ℕ → Option Block → Option (List ℕ)
block_bytes n (some (raw b)) = if leb n (length b) then some (take n b) else none
block_bytes n _ = none

-- A null pointer has no bytes.
unfoldable pub read_text : List Block → Option ℕ → ℕ → Option String
unfolding block_text
read_text mem none n = if n == 0 then some "" else none
read_text mem (some at) n = if n == 0 then some "" else block_text n (get_elem? mem at)

unfoldable pub read_bytes : List Block → Option ℕ → ℕ → Option (List ℕ)
unfolding block_bytes
read_bytes mem none n = if n == 0 then some [] else none
read_bytes mem (some at) n = block_bytes n (get_elem? mem at)

type_of_number : ℕ → Option NativeType
type_of_number n =
    if n == 1
    then some native_bool
    else if n == 2
    then some native_int64
    else if n == 3
    then some native_uint64
    else if n == 4
    then some native_float64
    else if n == 5
    then some native_string
    else if n == 6
    then some native_binary
    else if n == 7
    then some native_date
    else if n == 8
    then some native_time
    else if n == 9
    then some native_timestamp
    else if n == 10
    then some native_duration
    else if n == 11
    then some native_decimal
    else none

pub type_of_code : ℤ → Option NativeType
unfolding type_of_number
type_of_code (pos n) = type_of_number n
type_of_code (negsuc n) = none

abbrev is_zero : ℤ → Bool
is_zero (pos n) = n == 0
is_zero (negsuc n) = false

abbrev read_as {ℓ} : {A : Type ℓ} → (A → GoValue) → Option A → Option GoValue
read_as f none = none
read_as f (some x) = some (f x)

decode_typed : List Block → CParameter → NativeType → Option GoValue
unfolding read_text read_bytes
decode_typed mem p native_bool = some (go_bool (not (is_zero p.int64_value)))
decode_typed mem p native_int64 = some (go_int64 p.int64_value)
decode_typed mem p native_uint64 = some (native_value (uint64_parameter p.uint64_value))
decode_typed mem p native_float64 = some (go_float64 p.float64_value)
decode_typed mem p native_string = read_as go_string (read_text mem p.payload p.payload_len)
decode_typed mem p native_binary = read_as go_bytes (read_bytes mem p.payload p.payload_len)
decode_typed mem p native_date = some (native_value (date_parameter p.int64_value))
decode_typed mem p native_time = some (native_value (time_parameter p.int64_value))
decode_typed mem p native_timestamp =
    read_as (λ (t : String). native_value (timestamp_parameter p.int64_value t))
      (read_text mem p.timezone p.timezone_len)
decode_typed mem p native_duration = some (native_value (duration_parameter p.int64_value))
decode_typed mem p native_decimal =
    read_as (λ (t : String). native_value (decimal_parameter t p.precision p.scale))
      (read_text mem p.payload p.payload_len)

decode_null : List Block → CParameter → NativeType → Option GoValue
decode_null mem p type =
    read_as (λ (t : String). native_value (null_parameter type p.precision p.scale t))
      (read_text mem p.timezone p.timezone_len)

decode_by : Bool → Option NativeType → List Block → CParameter → Option GoValue
unfolding decode_typed decode_null
decode_by true none mem p = some go_nil
decode_by true (some type) mem p = decode_null mem p type
decode_by false none mem p = none
decode_by false (some type) mem p = decode_typed mem p type

-- The value that a parameter stands for; `none` if it is not null and its type is
-- unknown, or if a length is not the one of what its pointer points to.
unfoldable pub decode : List Block → CParameter → Option GoValue
unfolding decode_by type_of_code
decode mem p = decode_by p.is_null (type_of_code p.type_code) mem p

pub type_of_code-native_code : (t : NativeType) → type_of_code (native_code t) ≡ some t
unfolding type_of_code native_code
type_of_code-native_code native_bool = refl
type_of_code-native_code _ = refl

len-eq-zero : (s : String) → len s ≡ 0 → s ≡ ""
len-eq-zero String.[] h = refl
len-eq-zero (String.◌∷◌ c s) h =
    let (k, e) = len_utf8-pos c in absurd (omega (arith, e, len.cons c s))

get_elem?-append :
    (xs more : List Block) (b : Block) → get_elem? ((xs ++ b ∷ []) ++ more) (length xs) ≡ some b
get_elem?-append [] more b = refl
get_elem?-append (x ∷ xs) more b = get_elem?-append xs more b

-- What `c_param_data` stored is read back by its number of bytes, also after further blocks are
-- allocated.
pub read_text-c_param_data :
    (mem more : List Block) (s : String)
    → read_text
        ((c_param_data mem (text s)).0 ++ more)
        (c_param_data mem (text s)).1
        (size (text s))
      ≡ some s
unfolding read_text c_param_data size
read_text-c_param_data mem more s = elim (Bool-cases (len s == 0)) [
  | inl e ↦ simp (e) (ap some (sym (len-eq-zero s ((==_iff _ _).0 e))))
  | inr e ↦
      let same : (len s == len s) ≡ true = (==_iff _ _).1 refl in
      simp (e, get_elem?-append mem more (text s), same) refl
]

take-all : (b : List ℕ) → take (length b) b ≡ b
take-all [] = refl
take-all (x ∷ b) = ap (λ bs. x ∷ bs) (take-all b)

pub read_bytes-c_param_data :
    (mem more : List Block) (b : List ℕ)
    → read_bytes ((c_param_data mem (raw b)).0 ++ more) (c_param_data mem (raw b)).1 (size (raw b))
      ≡ some b
unfolding read_bytes c_param_data size
read_bytes-c_param_data mem more [] = refl
read_bytes-c_param_data mem more (x ∷ b) = elim (Bool-cases (length (x ∷ b) == 0)) [
  | inl e ↦ absurd (ground arith)
  | inr e ↦
      let whole : leb (length (x ∷ b)) (length (x ∷ b)) ≡ true = ground arith in
      simp (e, get_elem?-append mem more (raw (x ∷ b)), whole, take-all (x ∷ b)) refl
]
