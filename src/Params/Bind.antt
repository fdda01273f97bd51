-- ===== src/Params/Bind.antt =====
-- statementParams, setStatementParam, cParamData, cParamString and checkArgCount of
-- internal/native/native.go: the parameters as the C structs that cross to the native side.
use Prim.Native.String.{len}
use datafusion_go.Base.{
  ℕ, suc, String, str_eq, Bool, true, false, Option, none, some, List, [], ◌∷◌, ◌++◌, length, ◌==◌,
  if◌then◌else◌, not,
}
use datafusion_go.Base.Int.{ℤ, pos, negsuc, ltb_ℤ}
use datafusion_go.Errors.{errorf, int_arg, str_arg, Result, ok, err, ◌>>=◌, ◌>>◌, fail_if}
use datafusion_go.Params.Value.{
  NativeType, native_bool, native_int64, native_uint64, native_float64, native_string,
  native_binary, native_date, native_time, native_timestamp, native_duration, native_decimal,
  native_code, NativeParameter, uint64_parameter, date_parameter, time_parameter,
  timestamp_parameter, duration_parameter, decimal_parameter, null_parameter, GoValue, go_nil,
  go_bool, go_int64, go_float64, go_string, go_bytes, native_value,
}
use datafusion_go.Params.Args.{NamedValue, default_ordinal}

-- A block of C memory, by what was copied into it.
pub data Block : Type 0 where
  text : String → Block
  raw : List ℕ → Block

-- Its number of bytes.
unfoldable pub size : Block → ℕ
size (text s) = len s
size (raw b) = length b

-- C.dfgo_parameter. A pointer is the number of the block among those allocated, or null.
pub record CParameter : Type 0 where
  pub index : ℤ
  pub name : Option ℕ
  pub name_len : ℕ
  pub type_code : ℤ
  pub is_null : Bool
  pub int64_value : ℤ
  pub uint64_value : ℕ
  pub float64_value : ℕ
  pub payload : Option ℕ
  pub payload_len : ℕ
  pub precision : ℕ
  pub scale : ℤ
  pub timezone : Option ℕ
  pub timezone_len : ℕ

abbrev pub zero_param : CParameter
zero_param = record {
  index = pos 0;
  name = none;
  name_len = 0;
  type_code = pos 0;
  is_null = false;
  int64_value = pos 0;
  uint64_value = 0;
  float64_value = 0;
  payload = none;
  payload_len = 0;
  precision = 0;
  scale = pos 0;
  timezone = none;
  timezone_len = 0;
}

-- cParamData, and cParamString for a text: no block for an empty value.
unfoldable pub c_param_data : List Block → Block → List Block × Option ℕ
unfolding size
c_param_data allocs b =
    if size b == 0 then (allocs, none) else (allocs ++ b ∷ [], some (length allocs))

abbrev code_of : CParameter → NativeType → CParameter
code_of p t = record p { type_code = native_code t }

-- The fields that a value with a payload or a time zone points to.
with_payload : List Block → CParameter → Block → List Block × CParameter
unfolding c_param_data
with_payload allocs p b =
    let (after, at) = c_param_data allocs b in
    (after, record p { payload = at; payload_len = size b })

with_timezone : List Block → CParameter → String → List Block × CParameter
unfolding c_param_data
with_timezone allocs p zone =
    let (after, at) = c_param_data allocs (text zone) in
    (after, record p { timezone = at; timezone_len = size (text zone) })

set_native : List Block → CParameter → NativeParameter → List Block × CParameter
unfolding with_payload with_timezone native_code
set_native allocs p (uint64_parameter n) =
    (allocs, record (code_of p native_uint64) { uint64_value = n })
set_native allocs p (date_parameter d) =
    (allocs, record (code_of p native_date) { int64_value = d })
set_native allocs p (time_parameter n) =
    (allocs, record (code_of p native_time) { int64_value = n })
set_native allocs p (timestamp_parameter n zone) =
    with_timezone allocs (record (code_of p native_timestamp) { int64_value = n }) zone
set_native allocs p (duration_parameter n) =
    (allocs, record (code_of p native_duration) { int64_value = n })
set_native allocs p (decimal_parameter v precision scale) =
    with_payload allocs (record (code_of p native_decimal) { precision = precision; scale = scale })
      (text v)
set_native allocs p (null_parameter type precision scale zone) =
    with_timezone allocs
      (record (code_of p type) { is_null = true; precision = precision; scale = scale }) zone

-- setStatementParam: the blocks allocated so far, the parameter, and the value to put in it.
unfoldable pub set_statement_param :
    List Block → CParameter → GoValue → Result (List Block × CParameter)
unfolding set_native with_payload native_code
set_statement_param allocs p go_nil = ok (allocs, record p { is_null = true })
set_statement_param allocs p (go_bool true) =
    ok (allocs, record (code_of p native_bool) { int64_value = pos 1 })
set_statement_param allocs p (go_bool false) = ok (allocs, code_of p native_bool)
set_statement_param allocs p (go_int64 n) =
    ok (allocs, record (code_of p native_int64) { int64_value = n })
set_statement_param allocs p (go_float64 b) =
    ok (allocs, record (code_of p native_float64) { float64_value = b })
set_statement_param allocs p (native_value v) = ok (set_native allocs p v)
set_statement_param allocs p (go_string s) =
    ok (with_payload allocs (code_of p native_string) (text s))
set_statement_param allocs p (go_bytes b) =
    ok (with_payload allocs (code_of p native_binary) (raw b))
set_statement_param allocs p v = err (errorf "unsupported parameter type %T" [])

unfoldable pub with_name : List Block → CParameter → String → List Block × CParameter
unfolding c_param_data
with_name allocs p name =
    if str_eq name ""
    then (allocs, p)
    else let (after, at) = c_param_data allocs (text name) in
      (after, record p { name = at; name_len = size (text name) })

-- The body of the loop of statementParams, for the argument at index `i` of `n`.
unfoldable pub bind_one : ℕ → ℕ → List Block → NamedValue → Result (List Block × CParameter)
unfolding with_name set_statement_param
bind_one n i allocs arg = do
  let ordinal = default_ordinal arg.ordinal i
  fail_if (not (ltb_ℤ (pos 0) ordinal))
      (errorf "parameter ordinal must be positive, got %d" (int_arg ordinal ∷ []))
  fail_if (ltb_ℤ (pos n) ordinal) (
      errorf "parameter ordinal %d exceeds the number of arguments %d"
        (int_arg ordinal ∷ int_arg (pos n) ∷ []))
  let (named, p) = with_name allocs (record zero_param { index = ordinal }) arg.name
  set_statement_param named p arg.value

-- The loop of statementParams. On an error `cleanup` has freed what was allocated, so nothing is
-- handed out with it.
unfoldable pub bind_from :
    ℕ → ℕ → List Block → List NamedValue → Result (List Block × List CParameter)
unfolding bind_one
bind_from n i allocs [] = ok (allocs, [])
bind_from n i allocs (arg ∷ args) = do
  (after, p) ← bind_one n i allocs arg
  (final, ps) ← bind_from n (suc i) after args
  ok (final, p ∷ ps)

unfoldable pub statement_params : List NamedValue → Result (List Block × List CParameter)
unfolding bind_from
statement_params args = bind_from (length args) 0 [] args

-- checkArgCount, of a statement that expects `want` arguments; a closed one answers -1.
unfoldable pub check_arg_count : ℤ → List NamedValue → Result (Unit {0})
check_arg_count (negsuc n) args = ok tt
check_arg_count (pos want) args = fail_if (not (length args == want)) (
    errorf
      "datafusion-go SQL statement expects %d argument%s, got %d; pass exactly one argument for each ?, $1/$2, or distinct $name placeholder"
      (int_arg (pos want)
        ∷ str_arg (if want == 1 then "" else "s")
        ∷ int_arg (pos (length args))
        ∷ []))
