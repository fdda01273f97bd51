-- ===== src/Rows/Types.antt =====
-- The column types of rows.go: checkDatabaseSQLType, unsupportedArrowFamily, scanType,
-- databaseTypeName, columnTypeLength and columnTypePrecisionScale.
use datafusion_go.Base.{
  ℕ, String, str_eq, Bool, true, false, Option, none, some, List, [], ◌∷◌, if◌then◌else◌,
}
use datafusion_go.Base.Int.{ℤ, pos}
use datafusion_go.Errors.{errorf, FmtArg, int_arg, str_arg, Result, ok, err}
use datafusion_go.Arrow.{
  TimeUnit, ArrowType, null, bool, int8, int16, int32, int64, uint8, uint16, uint32, uint64,
  float16, float32, float64, string, large_string, string_view, binary, large_binary, binary_view,
  fixed_size_binary, date32, date64, time32, time64, duration, timestamp, decimal32, decimal64,
  decimal128, decimal256, interval_months, interval_day_time, interval_month_day_nano, list,
  large_list, list_view, large_list_view, fixed_size_list, struct, map_of, sparse_union,
  dense_union, dictionary, extension, run_end_encoded,
}

-- The names that the Arrow library gives to types and units.
pub record Names : Type 0 where
  pub type_name : ArrowType → String
  pub type_text : ArrowType → String
  pub unit_text : TimeUnit → String

-- unsupportedArrowFamily.
unfoldable pub unsupported_arrow_family : ArrowType → String
unsupported_arrow_family (list t) = "list"
unsupported_arrow_family (large_list t) = "list"
unsupported_arrow_family (fixed_size_list n t) = "list"
unsupported_arrow_family (list_view t) = "list"
unsupported_arrow_family (large_list_view t) = "list"
unsupported_arrow_family (struct fs) = "struct"
unsupported_arrow_family (map_of fs) = "map"
unsupported_arrow_family (sparse_union fs) = "union"
unsupported_arrow_family (dense_union fs) = "union"
unsupported_arrow_family (dictionary k v) = "dictionary"
unsupported_arrow_family (extension t) = "extension"
unsupported_arrow_family (run_end_encoded r v) = "run-end encoded"
unsupported_arrow_family _ = "unsupported"

-- The types that the `switch` of checkDatabaseSQLType lists.
unfoldable pub is_database_sql_type : ArrowType → Bool
is_database_sql_type null = true
is_database_sql_type bool = true
is_database_sql_type int8 = true
is_database_sql_type int16 = true
is_database_sql_type int32 = true
is_database_sql_type int64 = true
is_database_sql_type uint8 = true
is_database_sql_type uint16 = true
is_database_sql_type uint32 = true
is_database_sql_type uint64 = true
is_database_sql_type float16 = true
is_database_sql_type float32 = true
is_database_sql_type float64 = true
is_database_sql_type string = true
is_database_sql_type large_string = true
is_database_sql_type string_view = true
is_database_sql_type binary = true
is_database_sql_type large_binary = true
is_database_sql_type (fixed_size_binary n) = true
is_database_sql_type binary_view = true
is_database_sql_type date32 = true
is_database_sql_type date64 = true
is_database_sql_type (time32 u) = true
is_database_sql_type (time64 u) = true
is_database_sql_type (timestamp u z) = true
is_database_sql_type (duration u) = true
is_database_sql_type (decimal32 p s) = true
is_database_sql_type (decimal64 p s) = true
is_database_sql_type (decimal128 p s) = true
is_database_sql_type (decimal256 p s) = true
is_database_sql_type interval_months = true
is_database_sql_type interval_day_time = true
is_database_sql_type interval_month_day_nano = true
is_database_sql_type _ = false

-- checkDatabaseSQLType.
unfoldable pub check_database_sql_type : Names → ArrowType → Result (Unit {0})
unfolding is_database_sql_type unsupported_arrow_family
check_database_sql_type names dt =
    if is_database_sql_type dt
    then ok tt
    else err (
        errorf
          "database/sql conversion does not support Arrow %s type %s; use QueryArrowContext for exact Arrow data"
          (str_arg (unsupported_arrow_family dt) ∷ str_arg (names.type_text dt) ∷ []))

-- The Go types that scanType answers.
pub data ScanType : Type 0 where
  scan_any scan_bool scan_int64 scan_float64 scan_time scan_string scan_bytes : ScanType
  scan_null_bool scan_null_int64 scan_null_float64 scan_null_time scan_null_string : ScanType

-- The second `switch` of scanType.
plain_scan_type : ArrowType → ScanType
plain_scan_type null = scan_any
plain_scan_type bool = scan_bool
plain_scan_type int8 = scan_int64
plain_scan_type int16 = scan_int64
plain_scan_type int32 = scan_int64
plain_scan_type int64 = scan_int64
plain_scan_type uint8 = scan_int64
plain_scan_type uint16 = scan_int64
plain_scan_type uint32 = scan_int64
plain_scan_type uint64 = scan_int64
plain_scan_type float16 = scan_float64
plain_scan_type float32 = scan_float64
plain_scan_type float64 = scan_float64
plain_scan_type date32 = scan_time
plain_scan_type date64 = scan_time
plain_scan_type (time32 u) = scan_time
plain_scan_type (time64 u) = scan_time
plain_scan_type (duration u) = scan_int64
plain_scan_type string = scan_string
plain_scan_type large_string = scan_string
plain_scan_type string_view = scan_string
plain_scan_type binary = scan_bytes
plain_scan_type large_binary = scan_bytes
plain_scan_type (fixed_size_binary n) = scan_bytes
plain_scan_type binary_view = scan_bytes
plain_scan_type (timestamp u z) = scan_time
plain_scan_type (decimal32 p s) = scan_string
plain_scan_type (decimal64 p s) = scan_string
plain_scan_type (decimal128 p s) = scan_string
plain_scan_type (decimal256 p s) = scan_string
plain_scan_type interval_months = scan_string
plain_scan_type interval_day_time = scan_string
plain_scan_type interval_month_day_nano = scan_string
plain_scan_type _ = scan_any

-- The first `switch` of scanType, for a nullable column; `none` where it has no case.
null_scan_type : ArrowType → Option ScanType
null_scan_type bool = some scan_null_bool
null_scan_type int8 = some scan_null_int64
null_scan_type int16 = some scan_null_int64
null_scan_type int32 = some scan_null_int64
null_scan_type int64 = some scan_null_int64
null_scan_type uint8 = some scan_null_int64
null_scan_type uint16 = some scan_null_int64
null_scan_type uint32 = some scan_null_int64
null_scan_type uint64 = some scan_null_int64
null_scan_type float16 = some scan_null_float64
null_scan_type float32 = some scan_null_float64
null_scan_type float64 = some scan_null_float64
null_scan_type date32 = some scan_null_time
null_scan_type date64 = some scan_null_time
null_scan_type (time32 u) = some scan_null_time
null_scan_type (time64 u) = some scan_null_time
null_scan_type (timestamp u z) = some scan_null_time
null_scan_type (duration u) = some scan_null_int64
null_scan_type string = some scan_null_string
null_scan_type large_string = some scan_null_string
null_scan_type string_view = some scan_null_string
null_scan_type (decimal32 p s) = some scan_null_string
null_scan_type (decimal64 p s) = some scan_null_string
null_scan_type (decimal128 p s) = some scan_null_string
null_scan_type (decimal256 p s) = some scan_null_string
null_scan_type interval_months = some scan_null_string
null_scan_type interval_day_time = some scan_null_string
null_scan_type interval_month_day_nano = some scan_null_string
null_scan_type _ = none

-- scanType.
unfoldable pub scan_type : ArrowType → Bool → ScanType
unfolding plain_scan_type null_scan_type
scan_type dt true = elim (null_scan_type dt) [ none ↦ plain_scan_type dt | some s ↦ s ]
scan_type dt false = plain_scan_type dt

-- A type name, by its format, or as the upper case of the library's name.
pub data TypeName : Type 0 where
  formatted : String → List FmtArg → TypeName
  upper_case : String → TypeName

-- databaseTypeName.
unfoldable pub database_type_name : Names → ArrowType → TypeName
database_type_name names (fixed_size_binary w) =
    formatted "FIXED_SIZE_BINARY(%d)" (int_arg (pos w) ∷ [])
database_type_name names date32 = formatted "DATE32[day]" []
database_type_name names date64 = formatted "DATE64[ms]" []
database_type_name names (time32 u) = formatted "TIME32[%s]" (str_arg (names.unit_text u) ∷ [])
database_type_name names (time64 u) = formatted "TIME64[%s]" (str_arg (names.unit_text u) ∷ [])
database_type_name names (timestamp u z) =
    if str_eq z ""
    then formatted "TIMESTAMP[%s]" (str_arg (names.unit_text u) ∷ [])
    else formatted "TIMESTAMP[%s, tz=%s]" (str_arg (names.unit_text u) ∷ str_arg z ∷ [])
database_type_name names (duration u) = formatted "DURATION[%s]" (str_arg (names.unit_text u) ∷ [])
database_type_name names (decimal32 p s) =
    formatted "DECIMAL32(%d,%d)" (int_arg (pos p) ∷ int_arg s ∷ [])
database_type_name names (decimal64 p s) =
    formatted "DECIMAL64(%d,%d)" (int_arg (pos p) ∷ int_arg s ∷ [])
database_type_name names (decimal128 p s) =
    formatted "DECIMAL(%d,%d)" (int_arg (pos p) ∷ int_arg s ∷ [])
database_type_name names (decimal256 p s) =
    formatted "DECIMAL256(%d,%d)" (int_arg (pos p) ∷ int_arg s ∷ [])
database_type_name names interval_months = formatted "INTERVAL_MONTHS" []
database_type_name names interval_day_time = formatted "INTERVAL_DAY_TIME" []
database_type_name names interval_month_day_nano = formatted "INTERVAL_MONTH_DAY_NANO" []
database_type_name names dt = upper_case (names.type_name dt)

-- columnTypeLength; `none` is the answer that is not ok.
unfoldable pub column_type_length : ArrowType → Option ℕ
column_type_length (fixed_size_binary w) = some w
column_type_length _ = none

-- columnTypePrecisionScale.
unfoldable pub column_type_precision_scale : ArrowType → Option (ℕ × ℤ)
column_type_precision_scale (decimal32 p s) = some (p, s)
column_type_precision_scale (decimal64 p s) = some (p, s)
column_type_precision_scale (decimal128 p s) = some (p, s)
column_type_precision_scale (decimal256 p s) = some (p, s)
column_type_precision_scale _ = none
