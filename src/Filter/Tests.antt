-- ===== src/Filter/Tests.antt =====
-- Runs of the decoder of filter predicates, with the cases of expr_test.go.
use datafusion_go.Base.{
  String, str_eq, ◌≡◌, refl, true, false, none, some, List, [], ◌∷◌, arith, if◌then◌else◌,
}
use datafusion_go.Base.Int.{pos, negsuc}
use datafusion_go.Errors.{ok, err, errorf, wrapf, int_arg, str_arg}
use datafusion_go.Filter.Json.{
  Json, Items, same_key, type_error, store, store_struct, unmarshal, whole, fractional, null,
  number, text, array, object, no_item, item, no_member, member, document,
}
use datafusion_go.Filter.Scalars.{Codec, set_string, fit_int, set_int, set_float}
use datafusion_go.Filter.Literals.{
  Literal, zero_literal, is_time_unit, unmarshal_literal, int_value, float_value, bytes_value,
}
use datafusion_go.Filter.Decode.{
  Column, Expr, set_kind, is_compare_op, decode_kind, decode_expr, decode_items, decode_filters,
  compare, is_null, between, in_list, and, or, not,
}
use datafusion_go.Filter.Print.{
  Encoder, print_exprs, IsWritable, int8_type, binary_type, timestamp_type,
}
use datafusion_go.Filter.RoundTrip.{AreWritten, decode_filters-print_exprs}
use datafusion_go.Filter.Sound.{
  AreDecoded, decode_filters-AreDecoded, append_items, decode_filters-first_error,
}

-- Floats that are read and written as whole numbers of bits, and base64 of one text.
abbrev test_codec : Codec
test_codec = record {
  parse_float = λ w n. elim n [ whole minus bits ↦ some bits | fractional s ↦ none ];
  decode_base64 =
      λ s. if str_eq s "AQI=" then ok (1 ∷ 2 ∷ []) else err (errorf "illegal base64 data" []);
}

abbrev test_encoder : Encoder
test_encoder = record { print_float = λ w bits. whole false bits; encode_base64 = λ bs. "AQI=" }

abbrev id_column : Column
id_column = record { name = "id"; index = pos 0 }

abbrev one_byte : Literal
one_byte = record { type = "int8"; value = int_value 8 (negsuc 127); unit = ""; time_zone = "" }

abbrev an_instant : Literal
an_instant = record {
  type = "timestamp";
  value = int_value 64 (pos 1700000000);
  unit = "s";
  time_zone = "UTC";
}

abbrev some_bytes : Literal
some_bytes = record { type = "binary"; value = bytes_value (1 ∷ 2 ∷ []); unit = ""; time_zone = "" }

abbrev test_exprs : List Expr
test_exprs =
    and (compare id_column "gteq" one_byte) (not (is_null id_column true))
    ∷ or (in_list id_column false (some_bytes ∷ one_byte ∷ []))
        (between id_column true an_instant an_instant)
    ∷ []

one_byte-IsWritable : IsWritable test_codec test_encoder one_byte
one_byte-IsWritable = (int8_type _ (omega arith), tt, (refl, refl))

an_instant-IsWritable : IsWritable test_codec test_encoder an_instant
unfolding is_time_unit
an_instant-IsWritable = (timestamp_type _ (omega arith), tt, refl)

some_bytes-IsWritable : IsWritable test_codec test_encoder some_bytes
some_bytes-IsWritable = (binary_type _, refl, (refl, refl))

test_exprs-AreWritten : AreWritten test_codec test_encoder test_exprs
unfolding is_compare_op
test_exprs-AreWritten = (
  ((omega arith, refl, one_byte-IsWritable), omega arith),
  (
    (
      (omega arith, (some_bytes-IsWritable, (one_byte-IsWritable, tt))),
      (omega arith, an_instant-IsWritable, an_instant-IsWritable),
    ),
    tt,
  ),
)

decode_filters-print_exprs_example :
    decode_filters test_codec (document (array (print_exprs test_encoder test_exprs)))
    ≡ ok test_exprs
decode_filters-print_exprs_example =
    decode_filters-print_exprs test_codec test_encoder test_exprs test_exprs-AreWritten

decode_filters-AreDecoded_example : AreDecoded test_exprs
decode_filters-AreDecoded_example =
    decode_filters-AreDecoded test_codec (document (array (print_exprs test_encoder test_exprs)))
      test_exprs decode_filters-print_exprs_example

-- {"kind":"like"}
abbrev like_object : Json
like_object = object (member "kind" (text "like") no_member)

-- [{"KIND":"is_null","column":{"index":0,"name":"id"},"extra":[]}]: keys fold, and others are skipped.
abbrev folded_items : Items
folded_items =
    item
      (object (
        member "KIND" (text "is_null") (
          member "column"
            (object (member "index" (number (whole false 0)) (member "name" (text "id") no_member)))
            (member "extra" (array no_item) no_member))))
      no_item

folded_run :
    decode_filters test_codec (document (array folded_items)) ≡ ok (is_null id_column false ∷ [])
unfolding decode_filters decode_items decode_expr unmarshal set_kind store set_string same_key
    decode_kind set_int store_struct
folded_run = refl

like_run :
    decode_expr test_codec like_object
    ≡ err (errorf "unknown filter expression kind %q" (str_arg "like" ∷ []))
unfolding decode_expr unmarshal set_kind store set_string same_key decode_kind
like_run = refl

decode_filters-first_error_example :
    decode_filters test_codec
      (document (array (append_items folded_items (item like_object no_item))))
    ≡ err (
        wrapf "decoding pushed filter %d: %w"
          (int_arg (pos 1) ∷ [])
          (errorf "unknown filter expression kind %q" (str_arg "like" ∷ [])))
decode_filters-first_error_example =
    decode_filters-first_error test_codec folded_items _ like_object _ no_item folded_run like_run

-- A literal of a type, with a value.
abbrev literal_object : String → Json → Json
literal_object type value = object (member "type" (text type) (member "value" value no_member))

-- {"type":"int8","value":1000}
overflow_run :
    unmarshal_literal test_codec (literal_object "int8" (number (whole false 1000))) zero_literal
    ≡ err (
        wrapf "literal of type %q: %w"
          (str_arg "int8" ∷ [])
          (type_error (number (whole false 1000)) "int"))
unfolding unmarshal_literal unmarshal store set_string same_key set_int fit_int type_error
overflow_run = refl

-- {"type":"float64","value":null}: the value that the serializer writes for a float that is not
-- finite is read as zero.
null_run :
    unmarshal_literal test_codec (literal_object "float64" null) zero_literal
    ≡ ok (record { type = "float64"; value = float_value 64 0; unit = ""; time_zone = "" })
unfolding unmarshal_literal unmarshal store set_string same_key set_float
null_run = refl
