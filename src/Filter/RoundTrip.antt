-- ===== src/Filter/RoundTrip.antt =====
-- What the serializer writes is decoded to the predicates that it wrote.
use datafusion_go.Base.{
  ℕ, suc, String, str_eq, eq_iff, ◌≡◌, refl, inl, inr, Bool, true, false, Option, none, List, [],
  ◌∷◌, arith, Bool-cases,
}
use datafusion_go.Base.Int.{ℤ, pos, negsuc}
use datafusion_go.Errors.{ok}
use datafusion_go.Filter.Json.{
  same_key, store, store_struct, decode_struct, unmarshal, whole, number, array, message, document,
  decoded,
}
use datafusion_go.Filter.Scalars.{
  Codec, IsInt, IsUint, set_bool, set_string, set_int, set_uint, set_float,
}
use datafusion_go.Filter.Literals.{
  literal_of, timestamp_of, LiteralValue, Literal, zero_literal, RawLiteral, zero_raw, set_raw,
  decode_value, plain_value, unmarshal_literal, int_value,
}
use datafusion_go.Filter.Decode.{
  decode_compare, decode_is_null, decode_between, decode_in_list, Column, Expr, zero_column,
  set_kind, set_column, set_literals, decode_kind, decode_expr, decode_items, decode_filters,
  compare, is_null, between, in_list, and, or, not,
}
use datafusion_go.Filter.Print.{
  Encoder, Reads, print_int, print_value, print_literal, print_literals, print_column, print_expr,
  print_exprs, HasType, HasUnit, IsWritable, AreWritable, IsWritten, bool_type, int8_type,
  int16_type, int32_type, int64_type, uint8_type, uint16_type, uint32_type, uint64_type,
  float32_type, float64_type, utf8_type, binary_type, date32_type, date64_type, timestamp_type,
}

set_int-print_int : (w : ℕ) (z old : ℤ) → IsInt w z → set_int w (number (print_int z)) old ≡ ok z
unfolding set_int print_int
set_int-print_int w (pos n) old h = ground arith
set_int-print_int w (negsuc n) old h = ground arith

set_uint-whole : (w n old : ℕ) → IsUint w n → set_uint w (number (whole false n)) old ≡ ok n
unfolding set_uint
set_uint-whole w n old h = ground arith

set_column-print :
    (col : Column) (saved : Option _)
    → IsInt 64 col.index
    → decode_struct set_column (print_column col) saved zero_column ≡ decoded saved col
unfolding set_column print_column decode_struct store set_string same_key
set_column-print col saved h = cc (set_int-print_int 64 col.index (pos 0) h)

-- The raw struct that a printed literal is decoded into.
abbrev raw_of : Encoder → Literal → RawLiteral
raw_of enc l = record {
  type = l.type;
  value = message (print_value enc l.value);
  unit = l.unit;
  tz = l.time_zone;
}

unmarshal-print_literal :
    (enc : Encoder) (l : Literal)
    → HasUnit (str_eq l.type "timestamp") l
    → unmarshal set_raw (print_literal enc l) zero_raw ≡ ok (raw_of enc l)
unfolding unmarshal print_literal set_raw store set_string same_key
unmarshal-print_literal enc l h = elim (Bool-cases (str_eq l.type "timestamp")) [
  | inl e ↦ ground (arith, eq_iff l.time_zone "")
  | inr e ↦ ground arith
]

plain_value-print :
    (c : Codec) (enc : Encoder) (t : String) (v : LiteralValue)
    → str_eq t "timestamp" ≡ false
    → HasType t v
    → Reads c enc v
    → plain_value c t (print_value enc v) ≡ ok v
unfolding plain_value print_value decode_value set_bool set_string set_float
plain_value-print c enc t v e (bool_type b) r = refl
plain_value-print c enc t v e (int8_type z h) r = cc (set_int-print_int 8 z (pos 0) h)
plain_value-print c enc t v e (int16_type z h) r = cc (set_int-print_int 16 z (pos 0) h)
plain_value-print c enc t v e (int32_type z h) r = cc (set_int-print_int 32 z (pos 0) h)
plain_value-print c enc t v e (int64_type z h) r = cc (set_int-print_int 64 z (pos 0) h)
plain_value-print c enc t v e (uint8_type n h) r = cc (set_uint-whole 8 n 0 h)
plain_value-print c enc t v e (uint16_type n h) r = cc (set_uint-whole 16 n 0 h)
plain_value-print c enc t v e (uint32_type n h) r = cc (set_uint-whole 32 n 0 h)
plain_value-print c enc t v e (uint64_type n h) r = cc (set_uint-whole 64 n 0 h)
plain_value-print c enc t v e (float32_type bits) r = cc
plain_value-print c enc t v e (float64_type bits) r = cc
plain_value-print c enc t v e (utf8_type s) r = refl
plain_value-print c enc t v e (binary_type bs) r = cc
plain_value-print c enc t v e (date32_type z h) r = cc (set_int-print_int 32 z (pos 0) h)
plain_value-print c enc t v e (date64_type z h) r = cc (set_int-print_int 64 z (pos 0) h)
plain_value-print c enc t v e (timestamp_type z h) r = cc

HasType-timestamp :
    (t : String) (v : LiteralValue)
    → str_eq t "timestamp" ≡ true
    → HasType t v
    → (z : ℤ) × IsInt 64 z × (v ≡ int_value 64 z)
HasType-timestamp t v e (timestamp_type z h) = (z, h, refl)
HasType-timestamp t v e _ = cc

literal_of-raw_of :
    (c : Codec) (enc : Encoder) (l : Literal)
    → IsWritable c enc l
    → literal_of c (raw_of enc l) (message (print_value enc l.value)) zero_literal ≡ ok l
unfolding literal_of timestamp_of decode_value print_value
literal_of-raw_of c enc l h = elim (Bool-cases (str_eq l.type "timestamp")) [
  | inl e ↦
      let (z, i, v) = HasType-timestamp l.type l.value e h.0 in
      ground (arith, set_int-print_int 64 z (pos 0) i)
  | inr e ↦ ground (arith, plain_value-print c enc l.type l.value e h.0 h.1)
]

unmarshal_literal-print :
    (c : Codec) (enc : Encoder) (l : Literal)
    → IsWritable c enc l
    → unmarshal_literal c (print_literal enc l) zero_literal ≡ ok l
unfolding unmarshal_literal
unmarshal_literal-print c enc l h =
    cc (unmarshal-print_literal enc l h.2, literal_of-raw_of c enc l h)

set_literals-print :
    (c : Codec) (enc : Encoder) (ls : List Literal)
    → AreWritable c enc ls
    → set_literals c (print_literals enc ls) [] ≡ ok ls
unfolding set_literals print_literals
set_literals-print c enc [] h = refl
set_literals-print c enc (l ∷ ls) h =
    cc (unmarshal_literal-print c enc l h.0, set_literals-print c enc ls h.1)

decode_compare-print :
    (c : Codec) (enc : Encoder) (col : Column) (op : String) (l : Literal)
    → IsWritten c enc (compare col op l)
    → decode_compare c (print_expr enc (compare col op l)) ≡ ok (compare col op l)
unfolding decode_compare print_expr unmarshal store store_struct set_string same_key
decode_compare-print c enc col op l h =
    cc (set_column-print col none h.0, h.1, unmarshal_literal-print c enc l h.2)

decode_is_null-print :
    (enc : Encoder) (col : Column) (b : Bool)
    → IsInt 64 col.index
    → decode_is_null (print_expr enc (is_null col b)) ≡ ok (is_null col b)
unfolding decode_is_null print_expr unmarshal store store_struct set_bool same_key
decode_is_null-print enc col b h = cc (set_column-print col none h)

decode_between-print :
    (c : Codec) (enc : Encoder) (col : Column) (b : Bool) (low high : Literal)
    → IsWritten c enc (between col b low high)
    → decode_between c (print_expr enc (between col b low high)) ≡ ok (between col b low high)
unfolding decode_between print_expr unmarshal store store_struct set_bool same_key
decode_between-print c enc col b low high h = cc (
  set_column-print col none h.0,
  unmarshal_literal-print c enc low h.1,
  unmarshal_literal-print c enc high h.2,
)

decode_in_list-print :
    (c : Codec) (enc : Encoder) (col : Column) (b : Bool) (ls : List Literal)
    → IsWritten c enc (in_list col b ls)
    → decode_in_list c (print_expr enc (in_list col b ls)) ≡ ok (in_list col b ls)
unfolding decode_in_list print_expr unmarshal store store_struct set_bool same_key
decode_in_list-print c enc col b ls h =
    cc (set_column-print col none h.0, set_literals-print c enc ls h.1)

decode_expr-print :
    (c : Codec) (enc : Encoder) (e : Expr)
    → IsWritten c enc e
    → decode_expr c (print_expr enc e) ≡ ok e
unfolding decode_expr decode_kind unmarshal set_kind store set_string same_key print_expr
decode_expr-print c enc (compare col op l) h = decode_compare-print c enc col op l h
decode_expr-print c enc (is_null col b) h = decode_is_null-print enc col b h
decode_expr-print c enc (between col b low high) h = decode_between-print c enc col b low high h
decode_expr-print c enc (in_list col b ls) h = decode_in_list-print c enc col b ls h
decode_expr-print c enc (and l r) h =
    cc (decode_expr-print c enc l h.0, decode_expr-print c enc r h.1)
decode_expr-print c enc (or l r) h =
    cc (decode_expr-print c enc l h.0, decode_expr-print c enc r h.1)
decode_expr-print c enc (not e) h = cc (decode_expr-print c enc e h)

abbrev pub AreWritten : Codec → Encoder → List Expr → Type 0
AreWritten c enc [] = Unit
AreWritten c enc (e ∷ es) = IsWritten c enc e × AreWritten c enc es

decode_items-print :
    (c : Codec) (enc : Encoder) (i : ℕ) (es : List Expr)
    → AreWritten c enc es
    → decode_items c i (print_exprs enc es) ≡ ok es
unfolding decode_items print_exprs
decode_items-print c enc i [] h = refl
decode_items-print c enc i (e ∷ es) h =
    cc (decode_expr-print c enc e h.0, decode_items-print c enc (suc i) es h.1)

-- Every list of predicates that the serializer writes is decoded to the same predicates, in the same
-- order: for literals of each type in its range, the six operators, and columns whose index is an
-- int, if the decoder reads back the floats and the bytes that are written.
pub decode_filters-print_exprs :
    (c : Codec) (enc : Encoder) (es : List Expr)
    → AreWritten c enc es
    → decode_filters c (document (array (print_exprs enc es))) ≡ ok es
unfolding decode_filters
decode_filters-print_exprs c enc es h = decode_items-print c enc 0 es h
