-- ===== src/Filter/Print.antt =====
-- The wire form of filter predicates, as their serializer in rust/src/pushdown.rs writes it, and the
-- predicates that it can write.
use datafusion_go.Base.{
  ℕ, suc, String, str_eq, ◌≡◌, Bool, true, false, List, [], ◌∷◌, some, if◌then◌else◌,
}
use datafusion_go.Base.Int.{ℤ, pos, negsuc}
use datafusion_go.Errors.{ok}
use datafusion_go.Filter.Json.{
  Number, whole, Json, null, bool, number, text, array, object, Items, no_item, item, Members,
  no_member, member,
}
use datafusion_go.Filter.Scalars.{Codec, IsInt, IsUint}
use datafusion_go.Filter.Literals.{
  LiteralValue, nil_value, bool_value, int_value, uint_value, float_value, string_value,
  bytes_value, Literal, is_time_unit,
}
use datafusion_go.Filter.Decode.{
  Column, Expr, compare, is_null, between, in_list, and, or, not, is_compare_op,
}

-- How the serializer writes a float of a width, from its bits, and bytes in base64.
pub record Encoder : Type 0 where
  pub print_float : ℕ → ℕ → Number
  pub encode_base64 : List ℕ → String

-- What is read back as it was written: a float that is finite, and bytes.
abbrev pub Reads : Codec → Encoder → LiteralValue → Type 0
Reads c enc (float_value width bits) = c.parse_float width (enc.print_float width bits) ≡ some bits
Reads c enc (bytes_value bs) = c.decode_base64 (enc.encode_base64 bs) ≡ ok bs
Reads c enc _ = Unit

unfoldable pub print_int : ℤ → Number
print_int (pos n) = whole false n
print_int (negsuc n) = whole true (suc n)

unfoldable pub print_value : Encoder → LiteralValue → Json
unfolding print_int
print_value enc nil_value = null
print_value enc (bool_value b) = bool b
print_value enc (int_value width z) = number (print_int z)
print_value enc (uint_value width n) = number (whole false n)
print_value enc (float_value width bits) = number (enc.print_float width bits)
print_value enc (string_value s) = text s
print_value enc (bytes_value bs) = text (enc.encode_base64 bs)

-- A timestamp has its unit and, if it is not empty, its time zone.
print_zone : String → Members
print_zone tz = if str_eq tz "" then no_member else member "tz" (text tz) no_member

print_rest : Literal → Members
unfolding print_zone
print_rest l =
    if str_eq l.type "timestamp"
    then member "unit" (text l.unit) (print_zone l.time_zone)
    else no_member

unfoldable pub print_literal : Encoder → Literal → Json
unfolding print_value print_rest
print_literal enc l =
    object (member "type" (text l.type) (member "value" (print_value enc l.value) (print_rest l)))

unfoldable pub print_literals : Encoder → List Literal → Items
unfolding print_literal
print_literals enc [] = no_item
print_literals enc (l ∷ ls) = item (print_literal enc l) (print_literals enc ls)

unfoldable pub print_column : Column → Json
unfolding print_int
print_column col =
    object (member "name" (text col.name) (member "index" (number (print_int col.index)) no_member))

-- A node of the wire form: the tag `kind` and then the members.
node : String → Members → Json
node kind ms = object (member "kind" (text kind) ms)

unfoldable pub print_expr : Encoder → Expr → Json
unfolding print_column print_literals node
print_expr enc (compare col op l) = node "compare" (
    member "column" (print_column col)
      (member "op" (text op) (member "literal" (print_literal enc l) no_member)))
print_expr enc (is_null col b) =
    node "is_null" (member "column" (print_column col) (member "negated" (bool b) no_member))
print_expr enc (between col b low high) = node "between" (
    member "column" (print_column col) (
      member "negated" (bool b)
        (member "low" (print_literal enc low) (member "high" (print_literal enc high) no_member))))
print_expr enc (in_list col b ls) = node "in_list" (
    member "column" (print_column col)
      (member "negated" (bool b) (member "list" (array (print_literals enc ls)) no_member)))
print_expr enc (and l r) =
    node "and" (member "left" (print_expr enc l) (member "right" (print_expr enc r) no_member))
print_expr enc (or l r) =
    node "or" (member "left" (print_expr enc l) (member "right" (print_expr enc r) no_member))
print_expr enc (not e) = node "not" (member "expr" (print_expr enc e) no_member)

unfoldable pub print_exprs : Encoder → List Expr → Items
unfolding print_expr
print_exprs enc [] = no_item
print_exprs enc (e ∷ es) = item (print_expr enc e) (print_exprs enc es)

-- The types of a literal with the value that it has, in the range of the type.
pub data HasType : String → LiteralValue → Type 0 where
  bool_type : (b : Bool) → HasType "bool" (bool_value b)
  int8_type : (z : ℤ) → IsInt 8 z → HasType "int8" (int_value 8 z)
  int16_type : (z : ℤ) → IsInt 16 z → HasType "int16" (int_value 16 z)
  int32_type : (z : ℤ) → IsInt 32 z → HasType "int32" (int_value 32 z)
  int64_type : (z : ℤ) → IsInt 64 z → HasType "int64" (int_value 64 z)
  uint8_type : (n : ℕ) → IsUint 8 n → HasType "uint8" (uint_value 8 n)
  uint16_type : (n : ℕ) → IsUint 16 n → HasType "uint16" (uint_value 16 n)
  uint32_type : (n : ℕ) → IsUint 32 n → HasType "uint32" (uint_value 32 n)
  uint64_type : (n : ℕ) → IsUint 64 n → HasType "uint64" (uint_value 64 n)
  float32_type : (bits : ℕ) → HasType "float32" (float_value 32 bits)
  float64_type : (bits : ℕ) → HasType "float64" (float_value 64 bits)
  utf8_type : (s : String) → HasType "utf8" (string_value s)
  binary_type : (bs : List ℕ) → HasType "binary" (bytes_value bs)
  date32_type : (z : ℤ) → IsInt 32 z → HasType "date32" (int_value 32 z)
  date64_type : (z : ℤ) → IsInt 64 z → HasType "date64" (int_value 64 z)
  timestamp_type : (z : ℤ) → IsInt 64 z → HasType "timestamp" (int_value 64 z)

-- Only a timestamp has a unit and a time zone.
abbrev pub HasUnit : Bool → Literal → Type 0
HasUnit true l = is_time_unit l.unit ≡ true
HasUnit false l = (l.unit ≡ "") × (l.time_zone ≡ "")

abbrev pub IsWritable : Codec → Encoder → Literal → Type 0
IsWritable c enc l =
    HasType l.type l.value × Reads c enc l.value × HasUnit (str_eq l.type "timestamp") l

abbrev pub AreWritable : Codec → Encoder → List Literal → Type 0
AreWritable c enc [] = Unit
AreWritable c enc (l ∷ ls) = IsWritable c enc l × AreWritable c enc ls

-- The predicates that the serializer writes: literals of the types above, one of the six operators,
-- and a column's index that is an int.
abbrev pub IsWritten : Codec → Encoder → Expr → Type 0
IsWritten c enc (compare col op l) =
    IsInt 64 col.index × (is_compare_op op ≡ true) × IsWritable c enc l
IsWritten c enc (is_null col b) = IsInt 64 col.index
IsWritten c enc (between col b low high) =
    IsInt 64 col.index × IsWritable c enc low × IsWritable c enc high
IsWritten c enc (in_list col b ls) = IsInt 64 col.index × AreWritable c enc ls
IsWritten c enc (and l r) = IsWritten c enc l × IsWritten c enc r
IsWritten c enc (or l r) = IsWritten c enc l × IsWritten c enc r
IsWritten c enc (not e) = IsWritten c enc e
