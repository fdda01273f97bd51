-- ===== src/Filter/Decode.antt =====
-- decodeFilters and decodeExpr of internal/native/expr.go, with the predicates that they build.
use datafusion_go.Base.{
  ℕ, suc, String, str_eq, Bool, false, ◌||◌, Option, none, some, List, [], ◌∷◌, if◌then◌else◌,
}
use datafusion_go.Base.Int.{ℤ, pos}
use datafusion_go.Errors.{
  GoError, errorf, wrapf, int_arg, str_arg, Result, ok, err, ◌>>=◌, map_err, or_else,
}
use datafusion_go.Filter.Json.{
  Json, null, array, object, Items, no_item, item, Members, no_member, member, Document, malformed,
  document, Decoding, decoded, aborted, Setter, same_key, type_error, save_error, store,
  store_struct, decode_struct, unmarshal,
}
use datafusion_go.Filter.Scalars.{Codec, set_bool, set_string, set_int}
use datafusion_go.Filter.Literals.{Literal, zero_literal, unmarshal_literal}

-- `index` is an int.
pub record Column : Type 0 where
  pub name : String
  pub index : ℤ

pub data Expr : Type 0 where
  compare : Column → String → Literal → Expr
  is_null : Column → Bool → Expr
  between : Column → Bool → Literal → Literal → Expr
  in_list : Column → Bool → List Literal → Expr
  and or : Expr → Expr → Expr
  not : Expr → Expr

abbrev pub zero_column : Column
zero_column = record { name = ""; index = pos 0 }

-- The structs that the kinds of predicate are decoded into first.
pub record RawCompare : Type 0 where
  pub column : Column
  pub op : String
  pub literal : Literal

pub record RawIsNull : Type 0 where
  pub column : Column
  pub negated : Bool

pub record RawBetween : Type 0 where
  pub column : Column
  pub negated : Bool
  pub low : Literal
  pub high : Literal

pub record RawInList : Type 0 where
  pub column : Column
  pub negated : Bool
  pub list : List Literal

unfoldable pub set_kind : Setter String
unfolding store
set_kind key v saved kind =
    if same_key key "kind"
    then store (set_string v kind) (λ s. s) saved kind
    else decoded saved kind

unfoldable pub set_column : Setter Column
unfolding store
set_column key v saved col =
    if same_key key "name"
    then store (set_string v col.name) (λ s. record col { name = s }) saved col
    else if same_key key "index"
    then store (set_int 64 v col.index) (λ i. record col { index = i }) saved col
    else decoded saved col

-- A literal in a struct: the error of its UnmarshalJSON stops the decoder.
unfoldable pub store_literal {ℓ} :
    {A : Type ℓ} → Result Literal → (Literal → A) → Option GoError → Decoding A
store_literal (ok l) put saved = decoded saved (put l)
store_literal (err e) put saved = aborted e

-- The elements of a list are decoded into the ones of the list that is there, and then into new ones.
unfoldable pub set_literals : Codec → Items → List Literal → Result (List Literal)
set_literals c no_item old = ok []
set_literals c (item j js) [] =
    unmarshal_literal c j zero_literal >>= λ l. set_literals c js [] >>= λ ls. ok (l ∷ ls)
set_literals c (item j js) (o ∷ old) =
    unmarshal_literal c j o >>= λ l. set_literals c js old >>= λ ls. ok (l ∷ ls)

unfoldable pub store_list : Result (List Literal) → Option GoError → Decoding (List Literal)
store_list (ok ls) saved = decoded saved ls
store_list (err e) saved = aborted e

unfoldable pub decode_list : Codec → Json → Option GoError → List Literal → Decoding (List Literal)
unfolding store_list
decode_list c (array js) saved old = store_list (set_literals c js old) saved
decode_list c null saved old = decoded saved []
decode_list c j saved old = decoded (save_error saved (type_error j "[]Literal")) old

unfoldable pub set_compare : Codec → Setter RawCompare
unfolding set_column store_literal
set_compare c key v saved raw =
    if same_key key "column"
    then store_struct (decode_struct set_column v saved raw.column)
        (λ col. record raw { column = col })
    else if same_key key "op"
    then store (set_string v raw.op) (λ s. record raw { op = s }) saved raw
    else if same_key key "literal"
    then store_literal (unmarshal_literal c v raw.literal) (λ l. record raw { literal = l }) saved
    else decoded saved raw

unfoldable pub set_is_null : Setter RawIsNull
unfolding set_column
set_is_null key v saved raw =
    if same_key key "column"
    then store_struct (decode_struct set_column v saved raw.column)
        (λ col. record raw { column = col })
    else if same_key key "negated"
    then store (set_bool v raw.negated) (λ b. record raw { negated = b }) saved raw
    else decoded saved raw

unfoldable pub set_between : Codec → Setter RawBetween
unfolding set_column store_literal
set_between c key v saved raw =
    if same_key key "column"
    then store_struct (decode_struct set_column v saved raw.column)
        (λ col. record raw { column = col })
    else if same_key key "negated"
    then store (set_bool v raw.negated) (λ b. record raw { negated = b }) saved raw
    else if same_key key "low"
    then store_literal (unmarshal_literal c v raw.low) (λ l. record raw { low = l }) saved
    else if same_key key "high"
    then store_literal (unmarshal_literal c v raw.high) (λ l. record raw { high = l }) saved
    else decoded saved raw

unfoldable pub set_in_list : Codec → Setter RawInList
unfolding set_column decode_list
set_in_list c key v saved raw =
    if same_key key "column"
    then store_struct (decode_struct set_column v saved raw.column)
        (λ col. record raw { column = col })
    else if same_key key "negated"
    then store (set_bool v raw.negated) (λ b. record raw { negated = b }) saved raw
    else if same_key key "list"
    then store_struct (decode_list c v saved raw.list) (λ ls. record raw { list = ls })
    else decoded saved raw

unfoldable pub is_compare_op : String → Bool
is_compare_op op =
    str_eq op "eq"
    || str_eq op "neq"
    || str_eq op "lt"
    || str_eq op "lteq"
    || str_eq op "gt"
    || str_eq op "gteq"

unfoldable pub compare_of : RawCompare → Result Expr
unfolding is_compare_op
compare_of raw =
    if is_compare_op raw.op
    then ok (compare raw.column raw.op raw.literal)
    else err (errorf "unknown comparison operator %q" (str_arg raw.op ∷ []))

unfoldable pub decode_compare : Codec → Json → Result Expr
unfolding set_compare compare_of
decode_compare c j =
    unmarshal (set_compare c) j (record { column = zero_column; op = ""; literal = zero_literal })
    >>= compare_of

unfoldable pub decode_is_null : Json → Result Expr
unfolding set_is_null
decode_is_null j =
    unmarshal set_is_null j (record { column = zero_column; negated = false }) >>= λ raw.
    ok (is_null raw.column raw.negated)

unfoldable pub decode_between : Codec → Json → Result Expr
unfolding set_between
decode_between c j =
    unmarshal (set_between c) j
      (record { column = zero_column; negated = false; low = zero_literal; high = zero_literal })
    >>= λ raw. ok (between raw.column raw.negated raw.low raw.high)

unfoldable pub decode_in_list : Codec → Json → Result Expr
unfolding set_in_list
decode_in_list c j =
    unmarshal (set_in_list c) j (record { column = zero_column; negated = false; list = [] })
    >>= λ raw. ok (in_list raw.column raw.negated raw.list)

-- A predicate inside another, where it is decoded from a RawMessage that may be empty.
unfoldable pub decode_raw : Option (Result Expr) → Result Expr
decode_raw none = err (errorf "unexpected end of JSON input" [])
decode_raw (some r) = r

unfoldable pub decode_both :
    Option (Result Expr) → Option (Result Expr) → (Expr → Expr → Expr) → Result Expr
unfolding decode_raw
decode_both l r make = decode_raw l >>= λ left. decode_raw r >>= λ right. ok (make left right)

unfoldable pub decode_not : Option (Result Expr) → Result Expr
unfolding decode_raw
decode_not r = decode_raw r >>= λ e. ok (not e)

-- The switch on the kind. `inner` gives what the predicate in a member decodes to.
unfoldable pub decode_kind : Codec → Json → (String → Option (Result Expr)) → String → Result Expr
unfolding decode_compare decode_is_null decode_between decode_in_list decode_not decode_both
decode_kind c j inner kind =
    if str_eq kind "compare"
    then decode_compare c j
    else if str_eq kind "is_null"
    then decode_is_null j
    else if str_eq kind "between"
    then decode_between c j
    else if str_eq kind "in_list"
    then decode_in_list c j
    else if str_eq kind "and"
    then decode_both (inner "left") (inner "right") and
    else if str_eq kind "or"
    then decode_both (inner "left") (inner "right") or
    else if str_eq kind "not"
    then decode_not (inner "expr")
    else err (errorf "unknown filter expression kind %q" (str_arg kind ∷ []))

-- decodeExpr. A RawMessage field takes the last member with its key, and `decode_member` decodes
-- that; a null has no members.
unfoldable mutual
  pub decode_expr : Codec → Json → Result Expr
  decode_expr c (object ms) =
      unmarshal set_kind (object ms) ""
      >>= decode_kind c (object ms) (λ name. decode_member c name ms)
  decode_expr c j = unmarshal set_kind j "" >>= decode_kind c j (λ name. none)

  pub decode_member : Codec → String → Members → Option (Result Expr)
  decode_member c name no_member = none
  decode_member c name (member key j ms) =
      or_else (decode_member c name ms) (if same_key key name then some (decode_expr c j) else none)

unfoldable pub filter_error : ℕ → GoError → GoError
filter_error i = wrapf "decoding pushed filter %d: %w" (int_arg (pos i) ∷ [])

-- The loop of decodeFilters, from the element `i` on.
unfoldable pub decode_items : Codec → ℕ → Items → Result (List Expr)
unfolding filter_error
decode_items c i no_item = ok []
decode_items c i (item j js) = map_err (filter_error i) (decode_expr c j) >>= λ e.
    decode_items c (suc i) js >>= λ es. ok (e ∷ es)

-- decodeFilters. A null is decoded into a nil slice.
unfoldable pub decode_filters : Codec → Document → Result (List Expr)
decode_filters c (document (array js)) = decode_items c 0 js
decode_filters c (document null) = ok []
decode_filters c (document j) =
    err (wrapf "decoding pushed filters: %w" [] (type_error j "[]json.RawMessage"))
decode_filters c (malformed e) = err (wrapf "decoding pushed filters: %w" [] e)
