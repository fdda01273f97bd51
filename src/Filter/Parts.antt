-- ===== src/Filter/Parts.antt =====
-- What the structs of decodeExpr keep, and each kind of predicate without others inside.
use datafusion_go.Base.{◌≡◌, refl, ◌⊎◌, inl, inr, true, Option, List, [], ◌∷◌, arith}
use datafusion_go.Errors.{Result, GoError}
use datafusion_go.Filter.Json.{
  Json, Items, same_key, store_struct, decode_struct, null, array, no_item, item,
}
use datafusion_go.Filter.Scalars.{Codec, IsInt, set_bool, set_string}
use datafusion_go.Filter.Literals.{Literal, zero_literal}
use datafusion_go.Filter.Decode.{
  Column, Expr, RawCompare, set_column, store_literal, set_literals, store_list, decode_list,
  set_compare, set_is_null, set_between, set_in_list, is_compare_op, compare_of, decode_compare,
  decode_is_null, decode_between, decode_in_list, compare, is_null, between, in_list, and, or, not,
}
use datafusion_go.Filter.Yields.{
  Yields, Keeps, Yields-if, Keeps-if, Yields->>=, Keeps-store, Keeps-store_any, Keeps-store_struct,
  Keeping, Keeps-struct, Yields-unmarshal, yields, fails, kept, stopped,
}
use datafusion_go.Filter.Typed.{set_int-IsInt, IsTyped, unmarshal_literal-IsTyped}

-- A literal that its document leaves out stays as the struct has it.
abbrev pub IsKnown : Literal → Type 0
IsKnown l = IsTyped l ⊎ (l ≡ zero_literal)

abbrev pub AreTyped : List Literal → Type 0
AreTyped [] = Unit
AreTyped (l ∷ ls) = IsTyped l × AreTyped ls

-- Indices that are ints, operators of the six, and literals of their types.
abbrev pub IsDecoded : Expr → Type 0
IsDecoded (compare col op l) = IsInt 64 col.index × (is_compare_op op ≡ true) × IsKnown l
IsDecoded (is_null col b) = IsInt 64 col.index
IsDecoded (between col b low high) = IsInt 64 col.index × IsKnown low × IsKnown high
IsDecoded (in_list col b ls) = IsInt 64 col.index × AreTyped ls
IsDecoded (and l r) = IsDecoded l × IsDecoded r
IsDecoded (or l r) = IsDecoded l × IsDecoded r
IsDecoded (not e) = IsDecoded e

set_literals-AreTyped :
    (c : Codec) (js : Items) (old : List Literal) → Yields AreTyped (set_literals c js old)
unfolding set_literals
set_literals-AreTyped c no_item old = yields tt
set_literals-AreTyped c (item j js) [] =
    Yields->>= (unmarshal_literal-IsTyped c j zero_literal)
      λ l h. Yields->>= (set_literals-AreTyped c js []) λ ls hs. yields (h, hs)
set_literals-AreTyped c (item j js) (o ∷ old) =
    Yields->>= (unmarshal_literal-IsTyped c j o)
      λ l h. Yields->>= (set_literals-AreTyped c js old) λ ls hs. yields (h, hs)

store_list-AreTyped :
    {r : Result (List Literal)} (saved : Option GoError)
    → Yields AreTyped r
    → Keeps AreTyped (store_list r saved)
unfolding store_list
store_list-AreTyped saved (yields h) = kept h
store_list-AreTyped saved fails = stopped

decode_list-AreTyped :
    (c : Codec) (j : Json) (saved : Option GoError) (old : List Literal)
    → AreTyped old
    → Keeps AreTyped (decode_list c j saved old)
unfolding decode_list
decode_list-AreTyped c (array js) saved old h =
    store_list-AreTyped saved (set_literals-AreTyped c js old)
decode_list-AreTyped c null saved old h = kept tt
decode_list-AreTyped c _ saved old h = kept h

Keeps-store_literal {ℓ} :
    {A : Type ℓ} {P : A → Type 0} {r : Result Literal} (put : Literal → A) (saved : Option GoError)
    → Yields IsTyped r
    → ((l : Literal) → IsTyped l → P (put l))
    → Keeps P (store_literal r put saved)
unfolding store_literal
Keeps-store_literal put saved (yields {a = l} h) k = kept (k l h)
Keeps-store_literal put saved fails k = stopped

abbrev HasIndex : Column → Type 0
HasIndex col = IsInt 64 col.index

set_column-HasIndex : Keeping HasIndex set_column
unfolding set_column
set_column-HasIndex key v saved col h =
    Keeps-if _ (Keeps-store_any _ _ saved col (λ s. h) h) (
      Keeps-if _ (Keeps-store _ saved col (set_int-IsInt 64 v col.index h) (λ i hi. hi) h) (kept h))

-- The column of a predicate, decoded into a struct that keeps the index of its own.
column_step {ℓ} :
    {A : Type ℓ} {P : A → Type 0} (v : Json) (saved : Option GoError) (col : Column)
    (put : Column → A)
    → HasIndex col
    → ((b : Column) → HasIndex b → P (put b))
    → Keeps P (store_struct (decode_struct set_column v saved col) put)
column_step v saved col put h k =
    Keeps-store_struct put (Keeps-struct HasIndex set_column set_column-HasIndex v saved col h) k

set_compare-keeps :
    (c : Codec) → Keeping (λ raw. HasIndex raw.column × IsKnown raw.literal) (set_compare c)
unfolding set_compare
set_compare-keeps c key v saved raw h =
    Keeps-if (same_key key "column")
      (column_step v saved raw.column (λ b. record raw { column = b }) h.0 (λ b hb. (hb, h.1)))
      (Keeps-if (same_key key "op")
        (Keeps-store_any (set_string v raw.op) (λ s. record raw { op = s }) saved raw (λ s. h) h)
        (Keeps-if (same_key key "literal")
          (Keeps-store_literal (λ l. record raw { literal = l }) saved
            (unmarshal_literal-IsTyped c v raw.literal) (λ l hl. (h.0, inl hl)))
          (kept {a = raw} h)))

set_is_null-keeps : Keeping (λ raw. HasIndex raw.column) set_is_null
unfolding set_is_null
set_is_null-keeps key v saved raw h =
    Keeps-if (same_key key "column")
      (column_step v saved raw.column (λ b. record raw { column = b }) h (λ b hb. hb))
      (Keeps-if (same_key key "negated")
        (Keeps-store_any (set_bool v raw.negated) (λ b. record raw { negated = b }) saved raw
          (λ b. h) h)
        (kept {a = raw} h))

set_between-keeps :
    (c : Codec)
    → Keeping (λ raw. HasIndex raw.column × IsKnown raw.low × IsKnown raw.high) (set_between c)
unfolding set_between
set_between-keeps c key v saved raw h =
    Keeps-if (same_key key "column")
      (column_step v saved raw.column (λ b. record raw { column = b }) h.0 (λ b hb. (hb, h.1, h.2)))
      (Keeps-if (same_key key "negated")
        (Keeps-store_any (set_bool v raw.negated) (λ b. record raw { negated = b }) saved raw
          (λ b. h) h)
        (Keeps-if (same_key key "low")
          (Keeps-store_literal (λ l. record raw { low = l }) saved
            (unmarshal_literal-IsTyped c v raw.low) (λ l hl. (h.0, inl hl, h.2)))
          (Keeps-if (same_key key "high")
            (Keeps-store_literal (λ l. record raw { high = l }) saved
              (unmarshal_literal-IsTyped c v raw.high) (λ l hl. (h.0, h.1, inl hl)))
            (kept {a = raw} h))))

set_in_list-keeps :
    (c : Codec) → Keeping (λ raw. HasIndex raw.column × AreTyped raw.list) (set_in_list c)
unfolding set_in_list
set_in_list-keeps c key v saved raw h =
    Keeps-if (same_key key "column")
      (column_step v saved raw.column (λ b. record raw { column = b }) h.0 (λ b hb. (hb, h.1)))
      (Keeps-if (same_key key "negated")
        (Keeps-store_any (set_bool v raw.negated) (λ b. record raw { negated = b }) saved raw
          (λ b. h) h)
        (Keeps-if (same_key key "list")
          (Keeps-store_struct (λ ls. record raw { list = ls })
            (decode_list-AreTyped c v saved raw.list h.1) (λ ls hl. (h.0, hl)))
          (kept {a = raw} h)))

compare_of-IsDecoded :
    (raw : RawCompare)
    → HasIndex raw.column × IsKnown raw.literal
    → Yields IsDecoded (compare_of raw)
unfolding compare_of
compare_of-IsDecoded raw h =
    Yields-if (is_compare_op raw.op) (λ e. yields (h.0, e, h.1)) (λ e. fails)

pub decode_compare-IsDecoded : (c : Codec) (j : Json) → Yields IsDecoded (decode_compare c j)
unfolding decode_compare
decode_compare-IsDecoded c j =
    Yields->>=
      (Yields-unmarshal _ (set_compare c) (set_compare-keeps c) j _ (omega arith, inr refl))
      compare_of-IsDecoded

pub decode_is_null-IsDecoded : (j : Json) → Yields IsDecoded (decode_is_null j)
unfolding decode_is_null
decode_is_null-IsDecoded j =
    Yields->>= (Yields-unmarshal _ set_is_null set_is_null-keeps j _ (omega arith))
      λ raw h. yields h

pub decode_between-IsDecoded : (c : Codec) (j : Json) → Yields IsDecoded (decode_between c j)
unfolding decode_between
decode_between-IsDecoded c j =
    Yields->>=
      (Yields-unmarshal _ (set_between c) (set_between-keeps c) j _
        (omega arith, inr refl, inr refl))
      λ raw h. yields h

pub decode_in_list-IsDecoded : (c : Codec) (j : Json) → Yields IsDecoded (decode_in_list c j)
unfolding decode_in_list
decode_in_list-IsDecoded c j =
    Yields->>= (Yields-unmarshal _ (set_in_list c) (set_in_list-keeps c) j _ (omega arith, tt))
      λ raw h. yields h
