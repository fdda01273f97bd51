-- ===== src/Filter/Sound.antt =====
-- What decodeFilters guarantees of the predicates that it returns, and which error it returns.
use datafusion_go.Base.{
  ℕ, suc, ◌+◌, String, str_eq, ◌≡◌, Bool, true, false, Option, none, some, List, [], ◌∷◌, arith,
  if◌then◌else◌, length,
}
use datafusion_go.Base.Int.{pos}
use datafusion_go.Errors.{Result, ok, err, map_err, GoError, or_else, wrapf, int_arg, >>=-eq-ok}
use datafusion_go.Filter.Json.{
  Json, Items, Members, Document, same_key, unmarshal, null, bool, number, text, array, object,
  no_item, item, no_member, member, malformed, document,
}
use datafusion_go.Filter.Scalars.{Codec}
use datafusion_go.Filter.Decode.{
  Expr, set_kind, decode_raw, decode_both, decode_not, decode_kind, decode_expr, decode_member,
  decode_items, filter_error, decode_filters, and, or,
}
use datafusion_go.Filter.Yields.{
  Yields, Yields-ok, Yields-if, Yields-map_err, Yields->>=, Yields->>=_any, yields, fails,
}
use datafusion_go.Filter.Parts.{
  IsDecoded, decode_compare-IsDecoded, decode_is_null-IsDecoded, decode_between-IsDecoded,
  decode_in_list-IsDecoded,
}

-- What is known of the predicate in a member, if there is one.
YieldsInner : Option (Result Expr) → Type 0
YieldsInner none = Unit
YieldsInner (some r) = Yields IsDecoded r

decode_raw-IsDecoded : (r : Option (Result Expr)) → YieldsInner r → Yields IsDecoded (decode_raw r)
unfolding decode_raw YieldsInner
decode_raw-IsDecoded none h = fails
decode_raw-IsDecoded (some r) h = h

decode_both-IsDecoded :
    (l r : Option (Result Expr)) (make : Expr → Expr → Expr)
    → YieldsInner l
    → YieldsInner r
    → ((a b : Expr) → IsDecoded a → IsDecoded b → IsDecoded (make a b))
    → Yields IsDecoded (decode_both l r make)
unfolding decode_both
decode_both-IsDecoded l r make hl hr k =
    Yields->>= (decode_raw-IsDecoded l hl)
      λ a ha. Yields->>= (decode_raw-IsDecoded r hr) λ b hb. yields (k a b ha hb)

decode_not-IsDecoded : (r : Option (Result Expr)) → YieldsInner r → Yields IsDecoded (decode_not r)
unfolding decode_not
decode_not-IsDecoded r h = Yields->>= (decode_raw-IsDecoded r h) λ e he. yields he

decode_kind-IsDecoded :
    (c : Codec) (j : Json) (inner : String → Option (Result Expr))
    → ((name : String) → YieldsInner (inner name))
    → (kind : String) → Yields IsDecoded (decode_kind c j inner kind)
unfolding decode_kind
decode_kind-IsDecoded c j inner h kind =
    Yields-if (str_eq kind "compare") (λ e. decode_compare-IsDecoded c j)
      λ n0.
        Yields-if (str_eq kind "is_null") (λ e. decode_is_null-IsDecoded j)
          λ n1.
            Yields-if (str_eq kind "between") (λ e. decode_between-IsDecoded c j)
              λ n2.
                Yields-if (str_eq kind "in_list") (λ e. decode_in_list-IsDecoded c j)
                  λ n3.
                    Yields-if (str_eq kind "and")
                      (λ e.
                        decode_both-IsDecoded (inner "left") (inner "right") and (h "left")
                          (h "right") λ a b ha hb. (ha, hb))
                      λ n4.
                        Yields-if (str_eq kind "or")
                          (λ e.
                            decode_both-IsDecoded (inner "left") (inner "right") or (h "left")
                              (h "right") λ a b ha hb. (ha, hb))
                          λ n5.
                            Yields-if (str_eq kind "not")
                              (λ e. decode_not-IsDecoded (inner "expr") (h "expr")) λ n6. fails

YieldsInner-or_else :
    (a b : Option (Result Expr)) → YieldsInner a → YieldsInner b → YieldsInner (or_else a b)
YieldsInner-or_else none b ha hb = hb
YieldsInner-or_else (some r) b ha hb = ha

YieldsInner-if :
    (b : Bool) {r : Result Expr} → Yields IsDecoded r → YieldsInner (if b then some r else none)
unfolding YieldsInner
YieldsInner-if true h = h
YieldsInner-if false h = tt

mutual
  unfolding decode_expr YieldsInner

  decode_expr-Yields : (c : Codec) (j : Json) → Yields IsDecoded (decode_expr c j)
  decode_expr-Yields c (object ms) = Yields->>=_any (unmarshal set_kind (object ms) "") (
      decode_kind-IsDecoded c (object ms) (λ name. decode_member c name ms)
        λ name. decode_member-Yields c name ms)
  decode_expr-Yields c null =
      Yields->>=_any (unmarshal set_kind null "")
        (decode_kind-IsDecoded c null (λ name. none) λ name. tt)
  decode_expr-Yields c (bool b) =
      Yields->>=_any (unmarshal set_kind (bool b) "")
        (decode_kind-IsDecoded c (bool b) (λ name. none) λ name. tt)
  decode_expr-Yields c (number n) =
      Yields->>=_any (unmarshal set_kind (number n) "")
        (decode_kind-IsDecoded c (number n) (λ name. none) λ name. tt)
  decode_expr-Yields c (text s) =
      Yields->>=_any (unmarshal set_kind (text s) "")
        (decode_kind-IsDecoded c (text s) (λ name. none) λ name. tt)
  decode_expr-Yields c (array js) =
      Yields->>=_any (unmarshal set_kind (array js) "")
        (decode_kind-IsDecoded c (array js) (λ name. none) λ name. tt)

  decode_member-Yields :
      (c : Codec) (name : String) (ms : Members) → YieldsInner (decode_member c name ms)
  decode_member-Yields c name no_member = tt
  decode_member-Yields c name (member key j ms) =
      YieldsInner-or_else (decode_member c name ms) _ (decode_member-Yields c name ms)
        (YieldsInner-if (same_key key name) (decode_expr-Yields c j))

abbrev pub AreDecoded : List Expr → Type 0
AreDecoded [] = Unit
AreDecoded (e ∷ es) = IsDecoded e × AreDecoded es

decode_items-AreDecoded : (c : Codec) (i : ℕ) (js : Items) → Yields AreDecoded (decode_items c i js)
unfolding decode_items
decode_items-AreDecoded c i no_item = yields tt
decode_items-AreDecoded c i (item j js) =
    Yields->>= (Yields-map_err _ (decode_expr-Yields c j))
      λ e he. Yields->>= (decode_items-AreDecoded c (suc i) js) λ es hes. yields (he, hes)

decode_filters-Yields : (c : Codec) (d : Document) → Yields AreDecoded (decode_filters c d)
unfolding decode_filters
decode_filters-Yields c (document (array js)) = decode_items-AreDecoded c 0 js
decode_filters-Yields c (document null) = yields tt
decode_filters-Yields c (document _) = fails
decode_filters-Yields c (malformed e) = fails

-- Whatever the document, each predicate that decodeFilters returns has an index that is an int, one of
-- the six operators, and only literals whose value is of their type and in its range, with a known
-- unit if it is a timestamp, at any depth; a literal that the document leaves out is the zero literal.
pub decode_filters-AreDecoded :
    (c : Codec) (d : Document) (es : List Expr) → decode_filters c d ≡ ok es → AreDecoded es
decode_filters-AreDecoded c d es h = Yields-ok (decode_filters-Yields c d) h

unfoldable pub append_items : Items → Items → Items
append_items no_item ks = ks
append_items (item j js) ks = item j (append_items js ks)

decode_items-first_error :
    (c : Codec) (i : ℕ) (js : Items) (es : List Expr) (bad : Json) (e : GoError) (ks : Items)
    → decode_items c i js ≡ ok es
    → decode_expr c bad ≡ err e
    → decode_items c i (append_items js (item bad ks)) ≡ err (filter_error (i + length es) e)
unfolding decode_items append_items
decode_items-first_error c i no_item [] bad e ks h f = ground (arith, f)
decode_items-first_error c i no_item (d ∷ es) bad e ks h f = cc
decode_items-first_error c i (item j js) es bad e ks h f =
    let (d, hd, rest) = >>=-eq-ok (map_err (filter_error i) (decode_expr c j)) _ h in
    let (ds, hds, out) = >>=-eq-ok (decode_items c (suc i) js) _ rest in
    let ih = decode_items-first_error c (suc i) js ds bad e ks hds f in
    let count : suc i + length ds ≡ i + length es = ground (arith, out) in cc (hd, ih, count)

-- A document whose first predicates are decoded and whose next one is not fails as a whole, with that
-- predicate's error under its index, whatever follows it.
pub decode_filters-first_error :
    (c : Codec) (js : Items) (es : List Expr) (bad : Json) (e : GoError) (ks : Items)
    → decode_filters c (document (array js)) ≡ ok es
    → decode_expr c bad ≡ err e
    → decode_filters c (document (array (append_items js (item bad ks))))
      ≡ err (wrapf "decoding pushed filter %d: %w" (int_arg (pos (length es)) ∷ []) e)
unfolding decode_filters filter_error
decode_filters-first_error c js es bad e ks h f =
    let zero_count : 0 + length es ≡ length es = omega arith in
    cc (decode_items-first_error c 0 js es bad e ks h f, zero_count)
