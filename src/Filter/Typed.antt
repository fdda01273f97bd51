-- ===== src/Filter/Typed.antt =====
-- Literal.UnmarshalJSON returns values of their type.
use datafusion_go.Base.{
  ℕ, ◌^◌, String, str_eq, eq_iff, ◌≡◌, sym, subst, true, false, arith, ltb, ltb→lt, When,
}
use datafusion_go.Base.Int.{ℤ, pos, negsuc}
use datafusion_go.Errors.{Result}
use datafusion_go.Filter.Json.{
  Json, RawMessage, unmarshal, whole, fractional, null, number, empty, message,
}
use datafusion_go.Filter.Scalars.{Codec, IsInt, IsUint, overflow_int, fit_int, set_int, set_uint}
use datafusion_go.Filter.Literals.{
  LiteralValue, Literal, RawLiteral, zero_raw, set_raw, decode_value, decode_text, decode_bytes,
  is_time_unit, plain_value, timestamp_of, literal_of, unmarshal_literal,
}
use datafusion_go.Filter.Print.{
  HasType, bool_type, int8_type, int16_type, int32_type, int64_type, uint8_type, uint16_type,
  uint32_type, uint64_type, float32_type, float64_type, utf8_type, binary_type, date32_type,
  date64_type, timestamp_type,
}
use datafusion_go.Filter.Yields.{
  Yields, Yields-if, Yields-map_err, Yields->>=, Yields->>=_any, any_Yields, yields, fails,
}

overflow_int-IsInt : (w : ℕ) (z : ℤ) → overflow_int w z ≡ false → IsInt w z
unfolding overflow_int
overflow_int-IsInt w (pos n) h = ground arith
overflow_int-IsInt w (negsuc n) h = ground arith

fit_int-IsInt : (w : ℕ) (j : Json) (z : ℤ) → Yields (IsInt w) (fit_int w j z)
unfolding fit_int
fit_int-IsInt w j z =
    Yields-if (overflow_int w z) (λ e. fails) (λ e. yields (overflow_int-IsInt w z e))

pub set_int-IsInt : (w : ℕ) (j : Json) (old : ℤ) → IsInt w old → Yields (IsInt w) (set_int w j old)
unfolding set_int
set_int-IsInt w (number (whole minus n)) old h = fit_int-IsInt w _ _
set_int-IsInt w (number (fractional s)) old h = fails
set_int-IsInt w null old h = yields h
set_int-IsInt w _ old h = fails

set_uint-IsUint : (w : ℕ) (j : Json) (old : ℕ) → IsUint w old → Yields (IsUint w) (set_uint w j old)
unfolding set_uint
set_uint-IsUint w (number (whole false n)) old h =
    Yields-if (ltb n (2 ^ w)) (λ e. yields (ltb→lt n (2 ^ w) e)) (λ e. fails)
set_uint-IsUint w (number _) old h = fails
set_uint-IsUint w null old h = yields h
set_uint-IsUint w _ old h = fails

-- A value of its type, and the unit of a timestamp.
abbrev pub IsTyped : Literal → Type 0
IsTyped l = HasType l.type l.value × When (str_eq l.type "timestamp") (is_time_unit l.unit ≡ true)

of_type : {t name : String} {v : LiteralValue} → str_eq t name ≡ true → HasType name v → HasType t v
of_type {t} {name} {v} e h = subst (λ s. HasType s v) (sym ((eq_iff t name).0 e)) h

decode_value-HasType {ℓ} :
    {A : Type ℓ} {Q : A → Type 0} {t name : String} {r : Result A} {as_value : A → LiteralValue}
    → str_eq t name ≡ true
    → Yields Q r
    → ((a : A) → Q a → HasType name (as_value a))
    → Yields (HasType t) (decode_value t r as_value)
unfolding decode_value
decode_value-HasType e r k = Yields->>= (Yields-map_err _ r) λ a q. yields (of_type e (k a q))

plain_value-HasType : (c : Codec) (t : String) (j : Json) → Yields (HasType t) (plain_value c t j)
unfolding plain_value
plain_value-HasType c t j =
    Yields-if _ (λ e. decode_value-HasType e (any_Yields _) (λ b q. bool_type b))
      λ n0.
        Yields-if _
          (λ e. decode_value-HasType e (set_int-IsInt 8 j (pos 0) (omega arith)) int8_type)
          λ n1.
            Yields-if _
              (λ e. decode_value-HasType e (set_int-IsInt 16 j (pos 0) (omega arith)) int16_type)
              λ n2.
                Yields-if _
                  (λ e.
                    decode_value-HasType e (set_int-IsInt 32 j (pos 0) (omega arith)) int32_type)
                  λ n3.
                    Yields-if _
                      (λ e.
                        decode_value-HasType e (set_int-IsInt 64 j (pos 0) (omega arith))
                          int64_type)
                      λ n4.
                        Yields-if _
                          (λ e.
                            decode_value-HasType e (set_uint-IsUint 8 j 0 (omega arith)) uint8_type)
                          λ n5.
                            Yields-if _
                              (λ e.
                                decode_value-HasType e (set_uint-IsUint 16 j 0 (omega arith))
                                  uint16_type)
                              λ n6.
                                Yields-if _
                                  (λ e.
                                    decode_value-HasType e (set_uint-IsUint 32 j 0 (omega arith))
                                      uint32_type)
                                  λ n7.
                                    Yields-if _
                                      (λ e.
                                        decode_value-HasType e
                                          (set_uint-IsUint 64 j 0 (omega arith)) uint64_type)
                                      λ n8.
                                        Yields-if _
                                          (λ e.
                                            decode_value-HasType e (any_Yields _)
                                              (λ b q. float32_type b))
                                          λ n9.
                                            Yields-if _
                                              (λ e.
                                                decode_value-HasType e (any_Yields _)
                                                  (λ b q. float64_type b))
                                              λ n10.
                                                Yields-if _
                                                  (λ e.
                                                    decode_value-HasType e (any_Yields _)
                                                      (λ s q. utf8_type s))
                                                  λ n11.
                                                    Yields-if _
                                                      (λ e. Yields->>=_any (decode_text t j) λ s.
                                                        Yields->>=_any (decode_bytes c t s)
                                                          λ b. yields (of_type e (binary_type b)))
                                                      λ n12.
                                                        Yields-if _
                                                          (λ e.
                                                            decode_value-HasType e
                                                            (set_int-IsInt 32 j (pos 0)
                                                            (omega arith))
                                                            date32_type)
                                                          λ n13.
                                                            Yields-if _
                                                            (λ e.
                                                            decode_value-HasType e
                                                            (set_int-IsInt 64 j (pos 0)
                                                            (omega arith))
                                                            date64_type)
                                                            λ n14. fails

timestamp_of-IsTyped :
    (raw : RawLiteral) (v : LiteralValue)
    → str_eq raw.type "timestamp" ≡ true
    → HasType raw.type v
    → Yields IsTyped (timestamp_of raw v)
unfolding timestamp_of
timestamp_of-IsTyped raw v e h =
    Yields-if (is_time_unit raw.unit) (λ u. yields (h, rw e u)) (λ u. fails)

literal_of-IsTyped :
    (c : Codec) (raw : RawLiteral) (m : RawMessage) (l : Literal)
    → Yields IsTyped (literal_of c raw m l)
unfolding literal_of
literal_of-IsTyped c raw empty l = fails
literal_of-IsTyped c raw (message j) l =
    Yields-if (str_eq raw.type "timestamp")
      (λ e.
        Yields->>=
          (decode_value-HasType e (set_int-IsInt 64 j (pos 0) (omega arith)) timestamp_type)
          λ v h. timestamp_of-IsTyped raw v e h)
      (λ e. Yields->>= (plain_value-HasType c raw.type j) λ v h. yields (h, rw e tt))

pub unmarshal_literal-IsTyped :
    (c : Codec) (j : Json) (l : Literal) → Yields IsTyped (unmarshal_literal c j l)
unfolding unmarshal_literal
unmarshal_literal-IsTyped c j l =
    Yields->>= (Yields-map_err _ (any_Yields (unmarshal set_raw j zero_raw)))
      λ raw u. literal_of-IsTyped c raw raw.value l
