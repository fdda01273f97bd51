-- ===== src/Params/Pipeline.antt =====
-- From the arguments of a query to the C parameters: normalizeNamedValueSlice, then statementParams.
use datafusion_go.Base.{ℕ, suc, ◌+◌, ◌≤◌, ◌≡◌, refl, subst, ap, List, [], ◌∷◌, length, arith}
use datafusion_go.Base.Int.{ℤ, pos, negsuc}
use datafusion_go.Errors.{ok}
use datafusion_go.Params.Value.{GoValue}
use datafusion_go.Params.Normalize.{Clock, normalize}
use datafusion_go.Params.Args.{
  NamedValue, default_ordinal, normalize_arg, normalize_from, normalize_slice,
  positional_named_values, positional_from,
}
use datafusion_go.Params.Bind.{Block, CParameter, statement_params}
use datafusion_go.Params.Lossless.{IsOrdinal, AreBound, AreBindable, statement_params-AreBound}
use datafusion_go.Params.Accepted.{Ensures, Ensures-bind, Ensures-then, normalize-IsNormal}

-- Each ordinal, or the position where there is none, is between 1 and `n`.
abbrev pub AreOrdinals : ℕ → ℕ → List NamedValue → Type 0
AreOrdinals n i [] = Unit
AreOrdinals n i (a ∷ args) = IsOrdinal n (default_ordinal a.ordinal i) × AreOrdinals n (suc i) args

-- The arguments that normalization makes of `args`: each has the name it had, the ordinal it had or
-- its position, and the normalized value.
abbrev pub AreNormalized : Clock → ℕ → List NamedValue → List NamedValue → Type 0
AreNormalized c i [] [] = Unit
AreNormalized c i (a ∷ args) (b ∷ bs) =
    (b.name ≡ a.name)
    × (b.ordinal ≡ default_ordinal a.ordinal i)
    × (normalize c a.value ≡ ok b.value)
    × AreNormalized c (suc i) args bs
AreNormalized c i _ _ = ⊥

normalize_arg-Ensures :
    (c : Clock) (i : ℕ) (a : NamedValue)
    → Ensures
        (λ (b : NamedValue).
          (b.name ≡ a.name)
          × (b.ordinal ≡ default_ordinal a.ordinal i)
          × (normalize c a.value ≡ ok b.value))
        (normalize_arg c i a)
unfolding normalize_arg
normalize_arg-Ensures c i a = Ensures-bind _ (normalize c a.value) _ (λ v e. (refl, refl, e))

normalize_from-Ensures :
    (c : Clock) (i : ℕ) (args : List NamedValue)
    → Ensures (AreNormalized c i args) (normalize_from c i args)
unfolding normalize_from
normalize_from-Ensures c i [] = tt
normalize_from-Ensures c i (a ∷ args) =
    Ensures-then _ _ (normalize_arg c i a) _ (normalize_arg-Ensures c i a) λ b (n, o, v).
      Ensures-then _ _ (normalize_from c (suc i) args) _ (normalize_from-Ensures c (suc i) args)
        λ bs rest. (n, o, v, rest)

-- Where normalizing an argument list succeeds, it returns one argument for each, with the name it
-- had, the ordinal it had (its position, counted from 1, if it had 0), and its normalized value.
pub normalize_slice-AreNormalized :
    (c : Clock) (args out : List NamedValue)
    → normalize_slice c args ≡ ok out
    → AreNormalized c 0 args out
unfolding normalize_slice
normalize_slice-AreNormalized c args out e =
    subst (Ensures (AreNormalized c 0 args)) e (normalize_from-Ensures c 0 args)

default_ordinal_idem :
    (z : ℤ) (i : ℕ) → default_ordinal (default_ordinal z i) i ≡ default_ordinal z i
default_ordinal_idem (pos n) i = ground arith
default_ordinal_idem (negsuc n) i = refl

AreNormalized-AreBindable :
    (c : Clock) (n i : ℕ) (args out : List NamedValue)
    → AreOrdinals n i args
    → AreNormalized c i args out
    → AreBindable n i out
AreNormalized-AreBindable c n i [] [] o a = tt
AreNormalized-AreBindable c n i (x ∷ xs) (y ∷ ys) (o, os) (name, ordinal, value, rest) = (
  normalize-IsNormal c x.value y.value value,
  rw (ordinal, default_ordinal_idem x.ordinal i) o,
  AreNormalized-AreBindable c n (suc i) xs ys os rest,
)
AreNormalized-AreBindable c n i _ _ o a = elim a [ ]

AreNormalized-length :
    (c : Clock) (i : ℕ) (args out : List NamedValue)
    → AreNormalized c i args out
    → length out ≡ length args
AreNormalized-length c i [] [] a = refl
AreNormalized-length c i (x ∷ xs) (y ∷ ys) a = ap suc (AreNormalized-length c (suc i) xs ys a.3)
AreNormalized-length c i _ _ a = elim a [ ]

-- The whole way of a query's arguments: if each ordinal lies between 1 and their number, counting a
-- missing one as the position, then once normalization accepts the values, binding cannot fail, and
-- the native side reads from each C parameter the name, the ordinal and the normalized value, each
-- text and each byte string by the length that the parameter has for it.
pub statement_params-normalize_slice :
    (c : Clock) (args out : List NamedValue)
    → AreOrdinals (length args) 0 args
    → normalize_slice c args ≡ ok out
    → (mem : List Block) × (ps : List CParameter) × (statement_params out ≡ ok (mem, ps))
      × AreBound mem 0 out ps
statement_params-normalize_slice c args out o e =
    let n = normalize_slice-AreNormalized c args out e in
    statement_params-AreBound out (
      rw (AreNormalized-length c 0 args out n)
        (AreNormalized-AreBindable c (length args) 0 args out o n))

positional-AreOrdinals :
    (n i : ℕ) (vs : List GoValue) → i + length vs ≤ n → AreOrdinals n i (positional_from i vs)
unfolding positional_from
positional-AreOrdinals n i [] h = tt
positional-AreOrdinals n i (v ∷ vs) h =
    (ground arith, positional-AreOrdinals n (suc i) vs (omega arith))

length-positional_from : (i : ℕ) (vs : List GoValue) → length (positional_from i vs) ≡ length vs
unfolding positional_from
length-positional_from i [] = refl
length-positional_from i (v ∷ vs) = ap suc (length-positional_from (suc i) vs)

-- Positional arguments, as Stmt.Exec and Stmt.Query pass them, always have their ordinals in range:
-- once their values are accepted, they are bound without an error and without a loss.
pub statement_params-positional :
    (c : Clock) (vs : List GoValue) (out : List NamedValue)
    → normalize_slice c (positional_named_values vs) ≡ ok out
    → (mem : List Block) × (ps : List CParameter) × (statement_params out ≡ ok (mem, ps))
      × AreBound mem 0 out ps
unfolding positional_named_values
statement_params-positional c vs out e =
    statement_params-normalize_slice c (positional_from 0 vs) out
      (positional-AreOrdinals _ 0 vs (omega (arith, length-positional_from 0 vs))) e
