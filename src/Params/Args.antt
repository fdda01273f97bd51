-- ===== src/Params/Args.antt =====
-- Argument lists: normalizeNamedValueSlice and checkNamedValue of parameters.go, namedValues of
-- arrow.go and positionalNamedValues of execution.go.
use datafusion_go.Base.{ℕ, suc, String, ◌==◌, List, [], ◌∷◌, if◌then◌else◌}
use datafusion_go.Base.Int.{ℤ, pos, negsuc}
use datafusion_go.Errors.{Result, ok, ◌>>=◌}
use datafusion_go.Params.Value.{GoValue}
use datafusion_go.Params.Normalize.{Clock, normalize}

-- driver.NamedValue.
pub record NamedValue : Type 0 where
  pub name : String
  pub ordinal : ℤ
  pub value : GoValue

-- The cases of the type switch in namedValues: sql.NamedArg, driver.NamedValue, and the rest.
pub data QueryArg : Type 0 where
  named_arg : String → GoValue → QueryArg
  named_value : NamedValue → QueryArg
  plain : GoValue → QueryArg

-- The one-based position if the ordinal is 0.
abbrev pub default_ordinal : ℤ → ℕ → ℤ
default_ordinal (pos n) i = if n == 0 then pos (suc i) else pos n
default_ordinal (negsuc n) i = negsuc n

-- checkNamedValue.
unfoldable pub check_named_value : Clock → NamedValue → Result NamedValue
check_named_value c nv = do v ← normalize c nv.value; ok (record nv { value = v })

unfoldable pub normalize_arg : Clock → ℕ → NamedValue → Result NamedValue
normalize_arg c i arg = do
  v ← normalize c arg.value
  ok (record { name = arg.name; ordinal = default_ordinal arg.ordinal i; value = v })

-- The loop of normalizeNamedValueSlice, at index `i`.
unfoldable pub normalize_from : Clock → ℕ → List NamedValue → Result (List NamedValue)
unfolding normalize_arg
normalize_from c i [] = ok []
normalize_from c i (arg ∷ args) = do
  a ← normalize_arg c i arg
  rest ← normalize_from c (suc i) args
  ok (a ∷ rest)

unfoldable pub normalize_slice : Clock → List NamedValue → Result (List NamedValue)
unfolding normalize_from
normalize_slice c args = normalize_from c 0 args

named_value_of : Clock → ℕ → QueryArg → Result NamedValue
named_value_of c i (named_arg name v) = do
  w ← normalize c v
  ok (record { name = name; ordinal = pos (suc i); value = w })
named_value_of c i (named_value arg) = do
  w ← normalize c arg.value
  ok (record { name = arg.name; ordinal = default_ordinal arg.ordinal i; value = w })
named_value_of c i (plain v) = do
  w ← normalize c v
  ok (record { name = ""; ordinal = pos (suc i); value = w })

named_from : Clock → ℕ → List QueryArg → Result (List NamedValue)
unfolding named_value_of
named_from c i [] = ok []
named_from c i (arg ∷ args) = do
  a ← named_value_of c i arg
  rest ← named_from c (suc i) args
  ok (a ∷ rest)

-- namedValues.
unfoldable pub named_values : Clock → List QueryArg → Result (List NamedValue)
unfolding named_from
named_values c args = named_from c 0 args

unfoldable pub positional_from : ℕ → List GoValue → List NamedValue
positional_from i [] = []
positional_from i (v ∷ vs) =
    record { name = ""; ordinal = pos (suc i); value = v } ∷ positional_from (suc i) vs

-- positionalNamedValues.
unfoldable pub positional_named_values : List GoValue → List NamedValue
unfolding positional_from
positional_named_values args = positional_from 0 args
