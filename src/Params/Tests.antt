-- ===== src/Params/Tests.antt =====
-- Examples for the theorems on parameters.
use datafusion_go.Base.{String, ◌≡◌, refl, true, none, List, [], ◌∷◌, arith}
use datafusion_go.Base.Int.{ℤ, pos, negsuc}
use datafusion_go.Errors.{ok}
use datafusion_go.Params.Value.{
  GoTime, GoValue, go_int64, go_string, go_uint8, go_nil, native_value, uint64_parameter,
  decimal_value, decimal_parameter,
}
use datafusion_go.Params.Normalize.{Clock, normalize}
use datafusion_go.Params.Args.{NamedValue, normalize_slice, positional_named_values}
use datafusion_go.Params.Bind.{Block, CParameter, statement_params}
use datafusion_go.Params.Lossless.{AreBound, statement_params-AreBound}
use datafusion_go.Params.Accepted.{IsAccepted, normalize-IsAccepted, normalize-normalize}
use datafusion_go.Params.Pipeline.{
  AreNormalized, normalize_slice-AreNormalized, statement_params-normalize_slice,
}

abbrev clock : Clock
clock = record { timestamp_nanos = λ t. ok (pos 5); has_location = λ name. true }

abbrev arg : String → ℤ → GoValue → NamedValue
arg name ordinal value = record { name = name; ordinal = ordinal; value = value }

abbrev given : List NamedValue
given = arg "" (pos 0) (go_uint8 7) ∷ arg "name" (pos 2) (go_string "x") ∷ []

abbrev normalized : List NamedValue
normalized =
    arg "" (pos 1) (native_value (uint64_parameter 7)) ∷ arg "name" (pos 2) (go_string "x") ∷ []

given-normalized : normalize_slice clock given ≡ ok normalized
unfolding normalize_slice normalize
given-normalized = refl

statement_params-normalize_slice_example :
    (mem : List Block) × (ps : List CParameter) × (statement_params normalized ≡ ok (mem, ps))
    × AreBound mem 0 normalized ps
statement_params-normalize_slice_example =
    statement_params-normalize_slice clock given normalized (omega arith, (omega arith, tt))
      given-normalized

normalize_slice-AreNormalized_example : AreNormalized clock 0 given normalized
normalize_slice-AreNormalized_example =
    normalize_slice-AreNormalized clock given normalized given-normalized

statement_params-AreBound_example :
    (mem : List Block) × (ps : List CParameter) × (statement_params normalized ≡ ok (mem, ps))
    × AreBound mem 0 normalized ps
statement_params-AreBound_example =
    statement_params-AreBound normalized ((tt, omega arith, (tt, omega arith, tt)))

abbrev values : List GoValue
values = go_int64 (negsuc 4) ∷ go_nil ∷ []

abbrev bound_values : List NamedValue
bound_values = arg "" (pos 1) (go_int64 (negsuc 4)) ∷ arg "" (pos 2) go_nil ∷ []

values-normalized : normalize_slice clock (positional_named_values values) ≡ ok bound_values
unfolding normalize_slice normalize positional_named_values
values-normalized = refl

abbrev decimal : GoValue
decimal = native_value (decimal_parameter "1.5" 10 (pos 2))

decimal-normalized :
    normalize clock (decimal_value (record { value = "1.5"; precision = 10; scale = pos 2 }))
    ≡ ok decimal
unfolding normalize
decimal-normalized = refl

normalize-IsAccepted_example : IsAccepted decimal
normalize-IsAccepted_example =
    normalize-IsAccepted clock
      (decimal_value (record { value = "1.5"; precision = 10; scale = pos 2 })) decimal tt
      decimal-normalized

normalize-normalize_example : normalize clock decimal ≡ ok decimal
normalize-normalize_example =
    normalize-normalize clock
      (decimal_value (record { value = "1.5"; precision = 10; scale = pos 2 })) decimal
      decimal-normalized

abbrev instant : GoTime
instant = record { sec = negsuc 0; nsec = 999999999; offset = pos 3600; location = none }
