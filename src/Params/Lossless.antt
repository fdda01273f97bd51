-- ===== src/Params/Lossless.antt =====
-- The C parameters stand for the values that they were made from.
use datafusion_go.Base.{
  ℕ, suc, ◌≡◌, refl, sym, ap, subst, ◌∙◌, inl, inr, String, str_eq, eq_iff, true, false, Option,
  none, some, List, [], ◌∷◌, ◌++◌, length, ◌==◌, Bool-cases, arith,
}
use mathlib.Core.List.{append_assoc, append-nil}
use datafusion_go.Base.Int.{ℤ, pos, ◌≤ℤ◌, ltb_ℤ}
use datafusion_go.Errors.{Result, ok}
use datafusion_go.Params.Value.{
  uint64_parameter, date_parameter, time_parameter, timestamp_parameter, duration_parameter,
  decimal_parameter, null_parameter, GoValue, go_nil, go_bool, go_int64, go_float64, go_string,
  go_bytes, native_value,
}
use datafusion_go.Params.Args.{NamedValue, default_ordinal}
use datafusion_go.Params.Bind.{
  Block, text, raw, size, CParameter, zero_param, c_param_data, set_statement_param, bind_one,
  with_name, bind_from, statement_params,
}
use datafusion_go.Params.Decode.{
  read_text, decode, read_text-c_param_data, read_bytes-c_param_data, type_of_code-native_code,
}

-- The values that setStatementParam accepts.
abbrev pub IsNormal : GoValue → Type 0
IsNormal go_nil = Unit
IsNormal (go_bool b) = Unit
IsNormal (go_int64 n) = Unit
IsNormal (go_float64 b) = Unit
IsNormal (go_string s) = Unit
IsNormal (go_bytes b) = Unit
IsNormal (native_value p) = Unit
IsNormal _ = ⊥

-- The blocks that a call added.
abbrev Grows : List Block → List Block → Type 0
Grows mem after = (more : List Block) × (after ≡ mem ++ more)

c_param_data-Grows : (mem : List Block) (b : Block) → Grows mem (c_param_data mem b).0
unfolding c_param_data
c_param_data-Grows mem b = elim (Bool-cases (size b == 0)) [
  | inl e ↦ ([], rw e (sym (append-nil mem)))
  | inr e ↦ (b ∷ [], rw e)
]

-- A parameter before its value is set.
abbrev fresh : ℤ → Option ℕ → ℕ → CParameter
fresh index name name_len = record zero_param { index = index; name = name; name_len = name_len }

-- The call succeeds, allocates at the end, keeps the index and the name, and gives a parameter that
-- reads as `v` whatever is allocated later.
abbrev Stores : List Block → ℤ → Option ℕ → ℕ → GoValue → Result (List Block × CParameter) → Type 0
Stores mem index name name_len v result =
    (after : List Block) × (q : CParameter) × (result ≡ ok (after, q))
    × Grows mem after
    × ((more : List Block) → decode (after ++ more) q ≡ some v)
    × (q.index ≡ index)
    × (q.name ≡ name)
    × (q.name_len ≡ name_len)

set-Stores :
    (mem : List Block) (index : ℤ) (name : Option ℕ) (name_len : ℕ) (v : GoValue)
    → IsNormal v
    → Stores mem index name name_len v (set_statement_param mem (fresh index name name_len) v)
unfolding set_statement_param decode
set-Stores mem index name k go_nil h =
    (mem, _, refl, ([], sym (append-nil mem)), λ more. refl, refl, refl, refl)
set-Stores mem index name k (go_bool true) h =
    (mem, _, refl, ([], sym (append-nil mem)), λ more. refl, refl, refl, refl)
set-Stores mem index name k (go_bool false) h =
    (mem, _, refl, ([], sym (append-nil mem)), λ more. refl, refl, refl, refl)
set-Stores mem index name k (go_int64 n) h =
    (mem, _, refl, ([], sym (append-nil mem)), λ more. refl, refl, refl, refl)
set-Stores mem index name k (go_float64 b) h =
    (mem, _, refl, ([], sym (append-nil mem)), λ more. refl, refl, refl, refl)
set-Stores mem index name k (go_string s) h = (
  _,
  _,
  refl,
  c_param_data-Grows mem (text s),
  λ more. rw (read_text-c_param_data mem more s) refl,
  refl,
  refl,
  refl,
)
set-Stores mem index name k (go_bytes b) h = (
  _,
  _,
  refl,
  c_param_data-Grows mem (raw b),
  λ more. rw (read_bytes-c_param_data mem more b) refl,
  refl,
  refl,
  refl,
)
set-Stores mem index name k (native_value (uint64_parameter n)) h =
    (mem, _, refl, ([], sym (append-nil mem)), λ more. refl, refl, refl, refl)
set-Stores mem index name k (native_value (date_parameter n)) h =
    (mem, _, refl, ([], sym (append-nil mem)), λ more. refl, refl, refl, refl)
set-Stores mem index name k (native_value (time_parameter n)) h =
    (mem, _, refl, ([], sym (append-nil mem)), λ more. refl, refl, refl, refl)
set-Stores mem index name k (native_value (duration_parameter n)) h =
    (mem, _, refl, ([], sym (append-nil mem)), λ more. refl, refl, refl, refl)
set-Stores mem index name k (native_value (timestamp_parameter n zone)) h = (
  _,
  _,
  refl,
  c_param_data-Grows mem (text zone),
  λ more. rw (read_text-c_param_data mem more zone) refl,
  refl,
  refl,
  refl,
)
set-Stores mem index name k (native_value (decimal_parameter s precision scale)) h = (
  _,
  _,
  refl,
  c_param_data-Grows mem (text s),
  λ more. rw (read_text-c_param_data mem more s) refl,
  refl,
  refl,
  refl,
)
set-Stores mem index name k (native_value (null_parameter type precision scale zone)) h = (
  _,
  _,
  refl,
  c_param_data-Grows mem (text zone),
  λ more. rw (type_of_code-native_code type, read_text-c_param_data mem more zone) refl,
  refl,
  refl,
  refl,
)
set-Stores mem index name k _ h = elim h [ ]

with_name-Grows :
    (mem : List Block) (index : ℤ) (name : String)
    → (after : List Block) × (at : Option ℕ) × (k : ℕ) × (with_name mem
          (record zero_param { index = index })
          name
        ≡ (after, fresh index at k))
      × Grows mem after
      × ((more : List Block) → read_text (after ++ more) at k ≡ some name)
unfolding with_name read_text
with_name-Grows mem index name = elim (Bool-cases (str_eq name "")) [
  | inl e ↦
      (mem, none, 0, rw e, ([], sym (append-nil mem)), λ more. ap some (sym ((eq_iff name "").0 e)))
  | inr e ↦ (
    (c_param_data mem (text name)).0,
    (c_param_data mem (text name)).1,
    size (text name),
    rw e,
    c_param_data-Grows mem (text name),
    λ more. read_text-c_param_data mem more name,
  )
]

abbrev pub IsOrdinal : ℕ → ℤ → Type 0
IsOrdinal n ordinal = (pos 1 ≤ℤ ordinal) × (ordinal ≤ℤ pos n)

-- The parameter in memory `mem` that stands for the argument at index `i`.
abbrev pub IsBound : List Block → ℕ → NamedValue → CParameter → Type 0
IsBound mem i arg p =
    (p.index ≡ default_ordinal arg.ordinal i)
    × (read_text mem p.name p.name_len ≡ some arg.name)
    × (decode mem p ≡ some arg.value)

Grows-later :
    (mem after : List Block) (g : Grows mem after) (more : List Block)
    → after ++ more ≡ mem ++ (g.0 ++ more)
Grows-later mem after (added, e) more = rw e (append_assoc mem added more)

Grows-trans : (mem mid after : List Block) → Grows mem mid → Grows mid after → Grows mem after
Grows-trans mem mid after (a, e) (b, f) = (a ++ b, f ∙ Grows-later mem mid (a, e) b)

bind_one-IsBound :
    (n i : ℕ) (mem : List Block) (arg : NamedValue)
    → IsNormal arg.value
    → IsOrdinal n (default_ordinal arg.ordinal i)
    → (after : List Block) × (p : CParameter) × (bind_one n i mem arg ≡ ok (after, p))
      × Grows mem after
      × ((more : List Block) → IsBound (after ++ more) i arg p)
unfolding bind_one
bind_one-IsBound n i mem arg normal (low, high) =
    let ordinal = default_ordinal arg.ordinal i in
    let (named, at, k, en, gn, rn) = with_name-Grows mem ordinal arg.name in
    let (after, p, es, gs, rs, ei, em, el) = set-Stores named ordinal at k arg.value normal in
    let positive : ltb_ℤ (pos 0) ordinal ≡ true = ground arith in
    let within : ltb_ℤ (pos n) ordinal ≡ false = ground arith in
    (
      after,
      p,
      rw (positive, within, en) es,
      Grows-trans mem named after gn gs,
      λ more. (ei, rw (em, el, Grows-later named after gs more) (rn (gs.0 ++ more)), rs more),
    )

-- Every argument in the list is bound by the parameter at its place.
abbrev pub AreBound : List Block → ℕ → List NamedValue → List CParameter → Type 0
AreBound mem i [] [] = Unit
AreBound mem i (a ∷ args) (p ∷ ps) = IsBound mem i a p × AreBound mem (suc i) args ps
AreBound mem i _ _ = ⊥

-- Each value is accepted, and each ordinal, or the position where there is none, is in range.
abbrev pub AreBindable : ℕ → ℕ → List NamedValue → Type 0
AreBindable n i [] = Unit
AreBindable n i (a ∷ args) =
    IsNormal a.value × IsOrdinal n (default_ordinal a.ordinal i) × AreBindable n (suc i) args

bind_from-AreBound :
    (n i : ℕ) (mem : List Block) (args : List NamedValue)
    → AreBindable n i args
    → (final : List Block) × (ps : List CParameter) × (bind_from n i mem args ≡ ok (final, ps))
      × Grows mem final
      × ((more : List Block) → AreBound (final ++ more) i args ps)
unfolding bind_from
bind_from-AreBound n i mem [] h = (mem, [], refl, ([], sym (append-nil mem)), λ more. tt)
bind_from-AreBound n i mem (a ∷ args) (normal, ranged, rest) =
    let (after, p, e, g, bound) = bind_one-IsBound n i mem a normal ranged in
    let (final, ps, es, gs, bounds) = bind_from-AreBound n (suc i) after args rest in
    (
      final,
      p ∷ ps,
      rw (e, es),
      Grows-trans mem after final g gs,
      λ more. (rw (Grows-later after final gs more) (bound (gs.0 ++ more)), bounds more),
    )

-- When every value is of an accepted type and every ordinal lies between 1 and the number of
-- arguments, binding succeeds, and what the native side reads from each C parameter is the
-- argument's ordinal (its position where it has none), its name and its value; it reads as many bytes
-- as the parameter's lengths say, which are the ones of the name and the value.
pub statement_params-AreBound :
    (args : List NamedValue)
    → AreBindable (length args) 0 args
    → (mem : List Block) × (ps : List CParameter) × (statement_params args ≡ ok (mem, ps))
      × AreBound mem 0 args ps
unfolding statement_params
statement_params-AreBound args h =
    let (mem, ps, e, g, bound) = bind_from-AreBound (length args) 0 [] args h in
    (mem, ps, e, subst (λ m. AreBound m 0 args ps) (append-nil mem) (bound []))
