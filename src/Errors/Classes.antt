-- ===== src/Errors/Classes.antt =====
-- How the errors of errors.go are classified by `errors.Is`.
use datafusion_go.Base.{
  String, str_eq, eq_iff, ◌≡◌, refl, inl, inr, sym, ◌∙◌, Bool, true, false, ◌||◌, some, List, arith,
  Option-cases,
}
use datafusion_go.Errors.{
  GoError, wrapf, join, native_error, native_of, driver_wrap, Sentinel, err_cancelled,
  err_invalid_argument, err_failure, err_panic, Target, to_sentinel, ErrorType, FmtArg, kind_name,
  native_is, driver_is, errors_is, as_native, native_kind, driver_error,
}

or_left : (a b : Bool) → a ≡ true → (a || b) ≡ true
or_left true b h = refl
or_left false b h = cc

or_right : (a b : Bool) → b ≡ true → (a || b) ≡ true
or_right true b h = refl
or_right false b h = h

-- An error that wraps a native one matches what the native one matches.
as_native-errors_is :
    (e : GoError) (kind : String) (t : Target)
    → as_native e ≡ some kind
    → native_is kind t ≡ true
    → errors_is e t ≡ true
unfolding as_native errors_is
as_native-errors_is (native_error k m) kind t h n = ground arith
as_native-errors_is (native_of k m) kind t h n = ground arith
as_native-errors_is (wrapf s args e) kind t h n = as_native-errors_is e kind t h n
as_native-errors_is (join d e) kind t h n =
    ground (arith, as_native-errors_is d kind t, as_native-errors_is e kind t)
as_native-errors_is (driver_wrap type k m args cause) kind t h n =
    or_right (driver_is k t) (errors_is cause t) (as_native-errors_is cause kind t h n)
as_native-errors_is _ kind t h n = cc

driver_is-native_is :
    (kind : String) (t : Target) → driver_is kind t ≡ true → native_is kind t ≡ true
unfolding driver_is native_is
driver_is-native_is kind (to_sentinel s) h = h
driver_is-native_is kind _ h = cc

not-driver_is-empty : (t : Target) → driver_is "" t ≡ false
unfolding driver_is
not-driver_is-empty (to_sentinel err_cancelled) = refl
not-driver_is-empty (to_sentinel err_invalid_argument) = refl
not-driver_is-empty (to_sentinel err_failure) = refl
not-driver_is-empty (to_sentinel err_panic) = refl
not-driver_is-empty _ = refl

driver_is-errors_is :
    (e : GoError) (t : Target) → driver_is (native_kind e) t ≡ true → errors_is e t ≡ true
unfolding native_kind
driver_is-errors_is e t h = elim (Option-cases (as_native e)) [
  | inl n ↦ ground (arith, not-driver_is-empty t)
  | inr (kind, n) ↦ as_native-errors_is e kind t n (driver_is-native_is kind t (rw n at h))
]

-- Wrapping an error in the package's own error type changes nothing about what it matches: for every
-- cause and every target, the wrapped error matches exactly when the cause does.
pub errors_is-driver_error :
    (type : ErrorType) (message : String) (cause : GoError) (t : Target)
    → errors_is (driver_error type message cause) t ≡ errors_is cause t
unfolding driver_error errors_is
errors_is-driver_error type message cause t = ground (arith, driver_is-errors_is cause t)

-- The errors that a failed native call comes back as: the native error (for a result stream, with
-- the text of the stream's error), wrapped any number of times
-- by `fmt.Errorf` or `driverError`.
pub data Reports (kind : String) : GoError → Type 0 where
  here : (m : String) → Reports kind (native_error kind m)
  of_stream : (e : GoError) → Reports kind (native_of kind e)
  wrapped :
      (s : String) (args : List FmtArg) (e : GoError)
      → Reports kind e
      → Reports kind (wrapf s args e)
  reported :
      (type : ErrorType) (m : String) (e : GoError)
      → Reports kind e
      → Reports kind (driver_error type m e)

Reports-as_native : {kind : String} {e : GoError} → Reports kind e → as_native e ≡ some kind
unfolding as_native driver_error
Reports-as_native (here m) = refl
Reports-as_native (of_stream e) = refl
Reports-as_native (wrapped s args e r) = Reports-as_native r
Reports-as_native (reported type m e r) = Reports-as_native r

-- However often a native failure is wrapped, the kind that the wrapping error carries is the native
-- one, and it matches exactly what the native error of that kind matches.
pub Reports-errors_is :
    {kind : String} {e : GoError} (t : Target)
    → Reports kind e
    → (native_kind e ≡ kind) × (errors_is e t ≡ native_is kind t)
unfolding native_kind errors_is
Reports-errors_is {kind} t (here m) = (refl, refl)
Reports-errors_is {kind} t (of_stream e) = (refl, refl)
Reports-errors_is {kind} t (wrapped s args e r) = Reports-errors_is t r
Reports-errors_is {kind} t (reported type m e r) =
    let same = Reports-errors_is t r in
    (rw (Reports-as_native (reported type m e r)) refl, errors_is-driver_error type m e t ∙ same.1)

kind_name_injective : (s t : Sentinel) → str_eq (kind_name s) (kind_name t) ≡ true → s ≡ t
unfolding kind_name
kind_name_injective err_cancelled err_cancelled h = refl
kind_name_injective err_invalid_argument err_invalid_argument h = refl
kind_name_injective err_failure err_failure h = refl
kind_name_injective err_panic err_panic h = refl
kind_name_injective _ _ h = cc

-- A native failure is in one class at most: no reported error matches two sentinels.
pub Reports-one_class :
    {kind : String} {e : GoError} (s t : Sentinel)
    → Reports kind e
    → errors_is e (to_sentinel s) ≡ true
    → errors_is e (to_sentinel t) ≡ true
    → s ≡ t
unfolding native_is
Reports-one_class {kind} s t r hs ht =
    let ks : str_eq kind (kind_name s) ≡ true = sym (Reports-errors_is (to_sentinel s) r).1 ∙ hs in
    let kt : str_eq kind (kind_name t) ≡ true = sym (Reports-errors_is (to_sentinel t) r).1 ∙ ht in
    let same : kind_name s ≡ kind_name t =
      sym ((eq_iff kind (kind_name s)).0 ks) ∙ (eq_iff kind (kind_name t)).0 kt in
    kind_name_injective s t ((eq_iff _ _).1 same)
