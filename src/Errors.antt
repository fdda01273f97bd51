-- ===== src/Errors.antt =====
-- errors.go, internal/native/errors.go and the error type of internal/native/native.go, with the
-- parts of Go's `errors` and `fmt` that they use. A message is its format with its arguments.
pub mod Classes
mod Tests
use datafusion_go.Base.{
  ◌≡◌, refl, String, str_eq, Bool, true, false, ◌||◌, Option, none, some, List, [], if◌then◌else◌,
}
use datafusion_go.Base.Int.{ℤ}

pub data ErrorType : Type 0 where
  connect prepare bind execute scan closed unsupported native : ErrorType

-- The sentinels of internal/native/errors.go.
pub data Sentinel : Type 0 where
  err_cancelled err_invalid_argument err_failure err_panic : Sentinel

pub data FmtArg : Type 0 where
  int_arg : ℤ → FmtArg
  str_arg : String → FmtArg

-- `nil` is the error that is none, as a cause; `errorf` is `errors.New` and `fmt.Errorf`, and
-- `wrapf` the latter with a `%w`. `panicked` stands for a panic,
-- `native_of` for a native error whose message is the text of another error, and `text_of` for
-- `errors.New` of such a text.
pub data GoError : Type 0 where
  nil : GoError
  errorf : String → List FmtArg → GoError
  wrapf : String → List FmtArg → GoError → GoError
  join : GoError → GoError → GoError
  canceled deadline_exceeded eof bad_conn panicked : GoError
  sentinel : Sentinel → GoError
  native_error : String → String → GoError
  native_of : String → GoError → GoError
  text_of : GoError → GoError
  driver_wrap : ErrorType → String → String → List FmtArg → GoError → GoError

-- A call that returns a value and an error.
pub data Result {ℓ} (A : Type ℓ) : Type ℓ where
  ok : A → Result A
  err : GoError → Result A

-- `if err != nil { return err }` between two calls, and between checks that return nothing else.
abbrev pub ◌>>=◌ {ℓ κ} :
    {A : Type ℓ} {B : Type κ} (call : Result A) (next : A → Result B) → Result B
err failure >>= next = err failure
ok value >>= next = next value

abbrev pub ◌>>◌ {κ} : {B : Type κ} (check : Result (Unit {0})) (rest : Result B) → Result B
check >> rest = check >>= λ done. rest

infixl 5 ◌>>=◌ ◌>>◌
-- `if bad { return e }`.
abbrev pub fail_if : Bool → GoError → Result (Unit {0})
fail_if true e = err e
fail_if false e = ok tt

abbrev pub map_err {ℓ} : {A : Type ℓ} → (GoError → GoError) → Result A → Result A
map_err f (ok a) = ok a
map_err f (err e) = err (f e)

-- Calls that succeeded one after the other: each of them succeeded.
pub >>=-eq-ok {ℓ κ} :
    {A : Type ℓ} {B : Type κ} (call : Result A) (next : A → Result B) {out : B}
    → (call >>= next) ≡ ok out
    → (value : A) × (call ≡ ok value) × (next value ≡ ok out)
>>=-eq-ok (err failure) next h = cc
>>=-eq-ok (ok value) next h = (value, refl, h)

pub map_err-eq-ok {ℓ} :
    {A : Type ℓ} (f : GoError → GoError) (r : Result A) {a : A} → map_err f r ≡ ok a → r ≡ ok a
map_err-eq-ok f (ok b) h = cc
map_err-eq-ok f (err e) h = cc

pub fail_if-eq-ok :
    (bad : Bool) (e : GoError) {done : Unit {0}} → fail_if bad e ≡ ok done → bad ≡ false
fail_if-eq-ok true e h = cc
fail_if-eq-ok false e h = refl

-- What the errors of this package are compared with.
pub data Target : Type 0 where
  to_sentinel : Sentinel → Target
  to_canceled to_deadline_exceeded to_eof to_bad_conn : Target

-- The kind that each sentinel stands for.
unfoldable pub kind_name : Sentinel → String
kind_name err_cancelled = "cancelled"
kind_name err_invalid_argument = "invalid_argument"
kind_name err_failure = "native"
kind_name err_panic = "panic"

same_sentinel : Sentinel → Sentinel → Bool
same_sentinel err_cancelled err_cancelled = true
same_sentinel err_invalid_argument err_invalid_argument = true
same_sentinel err_failure err_failure = true
same_sentinel err_panic err_panic = true
same_sentinel _ _ = false

-- `err == target`, by identity.
same_error : GoError → Target → Bool
unfolding same_sentinel
same_error (sentinel s) (to_sentinel t) = same_sentinel s t
same_error canceled to_canceled = true
same_error deadline_exceeded to_deadline_exceeded = true
same_error eof to_eof = true
same_error bad_conn to_bad_conn = true
same_error _ _ = false

-- native.Error.Is.
unfoldable pub native_is : String → Target → Bool
unfolding kind_name
native_is kind to_canceled = str_eq kind "cancelled"
native_is kind (to_sentinel s) = str_eq kind (kind_name s)
native_is kind _ = false

-- Error.Is.
unfoldable pub driver_is : String → Target → Bool
unfolding kind_name
driver_is kind (to_sentinel s) = str_eq kind (kind_name s)
driver_is kind _ = false

-- `errors.Is`: identity, the error's own `Is`, and then what it wraps.
unfoldable pub errors_is : GoError → Target → Bool
unfolding same_error native_is driver_is
errors_is (wrapf s args e) t = errors_is e t
errors_is (join d e) t = errors_is d t || errors_is e t
errors_is (native_error kind m) t = native_is kind t
errors_is (native_of kind e) t = native_is kind t
errors_is (driver_wrap type kind m args cause) t = driver_is kind t || errors_is cause t
errors_is (sentinel s) t = same_error (sentinel s) t
errors_is canceled t = same_error canceled t
errors_is deadline_exceeded t = same_error deadline_exceeded t
errors_is eof t = same_error eof t
errors_is bad_conn t = same_error bad_conn t
errors_is _ t = false

-- `a` if it found something, else `b`.
abbrev pub or_else {ℓ} : {A : Type ℓ} → Option A → Option A → Option A
or_else none b = b
or_else (some a) b = some a

-- `errors.As` with the interface `nativeKindError`: the kind of the first native error, in
-- depth-first order.
unfoldable pub as_native : GoError → Option String
as_native (native_error kind m) = some kind
as_native (native_of kind e) = some kind
as_native (wrapf s args e) = as_native e
as_native (join d e) = or_else (as_native d) (as_native e)
as_native (driver_wrap type kind m args cause) = as_native cause
as_native _ = none

kind_or_empty : Option String → String
kind_or_empty none = ""
kind_or_empty (some kind) = kind

-- nativeKind.
unfoldable pub native_kind : GoError → String
unfolding as_native kind_or_empty
native_kind e = kind_or_empty (as_native e)

-- driverError.
unfoldable pub driver_error : ErrorType → String → GoError → GoError
unfolding native_kind
driver_error type message cause = driver_wrap type (native_kind cause) message [] cause

-- driverError of a message that fmt.Sprintf makes.
unfoldable pub driver_errorf : ErrorType → String → List FmtArg → GoError → GoError
unfolding native_kind
driver_errorf type format args cause = driver_wrap type (native_kind cause) format args cause

-- Error.Unwrap, of a non-nil error.
unfoldable pub unwrap : GoError → GoError
unwrap (wrapf s args e) = e
unwrap (driver_wrap type kind m args cause) = cause
unwrap _ = nil

-- Error.Type, by which callers tell the failed operation.
unfoldable pub error_type? : GoError → Option ErrorType
error_type? (driver_wrap type kind m args cause) = some type
error_type? _ = none
