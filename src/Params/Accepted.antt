-- ===== src/Params/Accepted.antt =====
-- What normalizeParameterValue lets through.
use datafusion_go.Base.{
  ℕ, ◌+◌, ◌*◌, ◌/◌, ◌%◌, ◌≤◌, ◌<◌, ◌≡◌, refl, subst, ◌≢◌, eq_iff, String, Bool, true, false, ◌==◌,
  arith,
}
use datafusion_go.Base.Int.{ℤ, pos, negsuc, ◌≤ℤ◌, ◌+ℤ◌}
use datafusion_go.Errors.{GoError, Result, ok, err, ◌>>=◌, ◌>>◌, >>=-eq-ok, fail_if}
use datafusion_go.Params.Value.{
  GoTime, ParameterType, native_decimal, native_timestamp, Time, Decimal, parameter_decimal,
  parameter_timestamp, Null, NativeParameter, time_parameter, timestamp_parameter,
  decimal_parameter, null_parameter, GoValue, go_nil, go_bool, go_int64, go_float64, go_string,
  go_bytes, go_time, go_uint8, go_uint16, go_uint32, go_uint64, go_duration, go_uint, uint64_value,
  date_value, time_value, timestamp_value, duration_value, decimal_value, null_value, native_value,
  nanos_per_day, seconds_per_day, floor_mod, time_out_of_range, time_from_time, or_utc,
  timestamp_zone, validate_decimal_type,
}
use datafusion_go.Params.Normalize.{
  Clock, convert_value, accept_converted, normalize_null, time_zone_from_location, is_blank,
  timestamp_parameter_of, normalize,
}
use datafusion_go.Params.Lossless.{IsNormal}

-- A predicate on the value of a call, where it succeeded.
abbrev pub Ensures {ℓ κ} : {A : Type ℓ} → (A → Type κ) → Result A → Type κ
Ensures P (ok a) = P a
Ensures P (err e) = Unit

pub Ensures-bind {ℓ κ μ} :
    {A : Type ℓ} {B : Type κ} (P : B → Type μ) (m : Result A) (f : A → Result B)
    → ((a : A) → m ≡ ok a → Ensures P (f a))
    → Ensures P (m >>= f)
Ensures-bind P (ok a) f h = h a refl
Ensures-bind P (err e) f h = tt

-- The same where the first call ensures something too.
pub Ensures-then {ℓ κ μ ν} :
    {A : Type ℓ} {B : Type κ} (P : A → Type μ) (Q : B → Type ν) (m : Result A) (f : A → Result B)
    → Ensures P m
    → ((a : A) → P a → Ensures Q (f a))
    → Ensures Q (m >>= f)
Ensures-then P Q (ok a) f p h = h a p
Ensures-then P Q (err e) f p h = tt

pub fail_if-ok : (b : Bool) (e : GoError) {u : Unit {0}} → fail_if b e ≡ ok u → b ≡ false
fail_if-ok true e h = cc
fail_if-ok false e h = refl

-- A Decimal128 type.
abbrev pub IsDecimalType : ℕ → ℤ → Type 0
IsDecimalType precision scale =
    (1 ≤ precision) × (precision ≤ 38) × (pos 0 ≤ℤ scale) × (scale ≤ℤ pos precision)

-- What the engine relies on in a native parameter.
abbrev pub IsInRange : NativeParameter → Type 0
IsInRange (time_parameter n) = (pos 0 ≤ℤ n) × (n +ℤ pos 1 ≤ℤ pos nanos_per_day)
IsInRange (timestamp_parameter n zone) = zone ≢ ""
IsInRange (decimal_parameter s precision scale) =
    (is_blank s ≡ false) × IsDecimalType precision scale
IsInRange (null_parameter native_decimal precision scale zone) = IsDecimalType precision scale
IsInRange (null_parameter native_timestamp precision scale zone) = zone ≢ ""
IsInRange _ = Unit

-- A parameter that normalization may return.
abbrev pub IsAccepted : GoValue → Type 0
IsAccepted (native_value p) = IsInRange p
IsAccepted v = IsNormal v

-- Only a parameter that was normalized before comes in as a native one.
abbrev pub IsInput : GoValue → Type 0
IsInput (native_value p) = IsInRange p
IsInput _ = Unit

time_in_range :
    (n : ℤ) → time_out_of_range n ≡ false → (pos 0 ≤ℤ n) × (n +ℤ pos 1 ≤ℤ pos nanos_per_day)
unfolding time_out_of_range ◌+ℤ◌
time_in_range n h = ground arith

or_utc-ne : (zone : String) → or_utc zone ≢ ""
or_utc-ne zone = ground (arith, eq_iff zone "", eq_iff "UTC" "")

timestamp-Ensures :
    (c : Clock) (t : GoTime) (zone : String) → Ensures IsInRange (timestamp_parameter_of c t zone)
unfolding timestamp_parameter_of
timestamp-Ensures c t zone = Ensures-bind IsInRange (c.timestamp_nanos t) _ (λ n _. or_utc-ne zone)

validate-Ensures :
    (precision : ℕ) (scale : ℤ)
    → validate_decimal_type precision scale ≡ ok tt
    → IsDecimalType precision scale
unfolding validate_decimal_type
validate-Ensures precision scale h = ground arith

native-Ensures :
    (m : Result NativeParameter)
    → Ensures IsInRange m
    → Ensures IsAccepted (m >>= λ p. ok (native_value p))
native-Ensures (ok p) h = h
native-Ensures (err e) h = tt

decimal-Ensures : (c : Clock) (v : Decimal) → Ensures IsAccepted (normalize c (decimal_value v))
unfolding normalize
decimal-Ensures c v =
    Ensures-bind IsAccepted (validate_decimal_type v.precision v.scale) _ λ _ valid.
      Ensures-bind IsAccepted (fail_if (is_blank v.value) _) _
        λ _ kept. (fail_if-ok _ _ kept, validate-Ensures v.precision v.scale valid)

null-case :
    (type : ParameterType) (precision : ℕ) (scale : ℤ) (zone : String)
    → Ensures IsInRange (
        normalize_null
          (record { type = type; precision = precision; scale = scale; time_zone = zone }))
unfolding normalize_null
null-case parameter_decimal precision scale zone =
    Ensures-bind IsInRange (fail_if (precision == 0) _ >> validate_decimal_type precision scale) _
      λ _ valid.
        let (_, _, checked) = >>=-eq-ok (fail_if (precision == 0) _) _ valid in
        validate-Ensures precision scale checked
null-case parameter_timestamp precision scale zone = or_utc-ne zone
null-case _ precision scale zone = tt

null-Ensures : (v : Null) → Ensures IsInRange (normalize_null v)
null-Ensures v = null-case v.type v.precision v.scale v.time_zone

accept-Ensures : (c : Clock) (v : GoValue) → Ensures IsAccepted (accept_converted c v)
unfolding accept_converted
accept-Ensures c (go_time t) =
    native-Ensures _ (timestamp-Ensures c t (time_zone_from_location c t.location))
accept-Ensures c _ = tt

time-Ensures : (c : Clock) (v : Time) → Ensures IsAccepted (normalize c (time_value v))
unfolding normalize
time-Ensures c v =
    Ensures-bind IsAccepted (fail_if (time_out_of_range v.nanoseconds) _) _
      λ _ kept. time_in_range v.nanoseconds (fail_if-ok _ _ kept)

normalize-Ensures : (c : Clock) (v : GoValue) → IsInput v → Ensures IsAccepted (normalize c v)
unfolding normalize
normalize-Ensures c (native_value p) h = h
normalize-Ensures c (uint64_value n) h = tt
normalize-Ensures c (go_uint n) h = tt
normalize-Ensures c (go_uint8 n) h = tt
normalize-Ensures c (go_uint16 n) h = tt
normalize-Ensures c (go_uint32 n) h = tt
normalize-Ensures c (go_uint64 n) h = tt
normalize-Ensures c (date_value d) h = tt
normalize-Ensures c (time_value v) h = time-Ensures c v
normalize-Ensures c (timestamp_value v) h =
    native-Ensures _ (timestamp-Ensures c v.t (timestamp_zone v))
normalize-Ensures c (duration_value v) h = tt
normalize-Ensures c (go_duration n) h = tt
normalize-Ensures c (decimal_value v) h = decimal-Ensures c v
normalize-Ensures c (null_value v) h = native-Ensures _ (null-Ensures v)
normalize-Ensures c v h = Ensures-bind IsAccepted (convert_value v) _ (λ w _. accept-Ensures c w)

-- Whatever is passed in, where a native parameter that is passed in is in range itself, a
-- parameter that normalization accepts is nil, a plain bool, int64, float64, string or byte slice,
-- or a native parameter in range: a time within a day, a decimal type with precision 1 to 38 and
-- scale 0 to the precision, also for a null decimal, a decimal text that is not blank, and a time
-- zone that is never empty.
pub normalize-IsAccepted :
    (c : Clock) (v w : GoValue) → IsInput v → normalize c v ≡ ok w → IsAccepted w
normalize-IsAccepted c v w h e = subst (Ensures IsAccepted) e (normalize-Ensures c v h)

IsAccepted-IsNormal : (w : GoValue) → IsAccepted w → IsNormal w
IsAccepted-IsNormal (native_value p) h = tt
IsAccepted-IsNormal _ h = h

pub normalize-IsNormal : (c : Clock) (v w : GoValue) → normalize c v ≡ ok w → IsNormal w
unfolding normalize
normalize-IsNormal c (native_value p) w e = subst (Ensures IsNormal) e tt
normalize-IsNormal c v w e = IsAccepted-IsNormal w (normalize-IsAccepted c v w tt e)

normalize_of_IsNormal : (c : Clock) (w : GoValue) → IsNormal w → normalize c w ≡ ok w
unfolding normalize
normalize_of_IsNormal c go_nil h = refl
normalize_of_IsNormal c (go_bool b) h = refl
normalize_of_IsNormal c (go_int64 n) h = refl
normalize_of_IsNormal c (go_float64 b) h = refl
normalize_of_IsNormal c (go_string s) h = refl
normalize_of_IsNormal c (go_bytes b) h = refl
normalize_of_IsNormal c (native_value p) h = refl
normalize_of_IsNormal c _ h = elim h [ ]

-- Normalizing an accepted value again gives the same value: database/sql normalizes each argument by
-- CheckNamedValue, and the query normalizes it again.
pub normalize-normalize : (c : Clock) (v w : GoValue) → normalize c v ≡ ok w → normalize c w ≡ ok w
normalize-normalize c v w e = normalize_of_IsNormal c w (normalize-IsNormal c v w e)

floor_mod-lt : (z : ℤ) → floor_mod z seconds_per_day < seconds_per_day
floor_mod-lt (pos n) = omega arith
floor_mod-lt (negsuc n) = omega arith

not-time_out_of_range : (n : ℕ) → n < nanos_per_day → time_out_of_range (pos n) ≡ false
unfolding time_out_of_range
not-time_out_of_range n h = ground arith

-- A Time made from an instant is always accepted, as it stands: its nanoseconds, counted from local
-- midnight, are below a day when the instant's own nanoseconds are below a second.
pub normalize-time_from_time :
    (c : Clock) (t : GoTime)
    → t.nsec < 1000000000
    → normalize c (time_value (time_from_time t))
      ≡ ok (native_value (time_parameter (time_from_time t).nanoseconds))
unfolding normalize time_from_time
normalize-time_from_time c t h =
    let s : ℕ = floor_mod (t.sec +ℤ t.offset) seconds_per_day in
    let day : s < 86400 = floor_mod-lt (t.sec +ℤ t.offset) in
    let n : ℕ =
      s / 3600 * 3600000000000 + s % 3600 / 60 * 60000000000 + s % 60 * 1000000000 + t.nsec in
    let fits : n < nanos_per_day = omega arith in rw (not-time_out_of_range n fits)
