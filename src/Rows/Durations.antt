-- ===== src/Rows/Durations.antt =====
-- durationNanos of rows.go is exact.
use native.Mathlib.Nat.{div-lt_iff_lt-mul}
use datafusion_go.Base.{ℕ, suc, ◌≤◌, ◌≡◌, if◌then◌else◌, arith}
use datafusion_go.Base.Int.{ℤ, pos, negsuc, ◌*ℤ◌, wrap64, IsInt64, is_int64}
use datafusion_go.Errors.{ok, err}
use datafusion_go.Rows.Value.{duration_nanos, duration_overflow}

duration-pos :
    (a k : ℕ)
    → a ≤ 9223372036854775807
    → duration_nanos (pos a) (pos (suc k)) ≡ (
        if is_int64 (pos a *ℤ pos (suc k))
        then ok (pos a *ℤ pos (suc k))
        else err (duration_overflow (pos a)))
unfolding duration_nanos ◌*ℤ◌ wrap64
duration-pos a k h = ground (
  arith,
  (div-lt_iff_lt-mul {k = suc k} {x = 9223372036854775807} {y = a} (omega arith)).0,
  (div-lt_iff_lt-mul {k = suc k} {x = 9223372036854775807} {y = a} (omega arith)).1,
)

duration-negsuc :
    (a k : ℕ)
    → a ≤ 9223372036854775807
    → duration_nanos (negsuc a) (pos (suc k)) ≡ (
        if is_int64 (negsuc a *ℤ pos (suc k))
        then ok (negsuc a *ℤ pos (suc k))
        else err (duration_overflow (negsuc a)))
unfolding duration_nanos ◌*ℤ◌ wrap64
duration-negsuc a k h = ground (
  arith,
  (div-lt_iff_lt-mul {k = suc k} {x = 9223372036854775808} {y = suc a} (omega arith)).0,
  (div-lt_iff_lt-mul {k = suc k} {x = 9223372036854775808} {y = suc a} (omega arith)).1,
)

-- For an int64 value and a positive multiplier, durationNanos returns the exact product when that
-- is an int64, and the overflow error, which names the value, otherwise.
pub duration_nanos-is_int64 :
    (v : ℤ) (k : ℕ)
    → IsInt64 v
    → duration_nanos v (pos (suc k))
      ≡ (if is_int64 (v *ℤ pos (suc k)) then ok (v *ℤ pos (suc k)) else err (duration_overflow v))
duration_nanos-is_int64 (pos a) k h = duration-pos a k (ground (arith, h))
duration_nanos-is_int64 (negsuc a) k h = duration-negsuc a k (ground (arith, h))
