-- ===== src/Errors/Tests.antt =====
-- Examples for the theorems on errors.
use datafusion_go.Base.{◌≡◌, refl, true, [], ◌∷◌}
use datafusion_go.Errors.{
  GoError, wrapf, native_error, str_arg, execute, to_sentinel, to_canceled, err_cancelled,
  errors_is, native_is, native_kind, driver_error,
}
use datafusion_go.Errors.Classes.{
  Reports, here, wrapped, reported, errors_is-driver_error, Reports-errors_is,
}

abbrev failure : GoError
failure = wrapf "column %q: %w" (str_arg "a" ∷ []) (native_error "cancelled" "stopped")

abbrev reported_failure : GoError
reported_failure = driver_error execute "could not execute DataFusion statement" failure

errors_is-driver_error_example :
    errors_is reported_failure to_canceled ≡ errors_is failure to_canceled
errors_is-driver_error_example =
    errors_is-driver_error execute "could not execute DataFusion statement" failure to_canceled

abbrev failure-Reports : Reports "cancelled" reported_failure
failure-Reports = reported execute "could not execute DataFusion statement" failure (
    wrapped "column %q: %w" (str_arg "a" ∷ []) (native_error "cancelled" "stopped")
      (here "stopped"))

Reports-errors_is_example :
    (native_kind reported_failure ≡ "cancelled")
    × (errors_is reported_failure to_canceled ≡ native_is "cancelled" to_canceled)
Reports-errors_is_example = Reports-errors_is to_canceled failure-Reports

failure-cancelled : errors_is reported_failure (to_sentinel err_cancelled) ≡ true
unfolding errors_is driver_error
failure-cancelled = refl
