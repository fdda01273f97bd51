-- ===== src/Exec/Loop.antt =====
-- execResult of result.go.
use datafusion_go.Base.{ℕ, zero, suc, Bool, true, false, Option, none, some, [], if◌then◌else◌}
use datafusion_go.Base.Int.{ℤ, pos, ◌+ℤ◌, wrap64}
use datafusion_go.Errors.{GoError, errorf, nil, execute, Result, ok, err, driver_error}
use datafusion_go.Arrow.{Batch}
use datafusion_go.Exec.Count.{overflows, rows_affected_from_record}
use datafusion_go.Reader.Interface.{ArrowReader, is_eof}

-- The variables of the loop of execResult: `count_result` is `none` until a batch is seen.
pub record Progress : Type 0 where
  pub rows_affected : ℤ
  pub count_result : Option Bool

-- What a batch leads to: the loop returns, or goes on.
pub data Next : Type 0 where
  return : Result ℤ → Next
  again : Progress → Next

abbrev total_overflow : GoError
total_overflow = errorf "DataFusion rows affected count overflowed int64" []

unfoldable pub add_count : Progress → ℤ → Next
unfolding overflows
add_count p count =
    if overflows p.rows_affected count
    then return (err (driver_error execute "DataFusion rows affected count overflowed int64" nil))
    else again (record p { rows_affected = wrap64 (p.rows_affected +ℤ count) })

abbrev is_count : Option ℤ → Bool
is_count none = false
is_count (some n) = true

after_count : Progress → Option ℤ → Next
unfolding add_count
after_count p none = again p
after_count p (some n) = add_count p n

-- Whether the result is a count is settled by the first batch.
settle : Progress → Option ℤ → Next
unfolding after_count
settle p count =
    let first : Bool = elim p.count_result [ none ↦ is_count count | some b ↦ b ] in
    if first then after_count (record p { count_result = some true }) count else return (ok (pos 0))

-- The body of the loop of execResult, after a batch is read.
unfoldable pub exec_batch : Progress → Batch → Next
unfolding settle rows_affected_from_record
exec_batch p rec = elim (rows_affected_from_record rec) [
  | err e ↦ return (err (driver_error execute "could not read DataFusion rows affected count" e))
  | ok count ↦ settle p count
]

abbrev pub start : Progress
start = record { rows_affected = pos 0; count_result = none }

module _ (reader : ArrowReader) where
  open reader use {State, read, close}

  -- The loop of execResult; `none` is fuel that ran out. The deferred close is in `exec_result`.
  unfoldable pub exec_loop : ℕ → State → Progress → Option (State × Result ℤ)
  unfolding exec_batch
  exec_loop zero r p = none
  exec_loop (suc fuel) r p = elim (read r).1 [
    | err e ↦ some (
      (read r).0,
      if is_eof e
          then ok p.rows_affected
          else err (driver_error execute "could not execute DataFusion statement" e),
    )
    | ok rec ↦ elim (exec_batch p rec) [
      | return result ↦ some ((read r).0, result)
      | again p' ↦ exec_loop fuel (read r).0 p'
    ]
  ]

  -- execResult: whatever it returns, the reader is closed.
  unfoldable pub exec_result : ℕ → State → Option (State × Result ℤ)
  unfolding exec_loop
  exec_result fuel r = elim (exec_loop fuel r start) [
    | none ↦ none
    | some (r', result) ↦ some (close r', result)
  ]
