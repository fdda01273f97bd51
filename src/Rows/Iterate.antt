-- ===== src/Rows/Iterate.antt =====
-- Next and Close of rows.go.
use datafusion_go.Base.{
  ℕ, zero, suc, ◌==◌, Bool, true, false, Option, none, some, List, [], ◌∷◌, ltb, get_elem?,
  if◌then◌else◌,
}
use datafusion_go.Base.Int.{pos}
use datafusion_go.Errors.{
  GoError, nil, eof, panicked, int_arg, closed, scan, Result, ok, err, ◌>>=◌, driver_error,
  driver_errorf, map_err,
}
use datafusion_go.Arrow.{Batch}
use datafusion_go.Reader.Interface.{ArrowReader, is_eof}
use datafusion_go.Rows.Value.{SqlValue, Conversions, arrow_value}
use datafusion_go.Rows.Columns.{Rows}

-- The count of releases when the current batch, if there is one, is released.
abbrev pub released : Option Batch → ℕ → ℕ
released none n = n
released (some b) n = suc n

-- `r.current.Release()`, if there is a current batch.
unfoldable pub release_current : {S : Type 0} → Rows S → Rows S
release_current r = record r { current = none; releases = released r.current r.releases }

-- The negated condition of the loop of Next.
abbrev pub has_row_at : Option Batch → ℕ → Bool
has_row_at none i = false
has_row_at (some b) i = ltb i b.num_rows

abbrev pub has_row : {S : Type 0} → Rows S → Bool
has_row r = has_row_at r.current r.row

-- One column of a row, where `col` is its number.
abbrev scan_column : Conversions → Batch → ℕ → ℕ → Result SqlValue
scan_column c b row col = elim (get_elem? b.columns col) [
  | none ↦ err panicked
  | some (name, a) ↦
      map_err (driver_errorf scan "could not scan column %d" (int_arg (pos col) ∷ []))
        (arrow_value c a row)
]

-- The loop over `dst`: `n` columns from the column `col` on.
unfoldable pub scan_columns : Conversions → Batch → ℕ → ℕ → ℕ → Result (List SqlValue)
scan_columns c b row col zero = ok []
scan_columns c b row col (suc n) = do
  value ← scan_column c b row col
  values ← scan_columns c b row (suc col) n
  ok (value ∷ values)

module _ (c : Conversions) (reader : ArrowReader) where
  open reader use {State, read, close}

  -- What Read returned, as far as the loop of Next goes on with a batch.
  pub data Fetched : Type 0 where
    stop : Rows State → GoError → Fetched
    next_batch : Rows State → Fetched

  -- The body of the loop of Next.
  unfoldable pub fetch_once : Rows State → Fetched
  unfolding release_current
  fetch_once r =
      let r1 = release_current r in
      let s = (read r1.reader).0 in
      elim (read r1.reader).1 [
        | err e ↦
            if is_eof e
            then stop (record r1 { reader = close s }) eof
            else stop (record r1 { reader = s })
                (driver_error scan "could not read DataFusion record batch" e)
        | ok rec ↦
            if rec.num_rows == 0
            then next_batch
                (record r1 { reader = s; taken = suc r1.taken; releases = suc r1.releases })
            else next_batch
                (record r1 { reader = s; current = some rec; row = 0; taken = suc r1.taken })
      ]

  -- The loop of Next; `none` is fuel that ran out.
  unfoldable pub fetch : ℕ → Rows State → Option (Rows State × Result (Unit {0}))
  unfolding fetch_once
  fetch zero r = none
  fetch (suc fuel) r = elim (has_row r) [
    | true ↦ some (r, ok tt)
    | false ↦ elim (fetch_once r) [ stop r' e ↦ some (r', err e) | next_batch r' ↦ fetch fuel r' ]
  ]

  -- The rest of Next, with the current batch: the row advances if all its columns are read.
  unfoldable pub scan_row : Rows State → ℕ → Rows State × Result (List SqlValue)
  unfolding scan_columns
  scan_row r n = elim r.current [
    | none ↦ (r, err panicked)
    | some b ↦ elim (scan_columns c b r.row 0 n) [
      | ok values ↦ (record r { row = suc r.row }, ok values)
      | err e ↦ (r, err e)
    ]
  ]

  -- Next, for `n` columns.
  unfoldable pub next_row : ℕ → Rows State → ℕ → Option (Rows State × Result (List SqlValue))
  unfolding fetch scan_row
  next_row fuel r n = elim r.closed [
    | true ↦ some (r, err (driver_error closed "datafusion rows are closed" nil))
    | false ↦ elim (fetch fuel r) [
      | none ↦ none
      | some (r', err e) ↦ some (r', err e)
      | some (r', ok u) ↦ some (scan_row r' n)
    ]
  ]

  -- Close.
  unfoldable pub close_rows : Rows State → Rows State
  unfolding release_current
  close_rows r = elim r.closed [
    | true ↦ r
    | false ↦
        let r1 = release_current (record r { closed = true }) in
        record r1 { reader = close r1.reader }
  ]
