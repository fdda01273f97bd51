-- ===== src/Rows/Next.antt =====
-- Next and Close of rows.go as a cursor over the rows.
use datafusion_go.Base.{
  ℕ, ltb, suc, ◌<◌, ◌≡◌, refl, sym, ap, subst, ◌∙◌, true, false, some, List, [], ◌∷◌, ◌++◌, length,
}
use datafusion_go.Errors.{eof, Result, ok, err}
use datafusion_go.Arrow.{Batch}
use datafusion_go.Reader.Interface.{ArrowReader}
use datafusion_go.Rows.Value.{SqlValue, Conversions}
use datafusion_go.Rows.Columns.{Rows}
use datafusion_go.Rows.Iterate.{scan_columns, fetch, scan_row, next_row}
use datafusion_go.Rows.Order.{
  current_items-left, Item, row_of, failure, items, current_items, view, report, EndsAt, fetch-view,
}

-- What is left after an attempt to read a row.
abbrev pub left_after {ℓ} : {A : Type ℓ} → Result A → Item → List Item → List Item
left_after (ok values) x xs = xs
left_after (err e) x xs = x ∷ xs

module _ (c : Conversions) (reader : ArrowReader) where
  open reader use {State, script, is_closed, close, close_closes}

  -- What Next answers for `n` columns, by what is left before it.
  abbrev pub Hands : ℕ → List Item → Rows State → Result (List SqlValue) → Type 0
  Hands n [] r result = (result ≡ err eof) × (is_closed r.reader ≡ true)
  Hands n (failure e ∷ xs) r result = result ≡ err (report e)
  Hands n (row_of b i ∷ xs) r result =
      (result ≡ scan_columns c b i 0 n)
      × (view c reader r ≡ left_after (scan_columns c b i 0 n) (row_of b i) xs)

  tail_eq : (x y : Item) (xs ys : List Item) → x ∷ xs ≡ y ∷ ys → xs ≡ ys
  tail_eq x y xs ys e = cc

  scan_row-row :
      (n : ℕ) (xs : List Item) (r : Rows State) (b : Batch) (result : Result (List SqlValue))
      → scan_columns c b r.row 0 n ≡ result
      → r.current ≡ some b
      → ltb r.row b.num_rows ≡ true
      → view c reader r ≡ row_of b r.row ∷ xs
      → Hands n (row_of b r.row ∷ xs) (scan_row c reader r n).0 (scan_row c reader r n).1
        × ((scan_row c reader r n).0.closed ≡ r.closed)
  unfolding scan_row view current_items
  scan_row-row n xs r b (ok values) q e lt v =
      let eq = current_items-left r.current b r.row (items (script r.reader)) e lt in
      let rest = tail_eq (row_of b r.row) (row_of b r.row) _ _ (sym eq ∙ v) in
      rw (e, q, scan_row)
        ((refl, ap (λ o. current_items o (suc r.row) ++ items (script r.reader)) e ∙ rest), refl)
  scan_row-row n xs r b (err x) q e lt v = rw (e, q, scan_row) ((refl, v), refl)

  -- Next returns with an answer as above.
  abbrev pub Answers : ℕ → ℕ → List Item → Rows State → Type 0
  Answers fuel n xs r =
      (r' : Rows State) × (result : Result (List SqlValue)) × (next_row c reader fuel r n
        ≡ some (r', result))
      × (r'.closed ≡ r.closed)
      × Hands n xs r' result

  after_fetch :
      (fuel n : ℕ) (xs : List Item) (r r1 : Rows State) (result : Result (Unit {0}))
      → r.closed ≡ false
      → fetch c reader fuel r ≡ some (r1, result)
      → r1.closed ≡ r.closed
      → EndsAt c reader xs r1 result
      → Answers fuel n xs r
  unfolding EndsAt next_row
  after_fetch fuel n [] r r1 result o f same (e, shut) =
      (r1, err eof, rw (o, f, e, next_row) refl, same, (refl, shut))
  after_fetch fuel n (failure x ∷ xs) r r1 result o f same e =
      (r1, err (report x), rw (o, f, e, next_row) refl, same, refl)
  after_fetch fuel n (row_of b i ∷ xs) r r1 result o f same (e, at, here, v, lt) =
      let r2 = (scan_row c reader r1 n).0 in
      let result2 = (scan_row c reader r1 n).1 in
      let v' = v ∙ ap (λ k. row_of b k ∷ xs) (sym here) in
      let row = scan_row-row n xs r1 b _ refl at (rw here lt) v' in
      (
        r2,
        result2,
        rw (o, f, e, next_row) refl,
        row.1 ∙ same,
        subst (λ k. Hands n (row_of b k ∷ xs) r2 result2) here row.0,
      )

  -- With fuel for two rounds more than the reader has events, Next of rows that are open returns,
  -- and the rows stay open. If nothing is left it answers io.EOF and the reader is closed; if the
  -- reader fails next it reports this failure; else it answers what reading the next row gives:
  -- its values, and then the rows after it are what is left, or the error of a column, and then
  -- the row is still the next one.
  pub next_row-Answers :
      (fuel n : ℕ) (r : Rows State)
      → r.closed ≡ false
      → suc (length (script r.reader)) < fuel
      → Answers fuel n (view c reader r) r
  next_row-Answers fuel n r o h =
      let (r1, result, f, same, ends) = fetch-view c reader fuel r (script r.reader) refl h in
      after_fetch fuel n (view c reader r) r r1 result o f same ends
