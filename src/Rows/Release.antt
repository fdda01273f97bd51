-- ===== src/Rows/Release.antt =====
-- The batches that rows.go holds, over any sequence of Next and Close.
use datafusion_go.Base.{
  When, ℕ, zero, suc, ◌==◌, ◌≡◌, refl, ◌+◌, subst, inl, inr, true, false, Option, none, some, List,
  [], ◌∷◌, Bool-cases, arith,
}
use datafusion_go.Errors.{Result, ok, err}
use datafusion_go.Arrow.{Batch, Field}
use datafusion_go.Reader.Interface.{ArrowReader, is_eof}
use datafusion_go.Rows.Types.{Names}
use datafusion_go.Rows.Value.{SqlValue, Conversions}
use datafusion_go.Rows.Columns.{Rows, check_fields, init_metadata, blank_rows, new_rows}
use datafusion_go.Rows.Iterate.{
  Fetched, stop, next_batch, fetch_once, has_row, scan_columns, fetch, scan_row, next_row,
  close_rows, release_current, released, released,
}

abbrev pub batches_in : Option Batch → ℕ
batches_in none = 0
batches_in (some b) = 1

module _ (c : Conversions) (reader : ArrowReader) where
  open reader use {State, read, close, is_closed, close_closes}

  -- As many batches were taken as were released, and the current one; once the rows are closed there
  -- is none and the reader is closed.
  pub record IsBalanced (r : Rows State) : Type 0 where
    pub balance : r.taken ≡ r.releases + batches_in r.current
    pub shut : When r.closed ((r.current ≡ none) × (is_closed r.reader ≡ true))

  -- The same of rows that are open.
  abbrev IsOpen : Rows State → Type 0
  IsOpen r = (r.taken ≡ r.releases + batches_in r.current) × (r.closed ≡ false)

  open-IsBalanced : (r : Rows State) → IsOpen r → IsBalanced r
  open-IsBalanced r (b, o) = record { balance = b; shut = rw o tt }

  released-batches_in : (o : Option Batch) (n k : ℕ) → n ≡ k + batches_in o → n ≡ released o k + 0
  released-batches_in none n k e = e
  released-batches_in (some b) n k e = omega (arith, e)

  abbrev After : Fetched c reader → Type 0
  After (stop r e) = IsOpen r
  After (next_batch r) = IsOpen r

  fetch_once-IsOpen :
      (r : Rows State) (got : Result Batch)
      → (read r.reader).1 ≡ got
      → IsOpen r
      → After (fetch_once c reader r)
  unfolding fetch_once release_current
  fetch_once-IsOpen r (err e) g (b, o) = elim (Bool-cases (is_eof e)) [
    | inl q ↦ rw (g, q, fetch_once) (released-batches_in r.current r.taken r.releases b, o)
    | inr q ↦ rw (g, q, fetch_once) (released-batches_in r.current r.taken r.releases b, o)
  ]
  fetch_once-IsOpen r (ok rec) g (b, o) = elim (Bool-cases (rec.num_rows == 0)) [
    | inl q ↦
        rw (g, q, fetch_once) (omega (arith, released-batches_in r.current r.taken r.releases b), o)
    | inr q ↦
        rw (g, q, fetch_once) (omega (arith, released-batches_in r.current r.taken r.releases b), o)
  ]

  -- Whatever it returns, it leaves rows that keep a predicate.
  abbrev Leaves {ℓ} : {A : Type ℓ} → (Rows State → Type 0) → Option (Rows State × A) → Type 0
  Leaves P none = Unit
  Leaves P (some (r, a)) = P r

  fetch_step :
      (fuel : ℕ) (r : Rows State) (x : Fetched c reader)
      → ((r' : Rows State) → IsOpen r' → Leaves IsOpen (fetch c reader fuel r'))
      → has_row r ≡ false
      → fetch_once c reader r ≡ x
      → After x
      → Leaves IsOpen (fetch c reader (suc fuel) r)
  unfolding fetch
  fetch_step fuel r (stop r' e) rest out once a = rw (out, once, fetch) a
  fetch_step fuel r (next_batch r') rest out once a = rw (out, once, fetch) (rest r' a)

  fetch-IsOpen : (fuel : ℕ) (r : Rows State) → IsOpen r → Leaves IsOpen (fetch c reader fuel r)
  unfolding fetch
  fetch-IsOpen zero r h = tt
  fetch-IsOpen (suc fuel) r h = elim (Bool-cases (has_row r)) [
    | inl q ↦ rw (q, fetch) h
    | inr q ↦
        fetch_step fuel r (fetch_once c reader r) (fetch-IsOpen fuel) q refl
          (fetch_once-IsOpen r _ refl h)
  ]

  scanned :
      (r : Rows State) (n : ℕ) (b : Batch) (result : Result (List SqlValue))
      → r.current ≡ some b
      → scan_columns c b r.row 0 n ≡ result
      → IsOpen r
      → IsOpen (scan_row c reader r n).0
  unfolding scan_row
  scanned r n b (ok values) e q h = rw (e, q, scan_row) h
  scanned r n b (err x) e q h = rw (e, q, scan_row) h

  scan_row-IsOpen :
      (r : Rows State) (n : ℕ) (o : Option Batch)
      → r.current ≡ o
      → IsOpen r
      → IsOpen (scan_row c reader r n).0
  unfolding scan_row
  scan_row-IsOpen r n none e h = rw (e, scan_row) h
  scan_row-IsOpen r n (some b) e h = scanned r n b _ e refl h

  next_after :
      (fuel : ℕ) (r : Rows State) (n : ℕ) (x : Option (Rows State × Result (Unit {0})))
      → r.closed ≡ false
      → fetch c reader fuel r ≡ x
      → Leaves IsOpen x
      → Leaves IsBalanced (next_row c reader fuel r n)
  unfolding next_row
  next_after fuel r n none o e h = rw (o, e, next_row) tt
  next_after fuel r n (some (r', ok u)) o e h =
      rw (o, e, next_row)
        (open-IsBalanced (scan_row c reader r' n).0 (scan_row-IsOpen r' n r'.current refl h))
  next_after fuel r n (some (r', err x)) o e h = rw (o, e, next_row) (open-IsBalanced r' h)

  next_row-IsBalanced :
      (fuel : ℕ) (r : Rows State) (n : ℕ)
      → IsBalanced r
      → Leaves IsBalanced (next_row c reader fuel r n)
  unfolding next_row
  next_row-IsBalanced fuel r n h = elim (Bool-cases r.closed) [
    | inl q ↦ rw (q, next_row) h
    | inr q ↦ next_after fuel r n _ q refl (fetch-IsOpen fuel r (h.balance, q))
  ]

  close_rows-IsBalanced : (r : Rows State) → IsBalanced r → IsBalanced (close_rows c reader r)
  unfolding close_rows release_current
  close_rows-IsBalanced r h = elim (Bool-cases r.closed) [
    | inl q ↦ rw (q, close_rows) h
    | inr q ↦
        rw (q, close_rows)
          (record {
            balance = released-batches_in r.current r.taken r.releases h.balance;
            shut = (refl, close_closes r.reader);
          })
  ]

  -- What the user of the rows calls; the number of columns is the user's, too.
  pub data RowsOp : Type 0 where
    next_op : (fuel n : ℕ) → RowsOp
    close_op : RowsOp

  unfoldable pub run_rows : List RowsOp → Rows State → Rows State
  run_rows [] r = r
  run_rows (next_op fuel n ∷ ops) r = elim (next_row c reader fuel r n) [
    | none ↦ r
    | some (r', result) ↦ run_rows ops r'
  ]
  run_rows (close_op ∷ ops) r = run_rows ops (close_rows c reader r)

  next_op-keeps :
      (fuel n : ℕ) (ops : List RowsOp) (r : Rows State)
      (x : Option (Rows State × Result (List SqlValue)))
      → next_row c reader fuel r n ≡ x
      → Leaves IsBalanced x
      → IsBalanced r
      → ((r' : Rows State) → IsBalanced r' → IsBalanced (run_rows ops r'))
      → IsBalanced (run_rows (next_op fuel n ∷ ops) r)
  unfolding run_rows
  next_op-keeps fuel n ops r none e left h rest = rw (e, run_rows) h
  next_op-keeps fuel n ops r (some (r', x)) e left h rest = rw (e, run_rows) (rest r' left)

  run_rows-keeps : (ops : List RowsOp) (r : Rows State) → IsBalanced r → IsBalanced (run_rows ops r)
  unfolding run_rows
  run_rows-keeps [] r h = h
  run_rows-keeps (next_op fuel n ∷ ops) r h =
      next_op-keeps fuel n ops r _ refl (next_row-IsBalanced fuel r n h) h (run_rows-keeps ops)
  run_rows-keeps (close_op ∷ ops) r h =
      run_rows-keeps ops (close_rows c reader r) (close_rows-IsBalanced r h)

  -- New rows, if there are any, are open.
  abbrev AreOpen : Result (Rows State) → Type 0
  AreOpen (ok r) = IsOpen r
  AreOpen (err e) = Unit

  init_metadata-AreOpen :
      (names : Names) (s : State) (fields : List Field) (x : Result (Unit {0}))
      → check_fields names fields ≡ x
      → AreOpen (init_metadata names (blank_rows s) fields)
  unfolding init_metadata
  init_metadata-AreOpen names s fields (ok u) q = rw (q, init_metadata) (refl, refl)
  init_metadata-AreOpen names s fields (err e) q = rw (q, init_metadata) tt

  new_rows-AreOpen :
      (names : Names) (s : State) (o : Option (List Field))
      → reader.schema s ≡ o
      → AreOpen (new_rows reader names s)
  unfolding new_rows
  new_rows-AreOpen names s none q = rw (q, new_rows) tt
  new_rows-AreOpen names s (some fields) q =
      rw (q, new_rows) (init_metadata-AreOpen names s fields _ refl)

  -- From rows that newRows made, any sequence of Next and Close, up to a Next whose fuel runs out,
  -- leaves as many batches taken as released, and the current one: every batch that was read before it
  -- has been released, once. When the rows are closed there is no such batch, and the reader is closed.
  pub run_rows-IsBalanced :
      (names : Names) (s : State) (r : Rows State) (ops : List RowsOp)
      → new_rows reader names s ≡ ok r
      → IsBalanced (run_rows ops r)
  run_rows-IsBalanced names s r ops e =
      run_rows-keeps ops r
        (open-IsBalanced r (subst AreOpen e (new_rows-AreOpen names s (reader.schema s) refl)))
