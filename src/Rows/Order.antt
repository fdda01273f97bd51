-- ===== src/Rows/Order.antt =====
-- Next of rows.go hands out the rows of the batches in their order.
use datafusion_go.Base.{
  ℕ, zero, suc, ◌-◌, ◌<◌, ◌≡◌, refl, sym, ap, subst, ◌∙◌, inl, inr, true, false, Option, none, some,
  List, [], ◌∷◌, ◌++◌, ltb, ◌==◌, length, if◌then◌else◌, Bool-cases, arith, ltb→lt, ltb→le, ==_iff,
}
use datafusion_go.Errors.{GoError, eof, Result, ok, err, scan, driver_error}
use datafusion_go.Arrow.{Batch}
use datafusion_go.Reader.Interface.{ArrowReader, is_eof, Event, batch, failed}
use datafusion_go.Rows.Value.{Conversions}
use datafusion_go.Rows.Columns.{Rows}
use datafusion_go.Rows.Iterate.{release_current, has_row_at, has_row, next_batch, fetch_once, fetch}

-- What is left to hand out: a row of a batch, or the failure of the reader.
pub data Item : Type 0 where
  row_of : Batch → ℕ → Item
  failure : GoError → Item

-- `n` rows of a batch from the row `i` on.
unfoldable pub rows_from : Batch → ℕ → ℕ → List Item
rows_from b i zero = []
rows_from b i (suc n) = row_of b i ∷ rows_from b (suc i) n

unfoldable pub items : List Event → List Item
unfolding rows_from
items [] = []
items (failed e ∷ es) = failure e ∷ []
items (batch b ∷ es) = rows_from b 0 b.num_rows ++ items es

-- The rest of the current batch.
unfoldable pub current_items : Option Batch → ℕ → List Item
unfolding rows_from
current_items none i = []
current_items (some b) i = rows_from b i (b.num_rows - i)

-- How Next reports a failure of the reader.
abbrev pub report : GoError → GoError
report e = if is_eof e then eof else driver_error scan "could not read DataFusion record batch" e

rows_from-past :
    (b : Batch) (i : ℕ) → ltb i b.num_rows ≡ false → rows_from b i (b.num_rows - i) ≡ []
unfolding rows_from
rows_from-past b i h =
    let e : b.num_rows - i ≡ 0 = omega (arith, ltb→le i b.num_rows h) in ap (rows_from b i) e

rows_from-left :
    (b : Batch) (i : ℕ)
    → ltb i b.num_rows ≡ true
    → rows_from b i (b.num_rows - i) ≡ row_of b i ∷ rows_from b (suc i) (b.num_rows - suc i)
unfolding rows_from
rows_from-left b i h =
    let e : b.num_rows - i ≡ suc (b.num_rows - suc i) = omega (arith, ltb→lt i b.num_rows h) in
    ap (rows_from b i) e

pub current_items-left :
    (o : Option Batch) (b : Batch) (i : ℕ) (xs : List Item)
    → o ≡ some b
    → ltb i b.num_rows ≡ true
    → current_items o i ++ xs ≡ row_of b i ∷ (current_items (some b) (suc i) ++ xs)
unfolding current_items
current_items-left o b i xs e h = rw (e, current_items, rows_from-left b i h) refl

current_items-past :
    (o : Option Batch) (i : ℕ) (xs : List Item)
    → has_row_at o i ≡ false
    → current_items o i ++ xs ≡ xs
unfolding current_items
current_items-past none i xs h = refl
current_items-past (some b) i xs h = ap (λ ys. ys ++ xs) (rows_from-past b i h)

has_row_at-some :
    (o : Option Batch) (i : ℕ)
    → has_row_at o i ≡ true
    → (b : Batch) × (o ≡ some b) × (ltb i b.num_rows ≡ true)
has_row_at-some none i h = cc
has_row_at-some (some b) i h = (b, refl, h)

-- A batch with rows, and one without.
items-num_rows :
    (b : Batch) (es : List Event) → (b.num_rows == 0) ≡ true → items (batch b ∷ es) ≡ items es
unfolding items rows_from
items-num_rows b es h =
    let e : b.num_rows ≡ 0 = omega (arith, (==_iff b.num_rows 0).0 h) in
    ap (λ n. rows_from b 0 n ++ items es) e

module _ (c : Conversions) (reader : ArrowReader) where
  open reader use {
    State, read, close, script, is_closed, read_batch, read_failed, read_end, close_closes,
  }

  unfoldable pub view : Rows State → List Item
  unfolding current_items items
  view r = current_items r.current r.row ++ items (script r.reader)

  -- Where the loop of Next ends, by what is left before it.
  unfoldable pub EndsAt : List Item → Rows State → Result (Unit {0}) → Type 0
  EndsAt [] r result = (result ≡ err eof) × (is_closed r.reader ≡ true)
  EndsAt (failure e ∷ xs) r result = result ≡ err (report e)
  EndsAt (row_of b i ∷ xs) r result =
      (result ≡ ok tt)
      × (r.current ≡ some b)
      × (r.row ≡ i)
      × (view r ≡ row_of b i ∷ xs)
      × (ltb i b.num_rows ≡ true)

  -- With a row left in the current batch.
  positioned : (r : Rows State) → has_row r ≡ true → EndsAt (view r) r (ok tt)
  unfolding view EndsAt
  positioned r h =
      let (b, e, lt) = has_row_at-some r.current r.row h in
      let eq = current_items-left r.current b r.row (items (script r.reader)) e lt in
      subst (λ xs. EndsAt xs r (ok tt)) (sym eq) (refl, e, refl, eq, lt)

  used_up : (r : Rows State) → has_row r ≡ false → view r ≡ items (script r.reader)
  unfolding view
  used_up r h = current_items-past r.current r.row (items (script r.reader)) h

  -- The fuel that the loop needs.
  abbrev pub Fetches : ℕ → Rows State → Type 0
  Fetches fuel r =
      (r' : Rows State) × (result : Result (Unit {0})) × (fetch c reader fuel r ≡ some (r', result))
      × (r'.closed ≡ r.closed)
      × EndsAt (view r) r' result

  -- A round that does not read: the current batch has a row.
  fetch-here : (fuel : ℕ) (r : Rows State) → has_row r ≡ true → Fetches (suc fuel) r
  unfolding fetch
  fetch-here fuel r e = (r, ok tt, rw (e, fetch) refl, refl, positioned r e)

  module _ (fuel : ℕ) (r : Rows State) (no_row : has_row r ≡ false) where
    fetch-end : script r.reader ≡ [] → Fetches (suc fuel) r
    unfolding fetch fetch_once release_current EndsAt items
    fetch-end s =
        let r1 = release_current r in
        let (got, left) = read_end r.reader s in
        (
          record r1 { reader = close (read r.reader).0 },
          err eof,
          rw (no_row, got, fetch, fetch_once) refl,
          refl,
          rw (used_up r no_row, s, EndsAt, items) (refl, close_closes (read r.reader).0),
        )

    fetch-failed :
        (e : GoError) (es : List Event) → script r.reader ≡ failed e ∷ es → Fetches (suc fuel) r
    unfolding fetch fetch_once release_current EndsAt items
    fetch-failed e es s = elim (Bool-cases (is_eof e)) [
      | inl q ↦ (
        record (release_current r) { reader = close (read r.reader).0 },
        err eof,
        rw (no_row, read_failed r.reader e es s, q, fetch, fetch_once) refl,
        refl,
        rw (used_up r no_row, s, q, EndsAt, items) refl,
      )
      | inr q ↦ (
        record (release_current r) { reader = (read r.reader).0 },
        err (report e),
        rw (no_row, read_failed r.reader e es s, q, fetch, fetch_once) refl,
        refl,
        rw (used_up r no_row, s, q, EndsAt, items) refl,
      )
    ]

    fetch-again :
        (r' : Rows State)
        → fetch_once c reader r ≡ next_batch r'
        → r'.closed ≡ r.closed
        → view r' ≡ view r
        → Fetches fuel r'
        → Fetches (suc fuel) r
    unfolding fetch
    fetch-again r' once same left (r2, result, e, closed, ends) = (
      r2,
      result,
      rw (no_row, once, fetch) e,
      closed ∙ same,
      subst (λ xs. EndsAt xs r2 result) left ends,
    )

    fetch-batch :
        (b : Batch) (es : List Event)
        → script r.reader ≡ batch b ∷ es
        → ((r' : Rows State) → script r'.reader ≡ es → Fetches fuel r')
        → Fetches (suc fuel) r
    unfolding fetch_once release_current view items current_items
    fetch-batch b es s rest =
        let (got, left) = read_batch r.reader b es s in
        let here : view r ≡ items (batch b ∷ es) = used_up r no_row ∙ ap items s in
        let all : b.num_rows - 0 ≡ b.num_rows = omega arith in
        elim (Bool-cases (b.num_rows == 0)) [
          | inl q ↦
              let r' : Rows State = record (release_current r) {
                reader = (read r.reader).0;
                taken = suc (release_current r).taken;
                releases = suc (release_current r).releases;
              } in
              fetch-again r' (rw (got, q, fetch_once) refl) refl
                (ap items left ∙ sym (items-num_rows b es q) ∙ sym here) (rest r' left)
          | inr q ↦
              let r' : Rows State = record (release_current r) {
                reader = (read r.reader).0;
                current = some b;
                row = 0;
                taken = suc (release_current r).taken;
              } in
              fetch-again r' (rw (got, q, fetch_once) refl) refl
                (ap (λ k. rows_from b 0 k ++ items (script (read r.reader).0)) all
                  ∙ ap (λ xs. rows_from b 0 b.num_rows ++ items xs) left
                  ∙ sym here)
                (rest r' left)
        ]

  -- The loop ends, and where it ends is determined by what is left.
  pub fetch-view :
      (fuel : ℕ) (r : Rows State) (es : List Event)
      → script r.reader ≡ es
      → suc (length es) < fuel
      → Fetches fuel r
  fetch-view zero r es s h = elim h [ ]
  fetch-view (suc fuel) r [] s h = elim (Bool-cases (has_row r)) [
    | inl e ↦ fetch-here fuel r e
    | inr e ↦ fetch-end fuel r e s
  ]
  fetch-view (suc fuel) r (failed x ∷ es) s h = elim (Bool-cases (has_row r)) [
    | inl e ↦ fetch-here fuel r e
    | inr e ↦ fetch-failed fuel r e x es s
  ]
  fetch-view (suc fuel) r (batch b ∷ es) s h = elim (Bool-cases (has_row r)) [
    | inl e ↦ fetch-here fuel r e
    | inr e ↦ fetch-batch fuel r e b es s λ r' s'. fetch-view fuel r' es s' (omega arith)
  ]
