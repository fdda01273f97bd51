-- ===== src/Provider/Cells.antt =====
-- The rows of a batch, which has columns, and what projecting and slicing a batch do to them.
use datafusion_go.Base.{
  ℕ, zero, suc, ◌+◌, String, get_elem?, ◌≤◌, ◌<◌, ◌≡◌, refl, sym, ap, ◌∙◌, Option, none, some, List,
  [], ◌∷◌, map, length, take, arith,
}
use datafusion_go.Provider.Reader.{Column, RecordBatch, column_at, slice, project}

-- A row, by its cells.
abbrev pub Row : Type 0
Row = List (Option String)

-- The cell of a column, or of a row, with this number.
abbrev pub cell_at : List (Option String) → ℕ → Option String
cell_at cells i = elim (get_elem? cells i) [ none ↦ none | some cell ↦ cell ]

abbrev pub row_at : List Column → ℕ → Row
row_at columns i = map (λ c. cell_at c i) columns

-- So many rows of columns, from the row `i` on.
unfoldable pub rows_from : List Column → ℕ → ℕ → List Row
rows_from columns i zero = []
rows_from columns i (suc n) = row_at columns i ∷ rows_from columns (suc i) n

abbrev pub batch_rows : RecordBatch → List Row
batch_rows b = rows_from b.columns 0 b.num_rows

-- The cells of a row that a projection selects, in its order.
abbrev pub select : Option (List ℕ) → Row → Row
select none row = row
select (some indices) row = map (cell_at row) indices

-- The cell `i` of the column `j` is the cell `j` of the row `i`.
cell_at-column_at :
    (columns : List Column) (i j : ℕ)
    → cell_at (column_at columns j) i ≡ cell_at (row_at columns i) j
cell_at-column_at [] i j = refl
cell_at-column_at (c ∷ columns) i zero = refl
cell_at-column_at (c ∷ columns) i (suc j) = cell_at-column_at columns i j

row_at-column_at :
    (columns : List Column) (i : ℕ) (indices : List ℕ)
    → row_at (map (column_at columns) indices) i ≡ map (cell_at (row_at columns i)) indices
row_at-column_at columns i [] = refl
row_at-column_at columns i (j ∷ indices) =
    cc (cell_at-column_at columns i j, row_at-column_at columns i indices)

rows_from-column_at :
    (columns : List Column) (indices : List ℕ) (i n : ℕ)
    → rows_from (map (column_at columns) indices) i n
      ≡ map (select (some indices)) (rows_from columns i n)
unfolding rows_from
rows_from-column_at columns indices i zero = refl
rows_from-column_at columns indices i (suc n) =
    cc (row_at-column_at columns i indices, rows_from-column_at columns indices (suc i) n)

map-id {ℓ} : {A : Type ℓ} (xs : List A) → map (λ x. x) xs ≡ xs
map-id [] = refl
map-id (x ∷ xs) = ap (λ ys. x ∷ ys) (map-id xs)

-- The rows of a projected batch are the selected cells of the rows of the batch.
pub batch_rows-project :
    (p : Option (List ℕ)) (schema : ℕ) (b : RecordBatch)
    → batch_rows (project p schema b) ≡ map (select p) (batch_rows b)
unfolding project
batch_rows-project none schema b = sym (map-id (batch_rows b))
batch_rows-project (some indices) schema b = rows_from-column_at b.columns indices 0 b.num_rows

cell_at-take : (n i : ℕ) (c : Column) → i < n → cell_at (take n c) i ≡ cell_at c i
cell_at-take zero i c h = elim h [ ]
cell_at-take (suc n) i [] h = refl
cell_at-take (suc n) zero (x ∷ c) h = refl
cell_at-take (suc n) (suc i) (x ∷ c) h = cell_at-take n i c (omega (arith, h))

row_at-take :
    (n i : ℕ) (columns : List Column) → i < n → row_at (map (take n) columns) i ≡ row_at columns i
row_at-take n i [] h = refl
row_at-take n i (c ∷ columns) h = cc (cell_at-take n i c h, row_at-take n i columns h)

rows_from-take :
    (n i k : ℕ) (columns : List Column)
    → i + k ≤ n
    → rows_from (map (take n) columns) i k ≡ rows_from columns i k
unfolding rows_from
rows_from-take n i zero columns h = refl
rows_from-take n i (suc k) columns h = cc (
  row_at-take n i columns (omega (arith, h)),
  rows_from-take n (suc i) k columns (omega (arith, h)),
)

take-rows_from :
    (columns : List Column) (i n m : ℕ)
    → n ≤ m
    → take n (rows_from columns i m) ≡ rows_from columns i n
unfolding rows_from
take-rows_from columns i zero m h = refl
take-rows_from columns i (suc n) zero h = elim h [ ]
take-rows_from columns i (suc n) (suc m) h =
    ap (λ rows. row_at columns i ∷ rows) (take-rows_from columns (suc i) n m (omega (arith, h)))

pub length-rows_from : (columns : List Column) (i n : ℕ) → length (rows_from columns i n) ≡ n
unfolding rows_from
length-rows_from columns i zero = refl
length-rows_from columns i (suc n) = ap suc (length-rows_from columns (suc i) n)

-- The rows of a slice are the first rows of the batch.
pub batch_rows-slice :
    (n : ℕ) (b : RecordBatch) → n ≤ b.num_rows → batch_rows (slice n b) ≡ take n (batch_rows b)
batch_rows-slice n b h =
    rows_from-take n 0 n b.columns (omega arith) ∙ sym (take-rows_from b.columns 0 n b.num_rows h)
