-- ===== src/Rows/Columns.antt =====
-- The metadata of a result: newRows, initMetadata and the column type methods of rows.go, and
-- queryRows of execution.go.
use datafusion_go.Base.{
  ℕ, ◌≡◌, Bool, true, false, Option, none, some, List, [], ◌∷◌, map, get_elem?, String, All,
}
use datafusion_go.Base.Int.{ℤ, pos, negsuc}
use datafusion_go.Errors.{
  wrapf, errorf, str_arg, Result, ok, err, ◌>>◌, map_err, driver_error, scan,
}
use datafusion_go.Arrow.{Batch, Field}
use datafusion_go.Reader.Interface.{ArrowReader}
use datafusion_go.Rows.Types.{
  Names, is_database_sql_type, check_database_sql_type, ScanType, scan_type, TypeName, formatted,
  database_type_name, column_type_length, column_type_precision_scale,
}

-- rows. `taken` counts the batches that Read returned, and `releases` the calls of Release on them.
pub record Rows (S : Type 0) : Type 0 where
  pub reader : S
  pub current : Option Batch
  pub row : ℕ
  pub columns : List String
  pub scan_types : List ScanType
  pub db_types : List TypeName
  pub nullable : List Bool
  pub lengths : List (Option ℕ)
  pub scales : List (Option (ℕ × ℤ))
  pub closed : Bool
  pub taken : ℕ
  pub releases : ℕ

-- The first loop of initMetadata.
unfoldable pub check_fields : Names → List Field → Result (Unit {0})
check_fields names [] = ok tt
check_fields names (f ∷ fs) = do
  map_err (wrapf "column %q: %w" (str_arg f.name ∷ [])) (check_database_sql_type names f.type)
  check_fields names fs

-- initMetadata.
unfoldable pub init_metadata : {S : Type 0} → Names → Rows S → List Field → Result (Rows S)
unfolding check_fields
init_metadata names r fields = do
  check_fields names fields
  ok (record r {
    columns = map (λ (f : Field). f.name) fields;
    scan_types = map (λ (f : Field). scan_type f.type f.nullable) fields;
    db_types = map (λ (f : Field). database_type_name names f.type) fields;
    nullable = map (λ (f : Field). f.nullable) fields;
    lengths = map (λ (f : Field). column_type_length f.type) fields;
    scales = map (λ (f : Field). column_type_precision_scale f.type) fields;
  })

-- `&rows{reader: reader}`.
abbrev pub blank_rows : {S : Type 0} → S → Rows S
blank_rows s = record {
  reader = s;
  current = none;
  row = 0;
  columns = [];
  scan_types = [];
  db_types = [];
  nullable = [];
  lengths = [];
  scales = [];
  closed = false;
  taken = 0;
  releases = 0;
}

module _ (reader : ArrowReader) where
  open reader use {State, schema, close}

  -- newRows.
  unfoldable pub new_rows : Names → State → Result (Rows State)
  unfolding init_metadata
  new_rows names s = elim (schema s) [
    | none ↦ err (errorf "DataFusion result schema is nil" [])
    | some fields ↦ init_metadata names (blank_rows s) fields
  ]

  -- queryRows. The reader is closed when there are no rows to own it.
  unfoldable pub query_rows : Names → State → State × Result (Rows State)
  unfolding new_rows
  query_rows names s = elim (new_rows names s) [
    | ok r ↦ (s, ok r)
    | err e ↦ (close s, err (driver_error scan "could not create DataFusion rows" e))
  ]

-- An element by an index that may be negative.
abbrev at_index {ℓ} : {A : Type ℓ} → List A → ℤ → Option A
at_index xs (pos i) = get_elem? xs i
at_index xs (negsuc i) = none

-- The methods of rows that answer for a column: `nil`, `""` and `false` are what they answer for a
-- column that is not there.
module _ {S : Type 0} (r : Rows S) (index : ℤ) where
  unfoldable pub column_type_scan_type : Option ScanType
  column_type_scan_type = at_index r.scan_types index

  unfoldable pub column_type_database_type_name : TypeName
  column_type_database_type_name = elim (at_index r.db_types index) [
    | none ↦ formatted "" []
    | some t ↦ t
  ]

  -- The pair of `nullable` and `ok`.
  unfoldable pub column_type_nullable : Bool × Bool
  column_type_nullable = elim (at_index r.nullable index) [
    | none ↦ (false, false)
    | some n ↦ (n, true)
  ]

  -- `none` is the answer that is not ok.
  unfoldable pub column_type_length_of : Option ℕ
  column_type_length_of = elim (at_index r.lengths index) [ none ↦ none | some l ↦ l ]

  unfoldable pub column_type_precision_scale_of : Option (ℕ × ℤ)
  column_type_precision_scale_of = elim (at_index r.scales index) [ none ↦ none | some l ↦ l ]

-- Every field has a type that database/sql can hold.
abbrev pub AreSupported : List Field → Type 0
AreSupported fields = All (λ (f : Field). is_database_sql_type f.type ≡ true) fields
