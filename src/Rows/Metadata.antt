-- ===== src/Rows/Metadata.antt =====
-- The outcome of queryRows, and the columns that the rows describe.
use datafusion_go.Base.{
  ℕ, zero, suc, ◌≡◌, refl, inl, inr, true, false, some, List, [], ◌∷◌, map, get_elem?, Bool-cases,
  String,
}
use datafusion_go.Base.Int.{pos}
use datafusion_go.Errors.{GoError, wrapf, errorf, str_arg, scan, ok, err, driver_error}
use datafusion_go.Arrow.{Field, ArrowType}
use datafusion_go.Reader.Interface.{ArrowReader}
use datafusion_go.Rows.Types.{
  Names, unsupported_arrow_family, is_database_sql_type, check_database_sql_type, scan_type,
  database_type_name, column_type_length, column_type_precision_scale,
}
use datafusion_go.Rows.Columns.{
  Rows, check_fields, init_metadata, blank_rows, new_rows, query_rows, column_type_scan_type,
  column_type_database_type_name, column_type_nullable, column_type_length_of,
  column_type_precision_scale_of, AreSupported,
}

-- The first loop of initMetadata succeeds for supported types, and fails otherwise.
check_fields-AreSupported :
    (names : Names) (fields : List Field) → AreSupported fields → check_fields names fields ≡ ok tt
unfolding check_fields check_database_sql_type
check_fields-AreSupported names [] h = refl
check_fields-AreSupported names (f ∷ fs) (h, hs) =
    rw (h, check_fields, check_database_sql_type) (check_fields-AreSupported names fs hs)

-- Some field has no type that database/sql can hold.
abbrev pub AnyUnsupported : List Field → Type 0
AnyUnsupported fields =
    (i : ℕ) × (f : Field) × (get_elem? fields i ≡ some f) × (is_database_sql_type f.type ≡ false)

abbrev refused : Names → String → ArrowType → GoError
refused names name dt = wrapf "column %q: %w" (str_arg name ∷ []) (
    errorf
      "database/sql conversion does not support Arrow %s type %s; use QueryArrowContext for exact Arrow data"
      (str_arg (unsupported_arrow_family dt) ∷ str_arg (names.type_text dt) ∷ []))

check_fields-AnyUnsupported :
    (names : Names) (fields : List Field) (i : ℕ) (f : Field)
    → get_elem? fields i ≡ some f
    → is_database_sql_type f.type ≡ false
    → (e : GoError) × (check_fields names fields ≡ err e)
unfolding check_fields check_database_sql_type
check_fields-AnyUnsupported names [] i f at h = cc
check_fields-AnyUnsupported names (g ∷ fs) zero f at h =
    let q : is_database_sql_type g.type ≡ false = cc in
    (refused names g.name g.type, rw (q, check_fields, check_database_sql_type) refl)
check_fields-AnyUnsupported names (g ∷ fs) (suc i) f at h =
    elim (Bool-cases (is_database_sql_type g.type)) [
      | inr q ↦ (refused names g.name g.type, rw (q, check_fields, check_database_sql_type) refl)
      | inl q ↦
          let (e, later) = check_fields-AnyUnsupported names fs i f at h in
          (e, rw (q, check_fields, check_database_sql_type) later)
    ]

get_elem?-map {ℓ κ} :
    {A : Type ℓ} {B : Type κ} (f : A → B) (xs : List A) (i : ℕ) (x : A)
    → get_elem? xs i ≡ some x
    → get_elem? (map f xs) i ≡ some (f x)
get_elem?-map f [] i x e = cc
get_elem?-map f (y ∷ xs) zero x e = cc
get_elem?-map f (y ∷ xs) (suc i) x e = get_elem?-map f xs i x e

-- A predicate of each field with its place.
abbrev pub ForEach : (ℕ → Field → Type 0) → List Field → Type 0
ForEach P [] = Unit
ForEach P (f ∷ fs) = P 0 f × ForEach (λ i. P (suc i)) fs

for_each :
    (P : ℕ → Field → Type 0) (fields : List Field)
    → ((i : ℕ) (f : Field) → get_elem? fields i ≡ some f → P i f)
    → ForEach P fields
for_each P [] h = tt
for_each P (f ∷ fs) h = (h 0 f refl, for_each (λ i. P (suc i)) fs λ i g e. h (suc i) g e)

module _ (reader : ArrowReader) where
  open reader use {State, schema, close, is_closed, close_closes}

  -- The rows that are made for a schema.
  abbrev described : Names → State → List Field → Rows State
  described names s fields = record (blank_rows s) {
    columns = map (λ (f : Field). f.name) fields;
    scan_types = map (λ (f : Field). scan_type f.type f.nullable) fields;
    db_types = map (λ (f : Field). database_type_name names f.type) fields;
    nullable = map (λ (f : Field). f.nullable) fields;
    lengths = map (λ (f : Field). column_type_length f.type) fields;
    scales = map (λ (f : Field). column_type_precision_scale f.type) fields;
  }

  -- What rows tell of a column, for the field of the schema.
  abbrev pub Describes : Names → Rows State → ℕ → Field → Type 0
  Describes names r i f =
      (column_type_scan_type r (pos i) ≡ some (scan_type f.type f.nullable))
      × (column_type_database_type_name r (pos i) ≡ database_type_name names f.type)
      × (column_type_nullable r (pos i) ≡ (f.nullable, true))
      × (column_type_length_of r (pos i) ≡ column_type_length f.type)
      × (column_type_precision_scale_of r (pos i) ≡ column_type_precision_scale f.type)

  -- If every type of the schema is supported, queryRows makes open rows over the reader that it was
  -- given, with the names of the fields, and the column type methods describe each column by its field.
  pub query_rows-AreSupported :
      (names : Names) (s : State) (fields : List Field)
      → schema s ≡ some fields
      → AreSupported fields
      → (r : Rows State) × (query_rows reader names s ≡ (s, ok r))
        × (r.reader ≡ s)
        × (r.closed ≡ false)
        × (r.columns ≡ map (λ (f : Field). f.name) fields)
        × ForEach (Describes names r) fields
  unfolding query_rows new_rows init_metadata column_type_scan_type column_type_database_type_name
      column_type_nullable column_type_length_of column_type_precision_scale_of
  query_rows-AreSupported names s fields e h = (
    described names s fields,
    rw (e, check_fields-AreSupported names fields h, query_rows, new_rows, init_metadata) refl,
    refl,
    refl,
    refl,
    for_each (Describes names (described names s fields)) fields λ i f at. (
      get_elem?-map _ fields i f at,
      rw
          (
            get_elem?-map (λ (g : Field). database_type_name names g.type) fields i f at,
            column_type_database_type_name,
          )
          refl,
      rw (get_elem?-map (λ (g : Field). g.nullable) fields i f at, column_type_nullable) refl,
      rw
          (
            get_elem?-map (λ (g : Field). column_type_length g.type) fields i f at,
            column_type_length_of,
          )
          refl,
      rw
          (
            get_elem?-map (λ (g : Field). column_type_precision_scale g.type) fields i f at,
            column_type_precision_scale_of,
          )
          refl,
    ),
  )

  -- If some type of the schema is not supported, queryRows reports a scan error, and the reader, which has
  -- no owner then, is closed.
  pub query_rows-AnyUnsupported :
      (names : Names) (s : State) (fields : List Field)
      → schema s ≡ some fields
      → AnyUnsupported fields
      → (e : GoError) × (query_rows reader names s
          ≡ (close s, err (driver_error scan "could not create DataFusion rows" e)))
        × (is_closed (query_rows reader names s).0 ≡ true)
  unfolding query_rows new_rows init_metadata
  query_rows-AnyUnsupported names s fields q (i, f, at, h) =
      let (e, fails) = check_fields-AnyUnsupported names fields i f at h in
      (
        e,
        rw (q, fails, query_rows, new_rows, init_metadata) refl,
        rw (q, fails, query_rows, new_rows, init_metadata) (close_closes s),
      )
