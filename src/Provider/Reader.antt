-- ===== src/Provider/Reader.antt =====
-- ProjectReader, LimitReader and providerReader of provider_reader.go. The reader inside, an
-- array.RecordReader, is what it will hand out.
use datafusion_go.Base.{
  ◌+◌, ℕ, zero, suc, ◌-◌, ◌==◌, String, Bool, true, false, not, ◌||◌, Option, none, some, List, [],
  ◌∷◌, map, get_elem?, take, ltb, if◌then◌else◌,
}
use datafusion_go.Base.Int.{ℤ, pos, negsuc, ltb_ℤ}
use datafusion_go.Errors.{GoError, errorf, int_arg, Result, ok, err, ◌>>=◌, ◌>>◌, fail_if}
use datafusion_go.Base.{ℕ}

-- A column, by its cells; `none` is null.
abbrev pub Column : Type 0
Column = List (Option String)

-- An arrow.RecordBatch: its schema, by a number that tells schemas apart, its columns, and its number of
-- rows.
pub record RecordBatch : Type 0 where
  pub schema : ℕ
  pub columns : List Column
  pub num_rows : ℕ

-- The reader inside: the batches that Next will find, where `none` is a nil batch, what Err answers behind
-- them, and how often it was released.
pub record Inner : Type 0 where
  pub schema : ℕ
  pub num_fields : ℕ
  pub rest : List (Option RecordBatch)
  pub failure : Option GoError
  pub releases : ℕ

-- providerReader. `taken` counts the batches that became the current one, and `drops` the calls of their
-- Release.
pub record ProviderReader : Type 0 where
  pub refs : ℤ
  pub inner : Inner
  pub input_schema : ℕ
  pub schema : ℕ
  pub projection : Option (List ℕ)
  pub remaining : ℤ
  pub current : Option RecordBatch
  pub error : Option GoError
  pub done : Bool
  pub taken : ℕ
  pub drops : ℕ

-- newProviderReader.
unfoldable pub new_provider_reader : Inner → ℕ → Option (List ℕ) → ℤ → ProviderReader
new_provider_reader inner schema projection limit = record {
  refs = pos 1;
  inner = inner;
  input_schema = inner.schema;
  schema = schema;
  projection = projection;
  remaining = limit;
  current = none;
  error = none;
  done = false;
  taken = 0;
  drops = 0;
}

-- The loop of ProjectReader over the indices.
unfoldable pub check_projection : ℕ → List ℤ → Result (List ℕ)
check_projection n [] = ok []
check_projection n (negsuc i ∷ indices) = err (
    errorf "datafusion projection index %d outside schema with %d fields"
      (int_arg (negsuc i) ∷ int_arg (pos n) ∷ []))
check_projection n (pos i ∷ indices) = do
  fail_if (not (ltb i n)) (
      errorf "datafusion projection index %d outside schema with %d fields"
        (int_arg (pos i) ∷ int_arg (pos n) ∷ []))
  rest ← check_projection n indices
  ok (i ∷ rest)

-- ProjectReader of a reader with a schema; `none` are the indices that are nil, and `projected` is the
-- schema of the selected fields.
unfoldable pub project_reader : Inner → ℕ → Option (List ℤ) → Result ProviderReader
unfolding check_projection new_provider_reader
project_reader inner projected none = ok (new_provider_reader inner inner.schema none (negsuc 0))
project_reader inner projected (some indices) = do
  projection ← check_projection inner.num_fields indices
  ok (new_provider_reader inner projected (some projection) (negsuc 0))

-- LimitReader of a reader with a schema.
unfoldable pub limit_reader : Inner → ℤ → Result ProviderReader
unfolding new_provider_reader
limit_reader inner limit = do
  fail_if (ltb_ℤ limit (negsuc 0)) (errorf "datafusion reader limit must be -1 or nonnegative" [])
  ok (new_provider_reader inner inner.schema none limit)

-- Retain.
unfoldable pub retain : ProviderReader → ProviderReader
retain r = elim r.refs [
  | pos n ↦ record r { refs = pos (suc n) }
  | negsuc zero ↦ record r { refs = pos 0 }
  | negsuc (suc n) ↦ record r { refs = negsuc n }
]

-- `r.current.Release()`, if there is a current batch.
abbrev pub drop_current : ProviderReader → ProviderReader
drop_current r = record r {
  current = none;
  drops = elim r.current [ none ↦ r.drops | some b ↦ suc r.drops ];
}

-- Release.
unfoldable pub release : ProviderReader → ProviderReader
release r = elim r.refs [
  | pos (suc zero) ↦
      let r1 = drop_current (record r { refs = pos 0 }) in
      record r1 { inner = record r1.inner { releases = suc r1.inner.releases } }
  | pos (suc (suc n)) ↦ record r { refs = pos (suc n) }
  | pos zero ↦ record r { refs = negsuc zero }
  | negsuc n ↦ record r { refs = negsuc (suc n) }
]

-- Column, of an index that the schema has.
abbrev pub column_at : List Column → ℕ → Column
column_at columns i = elim (get_elem? columns i) [ none ↦ [] | some column ↦ column ]

-- The batch that Next makes of one of the reader inside, without the limit.
unfoldable pub project : Option (List ℕ) → ℕ → RecordBatch → RecordBatch
project none schema b = b
project (some indices) schema b = record {
  schema = schema;
  columns = map (column_at b.columns) indices;
  num_rows = b.num_rows;
}

-- NewSlice(0, n).
abbrev pub slice : ℕ → RecordBatch → RecordBatch
slice n b = record b { columns = map (take n) b.columns; num_rows = n }

-- The batch that was made, cut at the limit, and what is left of the limit then.
unfoldable pub limited : ℤ → RecordBatch → RecordBatch × ℤ
limited (negsuc n) b = (b, negsuc n)
limited (pos n) b =
    let b' = if ltb n b.num_rows then slice n b else b in (b', pos (n - b'.num_rows))

-- Whether the batch is sliced, by which the one that was made is released.
abbrev pub cuts : ℤ → RecordBatch → ℕ
cuts (negsuc n) b = 0
cuts (pos n) b = if ltb n b.num_rows then 1 else 0

-- The last part of Next, with the batch that was made.
unfoldable pub limit_batch : ProviderReader → RecordBatch → ProviderReader
unfolding limited
limit_batch r b = record r {
  current = some (limited r.remaining b).0;
  taken = suc r.taken + cuts r.remaining b;
  drops = r.drops + cuts r.remaining b;
  remaining = (limited r.remaining b).1;
}

abbrev fail : ProviderReader → ProviderReader
fail r = record r {
  done = true;
  error = some (errorf "datafusion input reader returned a nil batch or changed schema" []);
}

abbrev pub is_spent : ℤ → Bool
is_spent (pos zero) = true
is_spent _ = false

-- Next, behind the release of the current batch and the test for the end.
unfoldable pub next_input : ProviderReader → ProviderReader × Bool
unfolding project limit_batch
next_input r = elim r.inner.rest [
  | [] ↦ (record r { done = true; error = r.inner.failure }, false)
  | none ∷ rest ↦ (fail (record r { inner = record r.inner { rest = rest } }), false)
  | some b ∷ rest ↦
      let r1 = record r { inner = record r.inner { rest = rest } } in
      if b.schema == r.input_schema
      then (limit_batch r1 (project r.projection r.schema b), true)
      else (fail r1, false)
]

-- Next.
unfoldable pub next_batch : ProviderReader → ProviderReader × Bool
unfolding next_input
next_batch r =
    let r1 = drop_current r in if r.done || is_spent r.remaining then (r1, false) else next_input r1
