-- ===== src/Provider/Tests.antt =====
-- Examples for the theorems on provider readers.
use datafusion_go.Base.{◌≡◌, refl, false, some, none, List, [], ◌∷◌, map, arith}
use datafusion_go.Base.Int.{pos, negsuc}
use datafusion_go.Provider.Reader.{
  RecordBatch, Inner, ProviderReader, new_provider_reader, next_batch,
}
use datafusion_go.Provider.Cells.{select, rows_from}
use datafusion_go.Provider.Rows.{rows_of, take_limit, drain, drain-take_limit}
use datafusion_go.Provider.Ownership.{Op, retain_op, release_op, next_op, Owns, run, run-Owns}

abbrev batches : List RecordBatch
batches =
    record {
      schema = 4;
      columns = (some "a" ∷ none ∷ []) ∷ (some "b" ∷ some "c" ∷ []) ∷ [];
      num_rows = 2;
    }
    ∷ record {
      schema = 4;
      columns = (some "d" ∷ some "e" ∷ []) ∷ (some "f" ∷ none ∷ []) ∷ [];
      num_rows = 2;
    }
    ∷ []

abbrev inner : Inner
inner = record {
  schema = 4;
  num_fields = 2;
  rest =
      some (record {
        schema = 4;
        columns = (some "a" ∷ none ∷ []) ∷ (some "b" ∷ some "c" ∷ []) ∷ [];
        num_rows = 2;
      })
      ∷ some (record {
        schema = 4;
        columns = (some "d" ∷ some "e" ∷ []) ∷ (some "f" ∷ none ∷ []) ∷ [];
        num_rows = 2;
      })
      ∷ [];
  failure = none;
  releases = 0;
}

abbrev reader : ProviderReader
reader = record {
  refs = pos 1;
  inner = inner;
  input_schema = 4;
  schema = 5;
  projection = some (1 ∷ 0 ∷ []);
  remaining = pos 3;
  current = none;
  error = none;
  done = false;
  taken = 0;
  drops = 0;
}

drained_run :
    rows_of (drain 3 reader)
    ≡ (some "b" ∷ some "a" ∷ []) ∷ (some "c" ∷ none ∷ []) ∷ (some "f" ∷ some "d" ∷ []) ∷ []
unfolding rows_of drain next_batch rows_from
drained_run = refl

drain-take_limit_example :
    rows_of (drain 3 reader)
    ≡ take_limit (pos 3) (map (select (some (1 ∷ 0 ∷ []))) (rows_of batches))
drain-take_limit_example =
    drain-take_limit 3 reader batches (refl, (refl, (refl, tt))) refl (omega arith)

abbrev ops : List Op
ops = next_op ∷ retain_op ∷ release_op ∷ next_op ∷ release_op ∷ next_op ∷ []

run-Owns_example : Owns (run ops (new_provider_reader inner 5 (some (1 ∷ [])) (negsuc 0)))
run-Owns_example = run-Owns ops inner 5 (some (1 ∷ [])) (negsuc 0) refl
