-- ===== src/Exec/Totals.antt =====
-- What execResult returns, for any reader that keeps the laws of ArrowReader.
use datafusion_go.Base.{
  ℕ, zero, suc, ◌+◌, ◌≤◌, ◌<◌, ◌≡◌, refl, ap, ◌∙◌, true, Option, none, some, List, [], ◌∷◌, map,
  length, if◌then◌else◌, arith,
}
use datafusion_go.Base.Int.{ℤ, pos, ◌+ℤ◌, ◌-ℤ◌, wrap64}
use datafusion_go.Errors.{execute, Result, ok, err, driver_error}
use datafusion_go.Arrow.{Batch}
use datafusion_go.Reader.Interface.{ArrowReader, is_eof, Event, batch, failed}
use datafusion_go.Exec.Count.{rows_affected_from_record, overflows}
use datafusion_go.Exec.Loop.{
  Progress, Next, return, again, add_count, exec_batch, exec_loop, exec_result, start,
}

-- The result, as a function of what the reader will hand out.
pub exec_events : Progress → List Event → Result ℤ
exec_events p [] = ok p.rows_affected
exec_events p (failed e ∷ es) =
    if is_eof e
    then ok p.rows_affected
    else err (driver_error execute "could not execute DataFusion statement" e)
exec_events p (batch b ∷ es) = elim (exec_batch p b) [
  | return result ↦ result
  | again p' ↦ exec_events p' es
]

-- The loop runs one round for each event, and ends.
abbrev Ends : {S : Type 0} → Option (S × Result ℤ) → Result ℤ → Type 0
Ends {S} x result = (r : S) × (x ≡ some (r, result))

module _ (reader : ArrowReader) where
  open reader use {
    State, read, close, script, is_closed, read_batch, read_failed, read_end, close_closes,
  }

  after_batch :
      (fuel : ℕ) (r : State) (p : Progress) (b : Batch) (es : List Event)
      → (read r).1 ≡ ok b
      → ((p' : Progress) → Ends (exec_loop reader fuel (read r).0 p') (exec_events p' es))
      → (x : Next) → exec_batch p b ≡ x
      → Ends (exec_loop reader (suc fuel) r p) (exec_events p (batch b ∷ es))
  unfolding exec_loop exec_events
  after_batch fuel r p b es got rest (return result) e =
      ((read r).0, rw (got, e, exec_loop, exec_events))
  after_batch fuel r p b es got rest (again p') e =
      let (r', ends) = rest p' in (r', rw (got, e, exec_loop, exec_events) ends)

  exec_loop-exec_events :
      (fuel : ℕ) (r : State) (p : Progress) (es : List Event)
      → script r ≡ es
      → length es < fuel
      → Ends (exec_loop reader fuel r p) (exec_events p es)
  unfolding exec_loop exec_events
  exec_loop-exec_events zero r p es s h = elim h [ ]
  exec_loop-exec_events (suc fuel) r p [] s h = ((read r).0, rw ((read_end r s).0, exec_loop))
  exec_loop-exec_events (suc fuel) r p (failed e ∷ es) s h =
      ((read r).0, rw (read_failed r e es s, exec_loop, exec_events))
  exec_loop-exec_events (suc fuel) r p (batch b ∷ es) s h =
      let (got, left) = read_batch r b es s in
      after_batch fuel r p b es got
        (λ p'. exec_loop-exec_events fuel (read r).0 p' es left (omega arith)) (exec_batch p b) refl

  -- With fuel for one round more than the reader has events, execResult returns, with the result
  -- that these events determine, and with the reader closed.
  pub exec_result-exec_events :
      (fuel : ℕ) (r : State)
      → length (script r) < fuel
      → (r' : State) × (exec_result reader fuel r ≡ some (r', exec_events start (script r)))
        × (is_closed r' ≡ true)
  unfolding exec_result
  exec_result-exec_events fuel r h =
      let (r', ends) = exec_loop-exec_events fuel r start (script r) refl h in
      (close r', rw (ends, exec_result), close_closes r')

-- Every batch is a count, with the given numbers.
abbrev pub HaveCounts : List Batch → List ℕ → Type 0
HaveCounts [] [] = Unit
HaveCounts (b ∷ bs) (n ∷ ns) = (rows_affected_from_record b ≡ ok (some (pos n))) × HaveCounts bs ns
HaveCounts _ _ = ⊥

abbrev pub sum : List ℕ → ℕ
sum [] = 0
sum (n ∷ ns) = n + sum ns

abbrev counted : ℕ → Progress
counted t = record { rows_affected = pos t; count_result = some true }

-- A batch that is a count, after other counts or as the first.
add_count-pos :
    (t n : ℕ)
    → t + n ≤ 9223372036854775807
    → add_count (counted t) (pos n) ≡ again (counted (t + n))
unfolding add_count overflows wrap64 ◌+ℤ◌ ◌-ℤ◌
add_count-pos t n h = ground arith

exec_batch-count :
    (t n : ℕ) (b : Batch)
    → rows_affected_from_record b ≡ ok (some (pos n))
    → t + n ≤ 9223372036854775807
    → (exec_batch (counted t) b ≡ again (counted (t + n)))
      × (exec_batch (record { rows_affected = pos t; count_result = none }) b
          ≡ again (counted (t + n)))
unfolding exec_batch
exec_batch-count t n b e h =
    (rw (e, exec_batch) (add_count-pos t n h), rw (e, exec_batch) (add_count-pos t n h))

exec_events-counted :
    (t : ℕ) (bs : List Batch) (ns : List ℕ)
    → HaveCounts bs ns
    → t + sum ns ≤ 9223372036854775807
    → exec_events (counted t) (map batch bs) ≡ ok (pos (t + sum ns))
unfolding exec_events
exec_events-counted t [] [] c h = ap (λ (k : ℕ). ok (pos k)) (omega arith)
exec_events-counted t (b ∷ bs) (n ∷ ns) (e, c) h =
    rw ((exec_batch-count t n b e (omega arith)).0, exec_events)
      (exec_events-counted (t + n) bs ns c (omega arith) ∙ ap (λ (k : ℕ). ok (pos k)) (omega arith))
exec_events-counted t _ _ c h = elim c [ ]

exec_events-start :
    (bs : List Batch) (ns : List ℕ)
    → HaveCounts bs ns
    → sum ns ≤ 9223372036854775807
    → exec_events start (map batch bs) ≡ ok (pos (sum ns))
unfolding exec_events
exec_events-start [] [] c h = refl
exec_events-start (b ∷ bs) (n ∷ ns) (e, c) h =
    rw ((exec_batch-count 0 n b e (omega arith)).1, exec_events)
      (exec_events-counted (0 + n) bs ns c (omega arith) ∙ ap (λ (k : ℕ). ok (pos k)) (omega arith))
exec_events-start _ _ c h = elim c [ ]

length-map-batch : (bs : List Batch) → length (map batch bs) ≡ length bs
length-map-batch [] = refl
length-map-batch (b ∷ bs) = ap suc (length-map-batch bs)

-- A statement whose batches are all counts affects as many rows as they sum up to, where the sum is
-- an int64; the reader is closed, and one read more than there are batches is enough.
pub exec_result-counts :
    (reader : ArrowReader) (r : ArrowReader.State reader) (bs : List Batch) (ns : List ℕ)
    → ArrowReader.script reader r ≡ map batch bs
    → HaveCounts bs ns
    → sum ns ≤ 9223372036854775807
    → (r' : ArrowReader.State reader) × (exec_result reader (suc (length bs)) r
        ≡ some (r', ok (pos (sum ns))))
      × (ArrowReader.is_closed reader r' ≡ true)
exec_result-counts reader r bs ns s c h =
    let (r', e, closed) =
      exec_result-exec_events reader (suc (length bs)) r
        (rw s (omega (arith, length-map-batch bs))) in
    (r', e ∙ rw s (rw (exec_events-start bs ns c h) refl), closed)
