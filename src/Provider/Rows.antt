-- ===== src/Provider/Rows.antt =====
-- The rows that a provider reader passes on.
use datafusion_go.Base.{
  ℕ, zero, suc, ◌-◌, ◌≤◌, ◌<◌, ◌==◌, ◌≡◌, refl, sym, ap, ◌∙◌, inl, inr, true, false, Option, none,
  some, List, [], ◌∷◌, ◌++◌, map, length, take, All, Bool-cases, ltb, ltb→le, ltb→lt, arith,
}
use datafusion_go.Base.Int.{ℤ, pos, negsuc}
use datafusion_go.Provider.Cells.{
  Row, batch_rows, select, batch_rows-project, length-rows_from, batch_rows-slice,
}
use datafusion_go.Provider.Reader.{
  limited, RecordBatch, ProviderReader, project, drop_current, is_spent, limit_batch, next_input,
  next_batch,
}

-- The rows of batches, one behind the other.
unfoldable pub rows_of : List RecordBatch → List Row
rows_of [] = []
rows_of (b ∷ bs) = batch_rows b ++ rows_of bs

-- The first rows, up to a limit; a limit below 0 is none.
abbrev pub take_limit : ℤ → List Row → List Row
take_limit (pos n) rows = take n rows
take_limit (negsuc n) rows = rows

-- What a client reads with Next until it answers false.
unfoldable pub drain : ℕ → ProviderReader → List RecordBatch
drain zero r = []
drain (suc fuel) r = elim (next_batch r).1 [
  | false ↦ []
  | true ↦ elim (next_batch r).0.current [ none ↦ [] | some b ↦ b ∷ drain fuel (next_batch r).0 ]
]

take-append-le {ℓ} :
    {A : Type ℓ} (n : ℕ) (xs ys : List A) → n ≤ length xs → take n (xs ++ ys) ≡ take n xs
take-append-le zero xs ys h = refl
take-append-le (suc n) [] ys h = elim h [ ]
take-append-le (suc n) (x ∷ xs) ys h = ap (◌∷◌ x) (take-append-le n xs ys (omega (arith, h)))

take-append-ge {ℓ} :
    {A : Type ℓ} (n : ℕ) (xs ys : List A)
    → length xs ≤ n
    → take n (xs ++ ys) ≡ xs ++ take (n - length xs) ys
take-append-ge n [] ys h = ap (λ k. take k ys) (omega arith)
take-append-ge zero (x ∷ xs) ys h = elim h [ ]
take-append-ge (suc n) (x ∷ xs) ys h =
    ap (◌∷◌ x) (take-append-ge n xs ys (omega (arith, h)) ∙ ap (λ k. xs ++ take k ys) (omega arith))

-- The state of the reader inside, with a batch less.
abbrev advance : ProviderReader → List (Option RecordBatch) → ProviderReader
advance r rest = record (drop_current r) { inner = record r.inner { rest = rest } }

-- Next, where the reader inside has a batch of the same schema.
next_batch-some :
    (r : ProviderReader) (b : RecordBatch) (rest : List (Option RecordBatch))
    → r.inner.rest ≡ some b ∷ rest
    → (b.schema == r.input_schema) ≡ true
    → r.done ≡ false
    → is_spent r.remaining ≡ false
    → next_batch r ≡ (limit_batch (advance r rest) (project r.projection r.schema b), true)
unfolding next_batch next_input
next_batch-some r b rest at same more left =
    simp (more, left, at, same, next_batch, next_input) refl

-- Where Next has passed on the batch `b'`, reading goes on.
drain-some :
    (fuel : ℕ) (r r' : ProviderReader) (b : RecordBatch)
    → next_batch r ≡ (r', true)
    → r'.current ≡ some b
    → drain (suc fuel) r ≡ b ∷ drain fuel r'
unfolding drain
drain-some fuel r r' b e c = simp (e, c, drain) refl

drain-stop :
    (fuel : ℕ) (r r' : ProviderReader) → next_batch r ≡ (r', false) → drain (suc fuel) r ≡ []
unfolding drain
drain-stop fuel r r' e = simp (e, drain) refl

drain-spent :
    (fuel : ℕ) (r : ProviderReader)
    → r.done ≡ false
    → is_spent r.remaining ≡ true
    → drain (suc fuel) r ≡ []
unfolding next_batch
drain-spent fuel r more e = drain-stop fuel r (drop_current r) (simp (more, e, next_batch) refl)

drain-end :
    (fuel : ℕ) (r : ProviderReader)
    → r.done ≡ false
    → is_spent r.remaining ≡ false
    → r.inner.rest ≡ []
    → drain (suc fuel) r ≡ []
unfolding next_batch next_input
drain-end fuel r more left e =
    drain-stop fuel r (record (drop_current r) { done = true; error = r.inner.failure })
      (simp (more, left, e, next_batch, next_input) refl)

-- The reader inside has the batches `bs`, all of its schema.
abbrev pub Hands : ProviderReader → List RecordBatch → Type 0
Hands r bs =
    (r.inner.rest ≡ map some bs) × All (λ (b : RecordBatch). (b.schema == r.input_schema) ≡ true) bs

-- The batches as the projection makes them.
map-append {ℓ} :
    {A B : Type ℓ} (f : A → B) (xs ys : List A) → map f (xs ++ ys) ≡ map f xs ++ map f ys
map-append f [] ys = refl
map-append f (x ∷ xs) ys = ap (λ zs. f x ∷ zs) (map-append f xs ys)

length-take {ℓ} : {A : Type ℓ} (n : ℕ) (xs : List A) → n ≤ length xs → length (take n xs) ≡ n
length-take zero xs h = refl
length-take (suc n) [] h = elim h [ ]
length-take (suc n) (x ∷ xs) h = ap suc (length-take n xs (omega (arith, h)))

append-nil {ℓ} : {A : Type ℓ} (xs : List A) → xs ++ [] ≡ xs
append-nil [] = refl
append-nil (x ∷ xs) = ap (◌∷◌ x) (append-nil xs)

take_limit-nil : (limit : ℤ) → take_limit limit [] ≡ []
take_limit-nil (pos zero) = refl
take_limit-nil (pos (suc n)) = refl
take_limit-nil (negsuc n) = refl

take_limit-spent :
    (limit : ℤ) (rows : List Row) → is_spent limit ≡ true → take_limit limit rows ≡ []
take_limit-spent (pos zero) rows e = refl
take_limit-spent (pos (suc n)) rows e = cc
take_limit-spent (negsuc n) rows e = cc

limited-take_limit :
    (limit : ℤ) (b : RecordBatch) (rows : List Row)
    → batch_rows (limited limit b).0 ++ take_limit (limited limit b).1 rows
      ≡ take_limit limit (batch_rows b ++ rows)
unfolding limited
limited-take_limit (negsuc n) b rows = refl
limited-take_limit (pos n) b rows = elim (Bool-cases (ltb n b.num_rows)) [
  | inl e ↦
      let all : n - n ≡ 0 = omega arith in
      let short : n ≤ b.num_rows = omega (arith, ltb→lt n b.num_rows e) in
      let within : n ≤ length (batch_rows b) =
        omega (arith, short, length-rows_from b.columns 0 b.num_rows) in
      rw (e, batch_rows-slice n b short)
        (ap (λ k. take n (batch_rows b) ++ take k rows) all
          ∙ append-nil (take n (batch_rows b))
          ∙ sym (take-append-le n (batch_rows b) rows within))
  | inr e ↦
      let size = length-rows_from b.columns 0 b.num_rows in
      let within : length (batch_rows b) ≤ n = omega (arith, size, ltb→le n b.num_rows e) in
      rw e (
        ap (λ k. batch_rows b ++ take (n - k) rows) (sym size)
        ∙ sym (take-append-ge n (batch_rows b) rows within))
]

-- Where the reader inside has only batches of its schema left, reading a provider reader to its
-- end, with one call of Next more than there are batches, gives the first rows of these batches up to
-- the limit, all of them without one, in their order, and of each row the cells that the projection
-- selects, all of them without one.
pub drain-take_limit :
    (fuel : ℕ) (r : ProviderReader) (bs : List RecordBatch)
    → Hands r bs
    → r.done ≡ false
    → length bs < fuel
    → rows_of (drain fuel r) ≡ take_limit r.remaining (map (select r.projection) (rows_of bs))
unfolding rows_of limit_batch
drain-take_limit zero r bs h more f = elim f [ ]
drain-take_limit (suc fuel) r [] (at, same) more f = elim (Bool-cases (is_spent r.remaining)) [
  | inl e ↦ ap rows_of (drain-spent fuel r more e) ∙ sym (take_limit-nil r.remaining)
  | inr e ↦ ap rows_of (drain-end fuel r more e at) ∙ sym (take_limit-nil r.remaining)
]
drain-take_limit (suc fuel) r (b ∷ bs) (at, (same, sames)) more f =
    elim (Bool-cases (is_spent r.remaining)) [
      | inl e ↦
          ap rows_of (drain-spent fuel r more e)
          ∙ sym (take_limit-spent r.remaining (map (select r.projection) (rows_of (b ∷ bs))) e)
      | inr e ↦
          let b' = project r.projection r.schema b in
          let r' = limit_batch (advance r (map some bs)) b' in
          let go = next_batch-some r b (map some bs) at same more e in
          let later = map (select r.projection) (rows_of bs) in
          ap rows_of (drain-some fuel r r' (limited r.remaining b').0 go refl)
          ∙ ap (λ rows. batch_rows (limited r.remaining b').0 ++ rows)
              (drain-take_limit fuel r' bs (refl, sames) more (omega (arith, f)))
          ∙ limited-take_limit r.remaining b' later
          ∙ ap (λ rows. take_limit r.remaining (rows ++ later))
              (batch_rows-project r.projection r.schema b)
          ∙ ap (take_limit r.remaining)
              (sym (map-append (select r.projection) (batch_rows b) (rows_of bs)))
    ]
