-- ===== src/Provider/Ownership.antt =====
-- What a provider reader owns: the reader inside, and the batch that it shows.
use datafusion_go.Base.{
  ◌+◌, ℕ, zero, suc, ◌==◌, ◌≡◌, ◌⊎◌, refl, sym, ap, subst, ◌∙◌, inl, inr, ◌||◌, Option, none, some,
  List, [], ◌∷◌, Bool-cases, arith,
}
use datafusion_go.Base.Int.{ℤ, pos, negsuc}
use datafusion_go.Provider.Reader.{
  RecordBatch, Inner, ProviderReader, new_provider_reader, drop_current, is_spent, limit_batch,
  next_input, next_batch, retain, release,
}

abbrev pub batches_in : Option RecordBatch → ℕ
batches_in none = 0
batches_in (some b) = 1

-- While a reference is left, the reader inside is not released and as many batches were shown as dropped,
-- and the one that is shown; with the last reference there is none, and the reader inside was released
-- once.
abbrev pub IsOwned : ℤ → Inner → Option RecordBatch → ℕ → ℕ → Type 0
IsOwned (pos zero) inner current taken drops =
    (inner.releases ≡ 1) × (current ≡ none) × (taken ≡ drops)
IsOwned (pos (suc n)) inner current taken drops =
    (inner.releases ≡ 0) × (taken ≡ drops + batches_in current)
IsOwned (negsuc n) inner current taken drops = ⊥

abbrev pub Owns : ProviderReader → Type 0
Owns r = IsOwned r.refs r.inner r.current r.taken r.drops

-- What Next leaves: as many references, the reader inside not released again, and the batch that is
-- shown not dropped.
record IsKept (r r' : ProviderReader) : Type 0 where
  refs : r'.refs ≡ r.refs
  releases : r'.inner.releases ≡ r.inner.releases
  balance : r'.taken ≡ r'.drops + batches_in r'.current

dropped :
    (o : Option RecordBatch) (n k : ℕ)
    → n ≡ k + batches_in o
    → n ≡ (elim o [ none ↦ k | some b ↦ suc k ])
dropped none n k e = omega (arith, e)
dropped (some b) n k e = omega (arith, e)

-- Where no batch is shown.
not_shown : (o : Option RecordBatch) (n k : ℕ) → o ≡ none → n ≡ k → n ≡ k + batches_in o
not_shown none n k c e = omega (arith, e)
not_shown (some b) n k c e = cc

List-cases {ℓ} : {A : Type ℓ} (xs : List A) → (xs ≡ []) ⊎ ((x : A) × (ys : List A) × (xs ≡ x ∷ ys))
List-cases [] = inl refl
List-cases (x ∷ xs) = inr (x, xs, refl)

next_input-IsKept :
    (r : ProviderReader) → r.taken ≡ r.drops → r.current ≡ none → IsKept r (next_input r).0
unfolding next_input limit_batch
next_input-IsKept r h c = elim (List-cases r.inner.rest) [
  | inl e ↦
      simp (e, next_input)
        (record { refs = refl; releases = refl; balance = not_shown r.current r.taken r.drops c h })
  | inr (none, rest, e) ↦
      simp (e, next_input)
        (record { refs = refl; releases = refl; balance = not_shown r.current r.taken r.drops c h })
  | inr (some b, rest, e) ↦ elim (Bool-cases (b.schema == r.input_schema)) [
    | inl s ↦
        simp (e, s, next_input)
          (record { refs = refl; releases = refl; balance = omega (arith, h) })
    | inr s ↦
        simp (e, s, next_input)
          (record {
            refs = refl;
            releases = refl;
            balance = not_shown r.current r.taken r.drops c h;
          })
  ]
]

next_batch-IsKept :
    (r : ProviderReader) → r.taken ≡ r.drops + batches_in r.current → IsKept r (next_batch r).0
unfolding next_batch
next_batch-IsKept r h = elim (Bool-cases (r.done || is_spent r.remaining)) [
  | inl e ↦
      simp (e, next_batch)
        (record {
          refs = refl;
          releases = refl;
          balance = not_shown none _ _ refl (dropped r.current r.taken r.drops h);
        })
  | inr e ↦
      let kept = next_input-IsKept (drop_current r) (dropped r.current r.taken r.drops h) refl in
      simp (e, next_batch)
        (record { refs = kept.refs; releases = kept.releases; balance = kept.balance })
]

-- The calls of clients that hold a reference.
pub data Op : Type 0 where
  retain_op release_op next_op : Op

unfoldable pub step : Op → ProviderReader → ProviderReader
step retain_op r = retain r
step release_op r = release r
step next_op r = (next_batch r).0

-- When the last reference is gone nothing is called.
unfoldable pub run : List Op → ProviderReader → ProviderReader
run [] r = r
run (op ∷ ops) r = elim r.refs [ pos zero ↦ r | z ↦ run ops (step op r) ]

next_op-Owns : (r : ProviderReader) (n : ℕ) → r.refs ≡ pos (suc n) → Owns r → Owns (next_batch r).0
next_op-Owns r n e o =
    let (alive, balance) = subst (λ z. IsOwned z r.inner r.current r.taken r.drops) e o in
    let kept = next_batch-IsKept r balance in
    rw (kept.refs ∙ e) (kept.releases ∙ alive, kept.balance)

retain-Owns : (r : ProviderReader) (n : ℕ) → r.refs ≡ pos (suc n) → Owns r → Owns (retain r)
unfolding retain
retain-Owns r n e o =
    let held = subst (λ z. IsOwned z r.inner r.current r.taken r.drops) e o in simp (e, retain) held

release-Owns : (r : ProviderReader) (n : ℕ) → r.refs ≡ pos (suc n) → Owns r → Owns (release r)
unfolding release
release-Owns r zero e o =
    let (alive, balance) = subst (λ z. IsOwned z r.inner r.current r.taken r.drops) e o in
    simp (e, release) (ap suc alive, refl, dropped r.current r.taken r.drops balance)
release-Owns r (suc n) e o =
    let held = subst (λ z. IsOwned z r.inner r.current r.taken r.drops) e o in
    simp (e, release) held

step-Owns :
    (op : Op) (r : ProviderReader) (n : ℕ) → r.refs ≡ pos (suc n) → Owns r → Owns (step op r)
unfolding step
step-Owns retain_op r n e o = retain-Owns r n e o
step-Owns release_op r n e o = release-Owns r n e o
step-Owns next_op r n e o = next_op-Owns r n e o

run-keeps-by :
    (op : Op) (ops : List Op) (r : ProviderReader) (z : ℤ)
    → r.refs ≡ z
    → ((r' : ProviderReader) → Owns r' → Owns (run ops r'))
    → Owns r
    → Owns (run (op ∷ ops) r)
unfolding run
run-keeps-by op ops r (pos zero) e rest o =
    let stays : run (op ∷ ops) r ≡ r = simp (e, run) refl in subst Owns (sym stays) o
run-keeps-by op ops r (pos (suc n)) e rest o =
    simp (e, run) (rest (step op r) (step-Owns op r n e o))
run-keeps-by op ops r (negsuc n) e rest o =
    elim (subst (λ z. IsOwned z r.inner r.current r.taken r.drops) e o) [ ]

run-keeps : (ops : List Op) (r : ProviderReader) → Owns r → Owns (run ops r)
unfolding run
run-keeps [] r o = o
run-keeps (op ∷ ops) r o = run-keeps-by op ops r r.refs refl (run-keeps ops) o

-- Over any calls of Next, Retain and Release by clients that hold a reference, a new provider reader
-- releases the reader that it was given exactly once, with its last reference, and not before; until then
-- each batch that it has shown is released once, but the one that it shows, and then that one too.
pub run-Owns :
    (ops : List Op) (inner : Inner) (schema : ℕ) (projection : Option (List ℕ)) (limit : ℤ)
    → inner.releases ≡ 0
    → Owns (run ops (new_provider_reader inner schema projection limit))
unfolding new_provider_reader
run-Owns ops inner schema projection limit h =
    run-keeps ops (new_provider_reader inner schema projection limit) (h, omega arith)
