-- ===== src/Callback/Names.antt =====
-- The names that a discoverable catalog lists, as dispatchCallback checks and sorts them.
use datafusion_go.Base.{
  ℕ, String, str_eq, eq_iff, ◌≡◌, refl, Bool, true, false, ◌||◌, List, [], ◌∷◌, arith, ltb, ◌==◌,
  if◌then◌else◌, Bool-cases, inl, inr, ap, sym, subst, ◌∙◌,
}
use datafusion_go.Base.Text.{codes}
use datafusion_go.Errors.{errorf, Result, ok, ◌>>◌, fail_if, >>=-eq-ok, fail_if-eq-ok}
use datafusion_go.Session.State.{has_nul}

-- The order of Go's strings: of their bytes, and so of their code points.
codes_le : List ℕ → List ℕ → Bool
codes_le [] ds = true
codes_le (c ∷ cs) [] = false
codes_le (c ∷ cs) (d ∷ ds) = if c == d then codes_le cs ds else ltb c d

unfoldable pub name_le : String → String → Bool
unfolding codes_le
name_le s t = codes_le (codes s) (codes t)

-- slices.Sort.
unfoldable pub insert : String → List String → List String
insert n [] = n ∷ []
insert n (m ∷ ms) = let rest = insert n ms in if name_le n m then n ∷ m ∷ ms else m ∷ rest

unfoldable pub sort : List String → List String
unfolding insert
sort [] = []
sort (n ∷ ns) = insert n (sort ns)

-- slices.Compact.
unfoldable pub compact : List String → List String
compact [] = []
compact (n ∷ []) = n ∷ []
compact (n ∷ m ∷ ms) = let rest = compact (m ∷ ms) in if str_eq n m then rest else n ∷ rest

-- The loop that looks for an empty name, or one with a NUL.
unfoldable pub any_bad : List String → Bool
any_bad [] = false
any_bad (n ∷ ns) = str_eq n "" || has_nul n || any_bad ns

unfoldable pub catalog_names : List String → Result (List String)
unfolding any_bad sort compact
catalog_names names = do
  fail_if (any_bad names) (errorf "catalog returned an empty or NUL-containing name" [])
  ok (compact (sort names))

codes_le-total : (cs ds : List ℕ) → codes_le cs ds ≡ false → codes_le ds cs ≡ true
unfolding codes_le
codes_le-total [] ds h = cc
codes_le-total (c ∷ cs) [] h = refl
codes_le-total (c ∷ cs) (d ∷ ds) h = ground (arith, codes_le-total cs ds)

name_le-total : (s t : String) → name_le s t ≡ false → name_le t s ≡ true
unfolding name_le
name_le-total s t h = codes_le-total (codes s) (codes t) h

-- In increasing order: each name before the next one, or equal to it.
abbrev pub IsSorted : List String → Type 0
IsSorted [] = Unit
IsSorted (n ∷ []) = Unit
IsSorted (n ∷ m ∷ ms) = (name_le n m ≡ true) × IsSorted (m ∷ ms)

-- And no name next to itself.
abbrev pub IsListing : List String → Type 0
IsListing [] = Unit
IsListing (n ∷ []) = Unit
IsListing (n ∷ m ∷ ms) = (name_le n m ≡ true) × (str_eq n m ≡ false) × IsListing (m ∷ ms)

abbrev pub mem : String → List String → Bool
mem n [] = false
mem n (m ∷ ms) = str_eq n m || mem n ms

mem-insert : (k n : String) (ns : List String) → mem k (insert n ns) ≡ (str_eq k n || mem k ns)
unfolding insert
mem-insert k n [] = refl
mem-insert k n (m ∷ ms) = ground (arith, mem-insert k n ms)

mem-sort : (k : String) (ns : List String) → mem k (sort ns) ≡ mem k ns
unfolding sort
mem-sort k [] = refl
mem-sort k (n ∷ ns) = cc (mem-insert k n (sort ns), mem-sort k ns)

mem-compact : (k : String) (ns : List String) → mem k (compact ns) ≡ mem k ns
unfolding compact
mem-compact k [] = refl
mem-compact k (n ∷ []) = refl
mem-compact k (n ∷ m ∷ ms) = ground (arith, mem-compact k (m ∷ ms), eq_iff n m)

insert-IsSorted : (n : String) (ns : List String) → IsSorted ns → IsSorted (insert n ns)
unfolding insert
insert-IsSorted n [] h = tt
insert-IsSorted n (m ∷ []) h = ground (arith, name_le-total n m)
insert-IsSorted n (m ∷ k ∷ ks) h = elim (Bool-cases (name_le n m)) [
  | inl e ↦
      let out : insert n (m ∷ k ∷ ks) ≡ n ∷ m ∷ k ∷ ks = simp (e, insert) refl in
      subst IsSorted (sym out) (e, h)
  | inr e ↦
      let out : insert n (m ∷ k ∷ ks) ≡ m ∷ insert n (k ∷ ks) = simp (e, insert) refl in
      elim (Bool-cases (name_le n k)) [
        | inl f ↦
            let first : insert n (k ∷ ks) ≡ n ∷ k ∷ ks = simp (f, insert) refl in
            subst IsSorted (sym (out ∙ ap (λ l. m ∷ l) first)) (name_le-total n m e, (f, h.1))
        | inr f ↦
            let later : insert n (k ∷ ks) ≡ k ∷ insert n ks = simp (f, insert) refl in
            subst IsSorted (sym (out ∙ ap (λ l. m ∷ l) later))
              (h.0, subst IsSorted later (insert-IsSorted n (k ∷ ks) h.1))
      ]
]

sort-IsSorted : (ns : List String) → IsSorted (sort ns)
unfolding sort
sort-IsSorted [] = tt
sort-IsSorted (n ∷ ns) = insert-IsSorted n (sort ns) (sort-IsSorted ns)

-- What compacting leaves begins as before.
compact_head :
    (n : String) (ns : List String) → (rest : List String) × (compact (n ∷ ns) ≡ n ∷ rest)
unfolding compact
compact_head n [] = ([], refl)
compact_head n (m ∷ ms) = elim (Bool-cases (str_eq n m)) [
  | inl e ↦
      let (rest, h) = compact_head m ms in
      let dropped : compact (n ∷ m ∷ ms) ≡ compact (m ∷ ms) = simp (e, compact) refl in
      (rest, dropped ∙ h ∙ ap (λ k. k ∷ rest) (sym ((eq_iff n m).0 e)))
  | inr e ↦ (compact (m ∷ ms), simp (e, compact) refl)
]

compact-IsListing : (ns : List String) → IsSorted ns → IsListing (compact ns)
unfolding compact
compact-IsListing [] h = tt
compact-IsListing (n ∷ []) h = tt
compact-IsListing (n ∷ m ∷ ms) h = elim (Bool-cases (str_eq n m)) [
  | inl e ↦
      let dropped : compact (n ∷ m ∷ ms) ≡ compact (m ∷ ms) = simp (e, compact) refl in
      subst IsListing (sym dropped) (compact-IsListing (m ∷ ms) h.1)
  | inr e ↦
      let (rest, head) = compact_head m ms in
      let kept : compact (n ∷ m ∷ ms) ≡ n ∷ compact (m ∷ ms) = simp (e, compact) refl in
      let tail : IsListing (m ∷ rest) = subst IsListing head (compact-IsListing (m ∷ ms) h.1) in
      subst IsListing (sym (kept ∙ ap (λ l. n ∷ l) head)) (h.0, e, tail)
]

-- The names that the engine gets of a catalog, if the listing succeeds, are in increasing order, none
-- of them twice, and they are the names that the catalog gave, none of which is empty or has a NUL.
pub catalog_names-IsListing :
    (names listed : List String) (name : String)
    → catalog_names names ≡ ok listed
    → IsListing listed × (mem name listed ≡ mem name names) × (any_bad names ≡ false)
unfolding catalog_names
catalog_names-IsListing names listed name h =
    let (u, fine, out) = >>=-eq-ok (fail_if (any_bad names) _) _ h in
    let same : compact (sort names) ≡ listed = cc (out) in
    subst (λ l. IsListing l × (mem name l ≡ mem name names) × (any_bad names ≡ false)) same
      (
        compact-IsListing (sort names) (sort-IsSorted names),
        mem-compact name (sort names) ∙ mem-sort name names,
        fail_if-eq-ok (any_bad names) _ fine,
      )
