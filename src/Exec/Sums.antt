-- ===== src/Exec/Sums.antt =====
-- The checked sums of result.go are exact.
use datafusion_go.Base.{
  ℕ, ◌+◌, ◌≤◌, ◌≡◌, refl, ap, ◌∙◌, not, Option, none, some, List, [], ◌∷◌, if◌then◌else◌, arith,
}
use datafusion_go.Base.Int.{
  ℤ, pos, negsuc, ◌+ℤ◌, ◌-ℤ◌, wrap64, wrap64_lem, IsInt64, is_int64, +ℤ_assoc, +ℤ_zero, zero_+ℤ,
}
use datafusion_go.Errors.{GoError, Result, ok, err, >>=-eq-ok}
use datafusion_go.Arrow.{ArrowArray}
use datafusion_go.Exec.Count.{overflows, checked_add, sum_values, sum_integer_array, integer_values}

-- Between int64 values the guards refuse exactly the sums that are no int64.
pub overflows-is_int64 :
    (total value : ℤ)
    → IsInt64 total
    → IsInt64 value
    → overflows total value ≡ not (is_int64 (total +ℤ value))
unfolding overflows ◌+ℤ◌ ◌-ℤ◌
overflows-is_int64 total value t v = ground arith

pub checked_add-is_int64 :
    (e : GoError) (total value : ℤ)
    → IsInt64 total
    → IsInt64 value
    → checked_add e total value ≡ (if is_int64 (total +ℤ value) then ok (total +ℤ value) else err e)
unfolding checked_add
checked_add-is_int64 e total value t v =
    ground (arith, overflows-is_int64 total value t v, wrap64_lem (total +ℤ value))

-- The cells that are read, and that are no error, are int64 values.
abbrev pub AreInt64 : List (Option (Result ℤ)) → Type 0
AreInt64 [] = Unit
AreInt64 (some (ok v) ∷ cells) = IsInt64 v × AreInt64 cells
AreInt64 (_ ∷ cells) = AreInt64 cells

-- The sum of the cells, in the integers.
pub cell_sum : List (Option (Result ℤ)) → ℤ
cell_sum [] = pos 0
cell_sum (some (ok v) ∷ cells) = v +ℤ cell_sum cells
cell_sum (_ ∷ cells) = cell_sum cells

checked_add-ok :
    (e : GoError) (total value n : ℤ)
    → IsInt64 total
    → IsInt64 value
    → checked_add e total value ≡ ok n
    → (n ≡ total +ℤ value) × IsInt64 n
unfolding checked_add
checked_add-ok e total value n t v h = ground (arith, checked_add-is_int64 e total value t v)

-- Where the sum of a column succeeds, it is exact, and an int64.
sum_values-exact :
    (total : ℤ) (cells : List (Option (Result ℤ))) (n : ℤ)
    → IsInt64 total
    → AreInt64 cells
    → sum_values total cells ≡ ok n
    → (n ≡ total +ℤ cell_sum cells) × IsInt64 n
unfolding sum_values cell_sum
sum_values-exact total [] n t c e = ground (arith, +ℤ_zero total)
sum_values-exact total (none ∷ cells) n t c e = sum_values-exact total cells n t c e
sum_values-exact total (some (ok v) ∷ cells) n t (hv, c) e =
    let (next, added, rest) = >>=-eq-ok (checked_add _ total v) _ e in
    let (same, fits) = checked_add-ok _ total v next t hv added in
    let (total', fits') = sum_values-exact next cells n fits c rest in
    (total' ∙ rw (same, +ℤ_assoc total v (cell_sum cells)) refl, fits')
sum_values-exact total (some (err x) ∷ cells) n t c e = cc

-- The cells that are read are counts: not negative, and no error.
abbrev pub AreCounts : List (Option (Result ℤ)) → Type 0
AreCounts [] = Unit
AreCounts (none ∷ cells) = AreCounts cells
AreCounts (some (ok (pos n)) ∷ cells) = AreCounts cells
AreCounts (some (ok (negsuc n)) ∷ cells) = ⊥
AreCounts (some (err x) ∷ cells) = ⊥

unfoldable pub count_sum : List (Option (Result ℤ)) → ℕ
count_sum [] = 0
count_sum (some (ok (pos n)) ∷ cells) = n + count_sum cells
count_sum (_ ∷ cells) = count_sum cells

checked_add-pos :
    (e : GoError) (a b : ℕ)
    → a + b ≤ 9223372036854775807
    → checked_add e (pos a) (pos b) ≡ ok (pos (a + b))
unfolding checked_add overflows wrap64 ◌+ℤ◌ ◌-ℤ◌
checked_add-pos e a b h = ground arith

sum_values-counts :
    (total : ℕ) (cells : List (Option (Result ℤ)))
    → AreCounts cells
    → total + count_sum cells ≤ 9223372036854775807
    → sum_values (pos total) cells ≡ ok (pos (total + count_sum cells))
unfolding sum_values count_sum
sum_values-counts total [] c h = ground arith
sum_values-counts total (none ∷ cells) c h = sum_values-counts total cells c h
sum_values-counts total (some (ok (pos n)) ∷ cells) c h =
    rw (checked_add-pos _ total n (omega arith)) (
      sum_values-counts (total + n) cells c (omega arith)
      ∙ ap (λ (k : ℕ). ok (pos k)) (omega arith))
sum_values-counts total (some (ok (negsuc n)) ∷ cells) c h = elim c [ ]
sum_values-counts total (some (err x) ∷ cells) c h = elim c [ ]

-- Where the sum of a column of int64 values succeeds, it is the sum in the integers, over all rows
-- that are not null, and it is an int64.
pub sum_integer_array-exact :
    (values : ArrowArray) (n : ℤ)
    → AreInt64 (integer_values values)
    → sum_integer_array values ≡ ok n
    → (n ≡ cell_sum (integer_values values)) × IsInt64 n
unfolding sum_integer_array
sum_integer_array-exact values n c e =
    let (same, fits) = sum_values-exact (pos 0) (integer_values values) n (omega arith) c e in
    (same ∙ zero_+ℤ (cell_sum (integer_values values)), fits)

-- A column of counts whose sum is an int64 is summed.
pub sum_integer_array-counts :
    (values : ArrowArray)
    → AreCounts (integer_values values)
    → count_sum (integer_values values) ≤ 9223372036854775807
    → sum_integer_array values ≡ ok (pos (count_sum (integer_values values)))
unfolding sum_integer_array
sum_integer_array-counts values c h =
    sum_values-counts 0 (integer_values values) c (omega arith)
    ∙ ap (λ (k : ℕ). ok (pos k)) (omega arith)
