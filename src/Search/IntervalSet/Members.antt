-- ===== src/Search/IntervalSet/Members.antt =====
-- `contains` of src/search/duplicate_filter.rs: the binary search decides membership.
use Prim.Native.Nat.{Ordering}
use puzzle71_solver.Prelude.{
  ℕ, zero, suc, ◌+◌, ◌≤◌, ◌<◌, ◌≡◌, inl, inr, ◌∙◌, sym, true, ◌&&◌, leb, arith, Bool-cases, List,
  [], ◌∷◌, length,
}
use puzzle71_solver.Search.Bisect.{IsOrdered, binary_search_by-found, binary_search_by-missing}
use puzzle71_solver.Search.IntervalSet.{Interval, at, compare_block, contains, covers, IsSeparated}

-- A covered block lies in the interval at some index; a block in an interval is covered.
covers_index :
    (b : ℕ) (xs : List Interval)
    → covers xs b ≡ true
    → (i : ℕ) × (i < length xs) × (compare_block b (at xs i) ≡ Ordering.eq)
unfolding compare_block
covers_index b [] h = absurd (ground arith)
covers_index b ((s, e) ∷ xs) h = elim (Bool-cases (leb s b && leb b e)) [
  | inl inside ↦ (0, omega arith, ground arith)
  | inr outside ↦ let (i, hi, eq) = covers_index b xs (ground arith) in (suc i, omega arith, eq)
]

index_covers :
    (lo b : ℕ) (xs : List Interval) (i : ℕ)
    → i < length xs
    → compare_block b (at xs i) ≡ Ordering.eq
    → covers xs b ≡ true
unfolding compare_block
index_covers lo b [] i h e = absurd (omega arith)
index_covers lo b (x ∷ xs) zero h e = ground arith
index_covers lo b (x ∷ xs) (suc i) h e = ground (arith, index_covers lo b xs i (omega arith) e)

module _ (g : ℕ) (pos : 1 ≤ g) where
  -- The interval at an index lies above `lo` and runs upwards.
  at_bounds :
      (lo : ℕ) (xs : List Interval) (i : ℕ)
      → IsSeparated g lo xs
      → i < length xs
      → (lo ≤ (at xs i).0) × ((at xs i).0 ≤ (at xs i).1)
  at_bounds lo [] i v h = absurd (omega arith)
  at_bounds lo (x ∷ xs) zero v h = (v.0, v.1)
  at_bounds lo (x ∷ xs) (suc i) v h = omega (arith, at_bounds (x.1 + g) xs i v.3 (omega arith))

  -- Of two intervals the later one begins above the earlier one's end.
  at_apart :
      (lo : ℕ) (xs : List Interval) (i j : ℕ)
      → IsSeparated g lo xs
      → i < j
      → j < length xs
      → (at xs i).1 < (at xs j).0
  at_apart lo [] i j v h q = absurd (omega arith)
  at_apart lo (x ∷ xs) i zero v h q = absurd (omega arith)
  at_apart lo (x ∷ xs) zero (suc j) v h q =
      omega (arith, at_bounds (x.1 + g) xs j v.3 (omega arith))
  at_apart lo (x ∷ xs) (suc i) (suc j) v h q =
      at_apart (x.1 + g) xs i j v.3 (omega arith) (omega arith)

  compare_block-IsOrdered :
      (lo b : ℕ) (xs : List Interval)
      → IsSeparated g lo xs
      → IsOrdered (λ i. compare_block b (at xs i)) (length xs)
  unfolding compare_block
  compare_block-IsOrdered lo b xs v = record {
    partitioned = λ i j lt inside g.
        ground
          (arith, at_apart lo xs i j v lt inside, at_bounds lo xs i v, at_bounds lo xs j v inside);
    less_before = λ i j lt inside g.
        ground
          (arith, at_apart lo xs i j v lt inside, at_bounds lo xs i v, at_bounds lo xs j v inside);
  }

  -- On sorted intervals the binary search of `contains` finds a block exactly when some interval covers
  -- it.
  pub contains-covers :
      (xs : List Interval) (b : ℕ) → IsSeparated g 0 xs → contains xs b ≡ covers xs b
  unfolding contains
  contains-covers xs b v = elim (Bool-cases (covers xs b)) [
    | inl inside ↦
        let (i, hi, e) = covers_index b xs inside in
        rw
          (binary_search_by-found (λ k. compare_block b (at xs k)) (length xs) i
            (compare_block-IsOrdered 0 b xs v) hi e)
          (sym inside)
    | inr outside ↦
        binary_search_by-missing (λ k. compare_block b (at xs k)) (length xs)
          (compare_block-IsOrdered 0 b xs v).partitioned
          (λ k h e. ground (arith, index_covers 0 b xs k h e))
        ∙ sym outside
  ]
