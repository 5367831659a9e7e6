-- ===== src/Search/Recheck/Order.antt =====
-- The order of the blocks in a legacy plan of src/search/recheck.rs.
use puzzle71_solver.Prelude.{
  ℕ, zero, suc, ◌+◌, ◌-◌, ◌≤◌, ◌<◌, ◌≡◌, ◌∙◌, refl, ap, sym, true, false, ltb, leb, ◌==◌,
  if◌then◌else◌, Bool-cases, inl, inr, arith, none, some, List, [], ◌∷◌, length, get_or,
}
use puzzle71_solver.Search.Bisect.{partition_point, partition_point-count}
use puzzle71_solver.Search.IntervalSet.{Interval, at, blocks_in}
use puzzle71_solver.Search.Recheck.{ends_from, legacy_plan, block_at, nth_block}

-- The number of running totals that the ordinal has reached.
reached : ℕ → ℕ → List Interval → ℕ
reached total ordinal [] = 0
reached total ordinal ((start, end) ∷ xs) =
    let rest = reached (total + (end - start + 1)) ordinal xs in
    if leb (total + (end - start + 1)) ordinal then suc rest else 0

reached-length :
    (total ordinal : ℕ) (xs : List Interval)
    → reached total ordinal xs ≤ length (ends_from total xs)
unfolding reached ends_from
reached-length total ordinal [] = omega arith
reached-length total ordinal ((s, e) ∷ xs) =
    ground (arith, reached-length (total + (e - s + 1)) ordinal xs)

ends_from-low :
    (total : ℕ) (xs : List Interval) (i : ℕ)
    → i < length (ends_from total xs)
    → total ≤ get_or (ends_from total xs) i 0
unfolding ends_from
ends_from-low total [] i inside = absurd (omega arith)
ends_from-low total ((s, e) ∷ xs) zero inside = omega arith
ends_from-low total ((s, e) ∷ xs) (suc i) inside =
    omega (arith, ends_from-low (total + (e - s + 1)) xs i (omega arith))

reached-front :
    (total ordinal : ℕ) (xs : List Interval) (i : ℕ)
    → i < reached total ordinal xs
    → leb (get_or (ends_from total xs) i 0) ordinal ≡ true
unfolding reached ends_from
reached-front total ordinal [] i inside = absurd (omega arith)
reached-front total ordinal ((s, e) ∷ xs) zero inside = ground arith
reached-front total ordinal ((s, e) ∷ xs) (suc i) inside =
    reached-front (total + (e - s + 1)) ordinal xs i (ground arith)

reached-back :
    (total ordinal : ℕ) (xs : List Interval) (i : ℕ)
    → reached total ordinal xs ≤ i
    → i < length (ends_from total xs)
    → leb (get_or (ends_from total xs) i 0) ordinal ≡ false
unfolding reached ends_from
reached-back total ordinal [] i past inside = absurd (omega arith)
reached-back total ordinal ((s, e) ∷ xs) zero past inside = ground arith
reached-back total ordinal ((s, e) ∷ xs) (suc i) past inside =
    elim (Bool-cases (leb (total + (e - s + 1)) ordinal)) [
      | inl h ↦ reached-back (total + (e - s + 1)) ordinal xs i (ground arith) (omega arith)
      | inr h ↦ ground (arith, ends_from-low (total + (e - s + 1)) xs i (omega arith))
    ]

reached-partition_point :
    (ordinal : ℕ) (xs : List Interval)
    → partition_point (λ i. leb (get_or (ends_from 0 xs) i 0) ordinal) (length (ends_from 0 xs))
      ≡ reached 0 ordinal xs
reached-partition_point ordinal xs =
    partition_point-count (λ i. leb (get_or (ends_from 0 xs) i 0) ordinal) (length (ends_from 0 xs))
      (reached 0 ordinal xs) (reached-length 0 ordinal xs) (reached-front 0 ordinal xs)
      (reached-back 0 ordinal xs)

-- The total before the interval at an index.
abbrev before : ℕ → List ℕ → ℕ → ℕ
before total ends index = if index == 0 then total else get_or ends (index - 1) 0

before-suc :
    (total next : ℕ) (ends : List ℕ) (i : ℕ)
    → before total (next ∷ ends) (suc i) ≡ before next ends i
before-suc total next ends zero = refl
before-suc total next ends (suc i) =
    let first : (suc (suc i) == 0) ≡ false = ground arith in
    let second : (suc i == 0) ≡ false = ground arith in
    let third : suc (suc i) - 1 ≡ suc i = omega arith in
    let fourth : suc i - 1 ≡ i = omega arith in rw (first, second, third, fourth) refl

reached-nth_block :
    (total ordinal : ℕ) (xs : List Interval)
    → total ≤ ordinal
    → ordinal < total + blocks_in xs
    → some (
        (at xs (reached total ordinal xs)).0
        + ordinal
        - before total (ends_from total xs) (reached total ordinal xs))
      ≡ nth_block xs (ordinal - total)
unfolding reached ends_from blocks_in
reached-nth_block total ordinal [] low high = absurd (omega arith)
reached-nth_block total ordinal ((s, e) ∷ xs) low high =
    let next = total + (e - s + 1) in
    elim (Bool-cases (leb next ordinal)) [
      | inl h ↦
          let past : ltb (ordinal - total) (e - s + 1) ≡ false = ground arith in
          let shift : ordinal - total - (e - s + 1) ≡ ordinal - next = omega arith in
          rw (h, past, shift, before-suc total next (ends_from next xs) (reached next ordinal xs))
            (reached-nth_block next ordinal xs (ground arith) (omega arith))
      | inr h ↦
          let inside : ltb (ordinal - total) (e - s + 1) ≡ true = ground arith in
          rw (h, inside) (ap some (omega arith))
    ]

past-nth_block : (xs : List Interval) (k : ℕ) → blocks_in xs ≤ k → nth_block xs k ≡ none
unfolding blocks_in
past-nth_block [] k past = refl
past-nth_block ((s, e) ∷ xs) k past =
    let beyond : ltb k (e - s + 1) ≡ false = ground arith in
    rw beyond (past-nth_block xs (k - (e - s + 1)) (omega arith))

-- `block_at` of a legacy plan gives the blocks of its intervals in their order, each ordinal one block, and
-- nothing from the number of blocks on; its binary search and its running totals find the same block as a
-- walk over the intervals.
pub block_at-nth_block :
    (xs : List Interval) (ordinal : ℕ) → block_at (legacy_plan xs) ordinal ≡ nth_block xs ordinal
unfolding block_at legacy_plan
block_at-nth_block xs ordinal = elim (Bool-cases (leb (blocks_in xs) ordinal)) [
  | inl past ↦ rw past (sym (past-nth_block xs ordinal (ground arith)))
  | inr inside ↦
      rw (inside, reached-partition_point ordinal xs)
        (reached-nth_block 0 ordinal xs (omega arith) (ground arith)
          ∙ ap (λ k. nth_block xs k) (omega arith))
]
