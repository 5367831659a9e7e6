-- ===== src/Search/IntervalSet/Growth.antt =====
-- What `insert` of src/search/duplicate_filter.rs does to the set of blocks, to its invariant and to the
-- count of blocks.
use mathlib.Core.Bool.{true}
use puzzle71_solver.Prelude.{
  ℕ, ◌+◌, ◌-◌, ◌^◌, ◌≤◌, ◌<◌, ◌≡◌, ◌∙◌, Bool, false, ◌&&◌, ◌||◌, ltb, leb, ◌==◌, if◌then◌else◌,
  arith, Bool-cases, ◌⊎◌, inl, inr, refl, ap, List, [], ◌∷◌,
}
use puzzle71_solver.Prelude.{u64}
use puzzle71_solver.Search.IntervalSet.{
  Interval, insert, covers, IsSeparated, blocks_in, total_blocks_count,
}
use puzzle71_solver.Search.IntervalSet.Insert.{
  extend, next_above, insert_sorted, insert-eq-insert_sorted,
}

-- The count of the code is the number of blocks, modulo 2^64.
pub total_blocks_count-blocks_in :
    (g lo : ℕ) (xs : List Interval)
    → IsSeparated g lo xs
    → total_blocks_count xs ≡ u64 (blocks_in xs)
unfolding total_blocks_count blocks_in
total_blocks_count-blocks_in g lo [] v = refl
total_blocks_count-blocks_in g lo ((s, e) ∷ xs) v =
    omega (arith, v.1, v.2, total_blocks_count-blocks_in g (e + g) xs v.3)

-- One for a block that is new.
abbrev pub fresh : Bool → ℕ
fresh old = if old then 0 else 1

-- One interval's test, when the block `b` joins it or stands beside it; `r` is the test of the others.
module _ (c b s e : ℕ) (r : Bool) where
  test_join_front :
      b + 1 ≡ s → s ≤ e → (leb b c && leb c e) || r ≡ (c == b) || ((leb s c && leb c e) || r)
  test_join_front h h' = ground arith

  test_alone : (leb b c && leb c b) || r ≡ (c == b) || r
  test_alone = ground arith

  test_inside : s ≤ b → b ≤ e → (leb s c && leb c e) || r ≡ (c == b) || ((leb s c && leb c e) || r)
  test_inside h h' = ground arith

  test_join_back :
      e + 1 ≡ b → s ≤ e → (leb s c && leb c b) || r ≡ (c == b) || ((leb s c && leb c e) || r)
  test_join_back h h' = ground arith

or_swap : (p q r : Bool) → p || (q || r) ≡ q || (p || r)
or_swap p q r = ground arith

module _ (b s e n : ℕ) where
  count_inside : s ≤ b → b ≤ e → (r : Bool) → fresh ((leb s b && leb b e) || r) ≡ 0
  count_inside h h' r = ground arith

  count_outside : (b < s) ⊎ (e < b) → (r : Bool) → fresh ((leb s b && leb b e) || r) ≡ fresh r
  count_outside h r = ground arith

module _ (g : ℕ) (pos : 1 ≤ g) (small : g ≤ 2) where
  -- Behind a block that the next interval is above.
  next_above-IsSeparated :
      (lo b : ℕ) (xs : List Interval)
      → IsSeparated g lo xs
      → next_above b xs ≡ true
      → IsSeparated g (b + 1) xs
  next_above-IsSeparated lo b [] v h = tt
  next_above-IsSeparated lo b (x ∷ xs) v h = ground arith

  -- What the recursion keeps and adds.
  insert_sorted-IsSeparated :
      (lo b : ℕ) (xs : List Interval)
      → IsSeparated g lo xs
      → b < 2 ^ 64
      → lo ≤ b
      → IsSeparated g lo (insert_sorted xs b)
  unfolding insert_sorted extend
  insert_sorted-IsSeparated lo b [] v hb h = omega arith
  insert_sorted-IsSeparated lo b (x ∷ []) v hb h = ground arith
  insert_sorted-IsSeparated lo b (x ∷ y ∷ xs) v hb h =
      ground (arith, insert_sorted-IsSeparated (x.1 + g) b (y ∷ xs) v.3 hb)

  covers_below :
      (lo c : ℕ) (xs : List Interval) → IsSeparated g lo xs → c < lo → covers xs c ≡ false
  covers_below lo c [] v h = refl
  covers_below lo c (x ∷ xs) v h = ground (arith, covers_below (x.1 + g) c xs v.3)

  extend-covers :
      (s b c : ℕ) (xs : List Interval)
      → s ≤ b
      → IsSeparated g (b + 1) xs
      → covers (extend s b xs) c ≡ (leb s c && leb c b) || covers xs c
  unfolding extend
  extend-covers s b c [] h v = refl
  extend-covers s b c ((s', e') ∷ xs) h v = ground arith

  insert_sorted-covers :
      (lo b c : ℕ) (xs : List Interval)
      → IsSeparated g lo xs
      → covers (insert_sorted xs b) c ≡ (c == b) || covers xs c
  unfolding insert_sorted
  insert_sorted-covers lo b c [] v = test_alone c b 0 0 false
  insert_sorted-covers lo b c ((s, e) ∷ xs) v = elim (Bool-cases (ltb b s)) [
    | inl before ↦ elim (Bool-cases (b + 1 == s)) [
      | inl joins ↦ rw (before, joins) (test_join_front c b s e (covers xs c) (ground arith) v.1)
      | inr apart ↦ rw (before, apart) (test_alone c b s e ((leb s c && leb c e) || covers xs c))
    ]
    | inr after ↦ elim (Bool-cases (leb b e)) [
      | inl inside ↦
          rw (after, inside) (test_inside c b s e (covers xs c) (ground arith) (ground arith))
      | inr behind ↦ elim (Bool-cases ((e + 1 == b) && next_above b xs)) [
        | inl joins ↦
            rw (after, behind, joins)
              (extend-covers s b c xs (ground arith)
                  (next_above-IsSeparated (e + g) b xs v.3 (ground arith))
                ∙ test_join_back c b s e (covers xs c) (ground arith) v.1)
        | inr apart ↦
            rw (after, behind, apart)
              (ap (λ t. (leb s c && leb c e) || t) (insert_sorted-covers (e + g) b c xs v.3)
                ∙ or_swap (leb s c && leb c e) (c == b) (covers xs c))
      ]
    ]
  ]

  extend-total :
      (s b : ℕ) (xs : List Interval)
      → s ≤ b
      → IsSeparated g (b + 1) xs
      → blocks_in (extend s b xs) ≡ b - s + 1 + blocks_in xs
  unfolding extend blocks_in
  extend-total s b [] h v = refl
  extend-total s b ((s', e') ∷ xs) h v = ground arith

  insert_sorted-total :
      (lo b : ℕ) (xs : List Interval)
      → IsSeparated g lo xs
      → blocks_in (insert_sorted xs b) ≡ blocks_in xs + fresh (covers xs b)
  unfolding insert_sorted blocks_in
  insert_sorted-total lo b [] v = omega arith
  insert_sorted-total lo b ((s, e) ∷ xs) v = elim (Bool-cases (ltb b s)) [
    | inl before ↦
        let out = covers_below (e + g) b xs v.3 (ground arith) in
        rw (count_outside b s e 0 (inl (ground arith)) (covers xs b), before, out) (ground arith)
    | inr after ↦ elim (Bool-cases (leb b e)) [
      | inl inside ↦
          rw (count_inside b s e 0 (ground arith) (ground arith) (covers xs b), after, inside)
            (omega arith)
      | inr behind ↦ elim (Bool-cases ((e + 1 == b) && next_above b xs)) [
        | inl joins ↦
            let same : e + 1 ≡ b = ground arith in
            let behind_b = next_above-IsSeparated (e + g) b xs v.3 (ground arith) in
            let out = covers_below (b + 1) b xs behind_b (omega arith) in
            rw (count_outside b s e 0 (inr (ground arith)) (covers xs b), after, behind, joins, out)
              (omega (arith, extend-total s b xs (omega arith) behind_b))
        | inr apart ↦
            rw (count_outside b s e 0 (inr (ground arith)) (covers xs b), after, behind, apart)
              (omega (arith, insert_sorted-total (e + g) b xs v.3))
      ]
    ]
  ]

  count_wraps : (t n f : ℕ) {m : ℕ} → t ≡ u64 n → m ≡ u64 (n + f) → m ≡ u64 (t + f)
  count_wraps t n f h k = omega (arith, h, k)

  -- `insert` of a u64 block keeps sorted intervals sorted, apart by the same gap of 1 or 2, and inside u64;
  -- it adds the block and no other, and raises the number of blocks by one exactly when the block was not
  -- covered before; the u64 count of the code follows, modulo 2^64.
  pub insert-lem :
      (xs : List Interval) (b : ℕ)
      → IsSeparated g 0 xs
      → b < 2 ^ 64
      → IsSeparated g 0 (insert xs b)
        × ((c : ℕ) → covers (insert xs b) c ≡ (c == b) || covers xs c)
        × (blocks_in (insert xs b) ≡ blocks_in xs + fresh (covers xs b))
        × (total_blocks_count (insert xs b) ≡ u64 (total_blocks_count xs + fresh (covers xs b)))
  insert-lem xs b v hb = rw (insert-eq-insert_sorted g pos 0 b xs v hb) (
      let sorted = insert_sorted-IsSeparated 0 b xs v hb (omega arith) in
      let more = insert_sorted-total 0 b xs v in
      (
        sorted,
        λ c. insert_sorted-covers 0 b c xs v,
        more,
        count_wraps (total_blocks_count xs) (blocks_in xs) (fresh (covers xs b))
            (total_blocks_count-blocks_in g 0 xs v)
            (total_blocks_count-blocks_in g 0 (insert_sorted xs b) sorted ∙ ap u64 more),
      ))
