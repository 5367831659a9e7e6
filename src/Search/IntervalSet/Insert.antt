-- ===== src/Search/IntervalSet/Insert.antt =====
-- `insert` of src/search/duplicate_filter.rs works by index on the vector. It does what a recursion
-- along the sorted intervals does, and so keeps the invariant and adds exactly one block.
use mathlib.Core.Bool.{Bool, ◌&&◌}
use puzzle71_solver.Prelude.{
  ℕ, zero, suc, ◌+◌, ◌-◌, ◌^◌, ◌≤◌, ◌<◌, ◌≡◌, ◌∙◌, true, false, ltb, leb, ◌==◌, if◌then◌else◌,
  arith, Bool-cases, inl, inr, refl, ap, sym, List, [], ◌∷◌, length,
}
use puzzle71_solver.Search.Bisect.{partition_point, partition_point-count}
use puzzle71_solver.Search.IntervalSet.{Interval, at, insert_at_index, insert, IsSeparated}

-- How many intervals in front start at `b` or below.
rank : ℕ → List Interval → ℕ
rank b [] = 0
rank b ((s, e) ∷ xs) = if leb s b then suc (rank b xs) else 0

rank-le : (b : ℕ) (xs : List Interval) → rank b xs ≤ length xs
unfolding rank
rank-le b [] = omega arith
rank-le b (x ∷ xs) = ground (arith, rank-le b xs)

rank_front : (b : ℕ) (xs : List Interval) (i : ℕ) → i < rank b xs → leb (at xs i).0 b ≡ true
unfolding rank
rank_front b [] i h = absurd (omega arith)
rank_front b (x ∷ xs) zero h = ground arith
rank_front b (x ∷ xs) (suc i) h = ground (arith, rank_front b xs i)

-- The same insertion, along the list. An interval that ends right below `b` is extended, up to the end
-- of the next one if that begins right above.
unfoldable pub extend : ℕ → ℕ → List Interval → List Interval
extend s b [] = (s, b) ∷ []
extend s b ((s', e') ∷ xs) = if b + 1 == s' then (s, e') ∷ xs else (s, b) ∷ (s', e') ∷ xs

abbrev pub next_above : ℕ → List Interval → Bool
next_above b [] = true
next_above b (x ∷ xs) = ltb b x.0

unfoldable pub insert_sorted : List Interval → ℕ → List Interval
insert_sorted [] b = (b, b) ∷ []
insert_sorted ((s, e) ∷ xs) b =
    if ltb b s
    then (if b + 1 == s then (b, e) ∷ xs else (b, b) ∷ (s, e) ∷ xs)
    else if leb b e
    then (s, e) ∷ xs
    else if (e + 1 == b) && next_above b xs
    then extend s b xs
    else (s, e) ∷ insert_sorted xs b

insert_at_index-cons :
    (x : Interval) (xs : List Interval) (b k : ℕ)
    → insert_at_index (x ∷ xs) b (suc (suc k)) ≡ x ∷ insert_at_index xs b (suc k)
unfolding insert_at_index
insert_at_index-cons x xs b k =
    let e : suc (suc k) - 1 ≡ suc k = omega arith in
    let e' : suc k - 1 ≡ k = omega arith in rw (e, e') (ground arith)

-- The intervals are sorted and disjoint.
module _ (g : ℕ) (pos : 1 ≤ g) where
  start_above :
      (lo : ℕ) (xs : List Interval) (i : ℕ) → IsSeparated g lo xs → i < length xs → lo ≤ (at xs i).0
  start_above lo [] i v h = absurd (omega arith)
  start_above lo (x ∷ xs) zero v h = v.0
  start_above lo (x ∷ xs) (suc i) v h = omega (arith, start_above (x.1 + g) xs i v.3 (omega arith))

  rank_back :
      (b lo : ℕ) (xs : List Interval) (i : ℕ)
      → IsSeparated g lo xs
      → rank b xs ≤ i
      → i < length xs
      → leb (at xs i).0 b ≡ false
  unfolding rank
  rank_back b lo [] i v p q = absurd (omega arith)
  rank_back b lo (x ∷ xs) zero v p q = ground arith
  rank_back b lo (x ∷ xs) (suc i) v p q =
      ground (arith, rank_back b (x.1 + g) xs i v.3, start_above (x.1 + g) xs i v.3)

  partition_point-rank :
      (b lo : ℕ) (xs : List Interval)
      → IsSeparated g lo xs
      → partition_point (λ i. leb (at xs i).0 b) (length xs) ≡ rank b xs
  partition_point-rank b lo xs v =
      partition_point-count (λ i. leb (at xs i).0 b) (length xs) (rank b xs) (rank-le b xs)
        (rank_front b xs) (λ i. rank_back b lo xs i v)

  -- The index in front of the list, behind one interval, and further on.
  insert_at_index-zero :
      (lo b : ℕ) (x : Interval) (xs : List Interval)
      → IsSeparated g lo (x ∷ xs)
      → b < x.0
      → insert_at_index (x ∷ xs) b 0 ≡ insert_sorted (x ∷ xs) b
  unfolding insert_at_index insert_sorted
  insert_at_index-zero lo b x xs v h = ground arith

  insert_at_index-one :
      (lo b : ℕ) (x : Interval) (xs : List Interval)
      → IsSeparated g lo (x ∷ xs)
      → b < 2 ^ 64
      → x.0 ≤ b
      → rank b xs ≡ 0
      → insert_at_index (x ∷ xs) b 1 ≡ insert_sorted (x ∷ xs) b
  unfolding insert_at_index insert_sorted extend rank
  insert_at_index-one lo b x [] v hb h r = ground arith
  insert_at_index-one lo b x (y ∷ xs) v hb h r = ground arith

  insert_sorted-cons :
      (lo b k : ℕ) (x : Interval) (xs : List Interval)
      → IsSeparated g lo (x ∷ xs)
      → rank b xs ≡ suc k
      → insert_sorted (x ∷ xs) b ≡ x ∷ insert_sorted xs b
  unfolding insert_sorted rank
  insert_sorted-cons lo b k x [] v r = absurd (omega arith)
  insert_sorted-cons lo b k x (y ∷ xs) v r = ground arith

  insert_at_index-rank :
      (lo b : ℕ) (xs : List Interval)
      → IsSeparated g lo xs
      → b < 2 ^ 64
      → insert_at_index xs b (rank b xs) ≡ insert_sorted xs b
  insert_at_index-rank lo b [] v hb = unfold insert_at_index insert_sorted rank in ground arith
  insert_at_index-rank lo b (x ∷ xs) v hb = elim (Bool-cases (leb x.0 b)) [
    | inr above ↦
        let e : rank b (x ∷ xs) ≡ 0 = unfold rank in rw above in
        rw e (insert_at_index-zero lo b x xs v (ground arith))
    | inl below ↦
        let e : rank b (x ∷ xs) ≡ suc (rank b xs) = unfold rank in rw below in
        rw e (further (rank b xs) refl (insert_at_index-rank (x.1 + g) b xs v.3 hb) below)
  ]
    where
      further :
          (k : ℕ)
          → rank b xs ≡ k
          → insert_at_index xs b (rank b xs) ≡ insert_sorted xs b
          → leb x.0 b ≡ true
          → insert_at_index (x ∷ xs) b (suc k) ≡ insert_sorted (x ∷ xs) b
      further zero r ih below = insert_at_index-one lo b x xs v hb (ground arith) r
      further (suc k) r ih below =
          insert_at_index-cons x xs b k
          ∙ ap (λ l. x ∷ l) ((rw r at ih))
          ∙ sym (insert_sorted-cons lo b k x xs v r)

  pub insert-eq-insert_sorted :
      (lo b : ℕ) (xs : List Interval)
      → IsSeparated g lo xs
      → b < 2 ^ 64
      → insert xs b ≡ insert_sorted xs b
  unfolding insert
  insert-eq-insert_sorted lo b xs v hb =
      rw (partition_point-rank b lo xs v) (insert_at_index-rank lo b xs v hb)
