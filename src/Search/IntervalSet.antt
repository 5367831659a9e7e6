-- ===== src/Search/IntervalSet.antt =====
-- `IntervalSet` of src/search/duplicate_filter.rs: the scanned blocks as sorted intervals of u64
-- indices, both ends included.
pub mod Insert
pub mod Growth
pub mod Members
pub mod Consolidate
use Prim.Native.Nat.{Ordering}
use puzzle71_solver.Prelude.{
  ℕ, zero, suc, ◌+◌, ◌-◌, ◌^◌, ◌≤◌, ◌<◌, Bool, true, false, ◌&&◌, ◌||◌, ltb, leb, ◌==◌,
  if◌then◌else◌, min, max, Option, none, some, List, [], ◌∷◌, ◌++◌, length, get_or, get_elem?, set,
  insert_at, remove_at,
}
use puzzle71_solver.Prelude.Results.{is_ok}
use puzzle71_solver.Prelude.{u64}
use puzzle71_solver.Search.Bisect.{binary_search_by, partition_point}

abbrev pub Interval : Type 0
Interval = ℕ × ℕ

-- The element at an index that the code has shown to be in range.
abbrev pub at : List Interval → ℕ → Interval
at xs i = get_or xs i (0, 0)

-- The closure that `contains` searches with.
unfoldable pub compare_block : ℕ → Interval → Ordering
compare_block b (start, end) =
    if ltb b start then Ordering.gt else if ltb end b then Ordering.lt else Ordering.eq

unfoldable pub contains : List Interval → ℕ → Bool
contains xs b = is_ok (binary_search_by (λ i. compare_block b (at xs i)) (length xs))

-- `a.checked_add(1) == Some(b)`.
abbrev pub checked_succ_is : ℕ → ℕ → Bool
checked_succ_is a b = ltb (a + 1) (2 ^ 64) && (a + 1 == b)

-- The tests and the four cases of `insert`, at the index that `partition_point` found.
unfoldable pub insert_at_index : List Interval → ℕ → ℕ → List Interval
insert_at_index xs b idx =
    let left = at xs (idx - 1) in
    let right = get_elem? xs idx in
    let joins_left = ltb 0 idx && checked_succ_is left.1 b in
    let joins_right : Bool = elim right [
      | none ↦ false
      | some (start, _) ↦ checked_succ_is b start
    ] in
    if ltb 0 idx && leb b left.1
    then xs
    else if joins_left
    then if joins_right
      then remove_at (set xs (idx - 1) (left.0, (at xs idx).1)) idx
      else set xs (idx - 1) (left.0, b)
    else if joins_right
    then set xs idx (b, (at xs idx).1)
    else insert_at xs idx (b, b)

unfoldable pub insert : List Interval → ℕ → List Interval
insert xs b = insert_at_index xs b (partition_point (λ i. leb (at xs i).0 b) (length xs))

-- The blocks that the intervals cover: the abstract set.
abbrev pub covers : List Interval → ℕ → Bool
covers [] b = false
covers ((start, end) ∷ xs) b = (leb start b && leb b end) || covers xs b

-- The invariant: every interval starts at `lo` or above and runs upwards inside u64, and the next one
-- begins `gap` above its end or later. With a gap of 1 the intervals are sorted and disjoint, as a
-- checkpoint must give them; with a gap of 2 neighbours are merged as well.
abbrev pub IsSeparated : ℕ → ℕ → List Interval → Type 0
IsSeparated gap lo [] = Unit
IsSeparated gap lo ((start, end) ∷ xs) =
    (lo ≤ start) × (start ≤ end) × (end < 2 ^ 64) × IsSeparated gap (end + gap) xs

-- The number of blocks in the intervals, with no bound.
unfoldable pub blocks_in : List Interval → ℕ
blocks_in [] = 0
blocks_in ((start, end) ∷ xs) = end - start + 1 + blocks_in xs

-- `total_blocks_count`: each count and the sum wrap at 64 bits, as in a release build.
unfoldable pub total_blocks_count : List Interval → ℕ
total_blocks_count [] = 0
total_blocks_count ((start, end) ∷ xs) =
    u64 (u64 (u64 (end + 2 ^ 64 - start) + 1) + total_blocks_count xs)
