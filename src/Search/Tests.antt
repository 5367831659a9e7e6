-- ===== src/Search/Tests.antt =====
-- The search state of src/search at concrete inputs.
use puzzle71_solver.Prelude.{
  ℕ, ◌+◌, ◌*◌, ◌^◌, ◌≤◌, ◌<◌, ◌≡◌, ◌↔◌, true, false, ◌&&◌, ◌||◌, leb, ◌==◌, if◌then◌else◌, arith,
  refl, some, List, [], ◌∷◌, ◌/◌, ◌-◌, Option,
}
use puzzle71_solver.Prelude.Results.{ok, err}
use puzzle71_solver.PuzzleConfig.{range_min}
use puzzle71_solver.Search.BlockProgress
use puzzle71_solver.Search.BlockProgress.{
  BlockProgress, ProgressError, progress_overflow, too_many_keys, record_completed, remaining_keys,
  is_complete, record_all, sum, record_completed-IsValid, record_all-is_complete,
}
use puzzle71_solver.Prelude.{u64}
use puzzle71_solver.Search.IntervalSet.{
  Interval, insert, covers, IsSeparated, blocks_in, total_blocks_count,
}
use puzzle71_solver.Search.IntervalSet.Growth.{fresh, insert-lem}
use puzzle71_solver.Search.IntervalSet.Consolidate.{insert_range, insert_range-lem}
use puzzle71_solver.Search.Bloom
use puzzle71_solver.Search.Bloom.{
  CompactBloomFilter, IsSized, may_contain, saturate, new-IsSized, insert-may_contain,
  saturate-may_contain,
}
use puzzle71_solver.Search.DuplicateFilter.{
  DuplicateFilter, IsSynced, from_intervals, is_scanned, mark_scanned, is_scanned-covers,
  mark_scanned-is_scanned, from_intervals-is_scanned,
}
use puzzle71_solver.Search.Rng.{
  IsChoice, select_random_block_start, select_random_block_start-IsChoice,
}
use puzzle71_solver.Search.Profile.{eco, full}
use puzzle71_solver.Search.Dispatch.{no_key, found_key, block_complete, search_block, Searches}
use puzzle71_solver.Search.Dispatch.Cover.{search_block-Searches, search_block-ends}
use puzzle71_solver.Search.Recheck.{block_at, legacy_plan, nth_block}
use puzzle71_solver.Search.Recheck.Order.{block_at-nth_block}
use puzzle71_solver.Search.Recheck.Coverage.{is_covered_by, IsCovered, is_covered_by_iff}
use puzzle71_solver.Search.Checkpoint.{
  CheckpointState, Verdict, validate_for_block_size, validate_for_block_size-Verdict,
}

abbrev some_intervals : List Interval
some_intervals = (3, 5) ∷ (7, 7) ∷ []

some_intervals-IsSeparated : IsSeparated 1 0 some_intervals
some_intervals-IsSeparated =
    ((omega arith, omega arith, omega arith, (omega arith, omega arith, omega arith, tt)))

abbrev some_filter : DuplicateFilter
some_filter = from_intervals some_intervals

some_filter-IsSynced : IsSynced some_filter
some_filter-IsSynced = (from_intervals-is_scanned some_intervals some_intervals-IsSeparated).0

abbrev small_bloom : CompactBloomFilter
small_bloom = Bloom.new 128

small_bloom-IsSized : IsSized small_bloom
small_bloom-IsSized = new-IsSized 128 (omega arith)

is_scanned-covers_example : is_scanned some_filter 4 ≡ covers some_filter.intervals 4
is_scanned-covers_example = is_scanned-covers some_filter 4 some_filter-IsSynced

mark_scanned-is_scanned_example :
    IsSynced (mark_scanned some_filter 6)
    × ((c : ℕ) → is_scanned (mark_scanned some_filter 6) c ≡ (c == 6) || is_scanned some_filter c)
mark_scanned-is_scanned_example =
    mark_scanned-is_scanned some_filter 6 some_filter-IsSynced (omega arith)

from_intervals-is_scanned_example :
    IsSynced (from_intervals some_intervals)
    × ((b : ℕ) → is_scanned (from_intervals some_intervals) b ≡ covers some_intervals b)
from_intervals-is_scanned_example =
    from_intervals-is_scanned some_intervals some_intervals-IsSeparated

-- The block joins the two intervals.
insert-lem_example :
    IsSeparated 1 0 (insert some_intervals 6)
    × ((c : ℕ) → covers (insert some_intervals 6) c ≡ (c == 6) || covers some_intervals c)
    × (blocks_in (insert some_intervals 6)
        ≡ blocks_in some_intervals + fresh (covers some_intervals 6))
    × (total_blocks_count (insert some_intervals 6)
        ≡ u64 (total_blocks_count some_intervals + fresh (covers some_intervals 6)))
insert-lem_example =
    insert-lem 1 (omega arith) (omega arith) some_intervals 6 some_intervals-IsSeparated
      (omega arith)

abbrev unsorted : List Interval
unsorted = (7, 7) ∷ (3, 5) ∷ []

insert_range-lem_example :
    (8 < 5 → insert_range unsorted 5 8 ≡ unsorted)
    × (5 ≤ 8
        → IsSeparated 2 0 (insert_range unsorted 5 8)
          × ((c : ℕ)
              → covers (insert_range unsorted 5 8) c ≡ (leb 5 c && leb c 8) || covers unsorted c))
insert_range-lem_example =
    insert_range-lem unsorted 5 8 (omega arith, omega arith, (omega arith, omega arith, tt))
      (omega arith)

insert-may_contain_example :
    IsSized (Bloom.insert small_bloom 9)
    × (may_contain (Bloom.insert small_bloom 9) 9 ≡ true)
    × ((other : ℕ)
        → may_contain small_bloom other ≡ true
        → may_contain (Bloom.insert small_bloom 9) other ≡ true)
insert-may_contain_example = insert-may_contain small_bloom 9 small_bloom-IsSized

abbrev half_done : BlockProgress
half_done = record { expected_keys = 100; completed_keys = 50 }

half_done-IsValid : BlockProgress.IsValid half_done
half_done-IsValid = record { fits = omega arith; positive = omega arith; within = omega arith }

record_completed-IsValid_example :
    let (p', r) = record_completed half_done 60 in
    BlockProgress.IsValid p'
    × (60 ≤ remaining_keys half_done
        → (r ≡ ok tt) × (remaining_keys p' + 60 ≡ remaining_keys half_done))
    × (remaining_keys half_done < 60
        → (p' ≡ half_done)
          × (r
              ≡ err (
                  if leb (2 ^ 128) (half_done.completed_keys + 60)
                  then progress_overflow
                  else too_many_keys)))
record_completed-IsValid_example = record_completed-IsValid half_done 60 half_done-IsValid

abbrev fresh_block : BlockProgress
fresh_block = record { expected_keys = 100; completed_keys = 0 }

fresh_block-IsValid : BlockProgress.IsValid fresh_block
fresh_block-IsValid = record { fits = omega arith; positive = omega arith; within = omega arith }

new_100 : BlockProgress.new 100 ≡ ok fresh_block
unfolding BlockProgress.new
new_100 = refl

record_all-is_complete_example :
    ((record_all fresh_block (60 ∷ 40 ∷ [])).1 ≡ ok tt ↔ sum (60 ∷ 40 ∷ []) ≤ 100)
    × ((record_all fresh_block (60 ∷ 40 ∷ [])).1 ≡ ok tt
        → is_complete (record_all fresh_block (60 ∷ 40 ∷ [])).0 ≡ (sum (60 ∷ 40 ∷ []) == 100))
record_all-is_complete_example =
    record_all-is_complete 100 (60 ∷ 40 ∷ []) fresh_block (omega arith) new_100

-- Three blocks: the largest u128 is rejected, and the next read decides.
abbrev third_of_range : ℕ
third_of_range = 2 ^ 70 / 3

abbrev two_reads : List (Option ℕ)
two_reads = some (2 ^ 128 - 1) ∷ some 12345 ∷ []

select_random_block_start-IsChoice_example :
    IsChoice third_of_range two_reads (select_random_block_start third_of_range two_reads)
select_random_block_start-IsChoice_example =
    select_random_block_start-IsChoice third_of_range two_reads

-- A runtime stands for itself: every one is finite, and none is negative.
abbrev some_checkpoint : CheckpointState ℕ
some_checkpoint = record {
  puzzle_number = 71;
  total_keys_tested = 4 * 2 ^ 24;
  total_blocks_tested = 4;
  total_runtime_secs = 60;
  scanned_intervals = some_intervals;
  last_saved_timestamp = 0;
}

validate_for_block_size-Verdict_example :
    Verdict
      (λ f. true)
      (λ f. false)
      some_checkpoint
      (2 ^ 24)
      (validate_for_block_size (λ f. true) (λ f. false) some_checkpoint (2 ^ 24))
validate_for_block_size-Verdict_example =
    validate_for_block_size-Verdict (λ f. true) (λ f. false) some_checkpoint (2 ^ 24)

search_block-Searches_example :
    Searches range_min fresh_block
      (search_block range_min fresh_block ((eco, no_key) ∷ (full, found_key 7) ∷ []))
search_block-Searches_example =
    search_block-Searches range_min fresh_block ((eco, no_key) ∷ (full, found_key 7) ∷ [])
      fresh_block-IsValid

-- A block of 2^18 keys takes two dispatches in the mode with the smallest.
abbrev two_dispatch_block : BlockProgress
two_dispatch_block = record { expected_keys = 2 ^ 18; completed_keys = 0 }

two_dispatches_suffice : remaining_keys two_dispatch_block ≤ 131072 * 2
unfolding remaining_keys
two_dispatches_suffice = omega arith

search_block-ends_example :
    (search_block range_min two_dispatch_block ((eco, no_key) ∷ (eco, no_key) ∷ [])).0
    ≡ block_complete
search_block-ends_example =
    search_block-ends range_min two_dispatch_block ((eco, no_key) ∷ (eco, no_key) ∷ [])
      (record { fits = omega arith; positive = omega arith; within = omega arith })
      (refl, (refl, tt)) two_dispatches_suffice

block_at-nth_block_example : block_at (legacy_plan some_intervals) 3 ≡ nth_block some_intervals 3
block_at-nth_block_example = block_at-nth_block some_intervals 3

is_covered_by_iff_example :
    (is_covered_by some_intervals ((2, 5) ∷ (6, 9) ∷ []) ≡ true)
    ↔ IsCovered some_intervals ((2, 5) ∷ (6, 9) ∷ [])
is_covered_by_iff_example =
    is_covered_by_iff 0 0 some_intervals ((2, 5) ∷ (6, 9) ∷ []) some_intervals-IsSeparated
      (omega arith, omega arith, omega arith, (omega arith, omega arith, omega arith, tt))
