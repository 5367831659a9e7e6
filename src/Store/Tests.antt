-- ===== src/Store/Tests.antt =====
-- The store of src/search/store.rs at concrete inputs, with whole seconds for its runtime, of
-- which the files keep the even ones.
mod Codec
use puzzle71_solver.Prelude.{
  ℕ, zero, suc, ◌+◌, ◌/◌, ◌^◌, ◌≤◌, ◌<◌, ◌≡◌, refl, Bool, true, false, ltb, leb, ◌==◌,
  if◌then◌else◌, arith, max, Option, none, some, List, [], ◌∷◌, ◌++◌, take, has,
}
use puzzle71_solver.Prelude.Results.{Result, ok, err, ◌>>=◌}
use puzzle71_solver.Search.IntervalSet.{insert, insert_at_index, Interval, covers, IsSeparated}
use puzzle71_solver.Search.Bisect.{partition_point, binary_search_by, bisect}
use puzzle71_solver.Search.Checkpoint.{CheckpointState}
use puzzle71_solver.Search.DuplicateFilter.{
  DuplicateFilter, from_intervals, from_intervals-is_scanned,
}
use puzzle71_solver.PuzzleConfig.{range_size}
use puzzle71_solver.Store.{
  next_recheck_block, replay_record, check_record, check_ordinal, apply_record, apply_runtime,
  mark_block, advance_recheck, Runtime, IsOrdered, JournalRecord, Progress, duplicate_filter,
  exact_filter, replay,
}
use puzzle71_solver.Store.Refine.{forget, IsGood, Refines, replay-Refines}
use puzzle71_solver.Store.Line.{
  is_timed, read_record, newline, decode_line, line_body, encode_line, decode_line-line_body,
}
use puzzle71_solver.Store.Journal.{for_scope, replay_and_repair_tail}
use puzzle71_solver.Store.Journal.Render.{reads, render, replay_and_repair_tail-render}
use puzzle71_solver.Store.Absorb.{IsFit, replay-absorbs}
use puzzle71_solver.Store.Calls.{
  Store, Snapshot, resume, AppendIo, synced, write_failed, CompactIo, expects, not_due, compacted,
  header_failed, complete_block,
}
use puzzle71_solver.Store.Calls.Safe.{IsSafe}
use puzzle71_solver.Store.Calls.Open.{open_new, open_new-IsSafe, open_new-IsReadable}
use puzzle71_solver.Store.Calls.Durable.{IsDurable}
use puzzle71_solver.Store.Calls.Readable.{IsReadable}
use puzzle71_solver.Store.Calls.Steps.{complete_block-IsStep}
use puzzle71_solver.Store.Calls.Runs.{
  Call, persist, complete, shut_down, crash, step, AreReadable, run, run-IsSafe, run-covers,
}
use puzzle71_solver.Store.Calls.Complete.{complete_block-covers}
use puzzle71_solver.Store.Calls.Success.{complete_block-succeeds}
use puzzle71_solver.Store.Tests.Codec.{even, headers, records, headers-IsCodec, records-IsCodec}

abbrev seconds : Runtime ℕ
seconds = record { less = ltb; larger = max; same = ◌==◌; is_duration = λ n. true; stored = even }

seconds-IsOrdered : IsOrdered seconds
seconds-IsOrdered = record {
  less_trans = λ a b c ha hb hc h k. ground arith;
  less_irrefl = λ a. ground arith;
  larger-is_duration = λ a b ha hb. refl;
  larger_right = λ a b ha hb. ground arith;
  larger_left = λ a b ha hb. ground arith;
  larger_absorbs = λ a b ha hb h. ground arith;
  larger_other = λ a b hb h. ground arith;
  same_eq = λ a b h. ground arith;
}

abbrev blocks_of_2_30 : ℕ
blocks_of_2_30 = 2 ^ 30

-- Blocks 3 and 4 are searched, in 20 seconds.
abbrev saved_file : Snapshot ℕ
saved_file = record {
  checkpoint = record {
    puzzle_number = 71;
    total_keys_tested = 2 ^ 31;
    total_blocks_tested = 2;
    total_runtime_secs = 20;
    scanned_intervals = (3, 4) ∷ [];
    last_saved_timestamp = 1000;
  };
  completed = none;
}

abbrev start : Progress (List Interval) ℕ
start = resume exact_filter saved_file blocks_of_2_30 none

start-IsFit : IsFit seconds seconds-IsOrdered start
start-IsFit = record { duration = refl; separated = ground arith; indexed = omega arith }

abbrev real_start : Progress DuplicateFilter ℕ
real_start = resume duplicate_filter saved_file blocks_of_2_30 none

real_start-IsGood : IsGood real_start
real_start-IsGood = record {
  synced = (from_intervals-is_scanned ((3, 4) ∷ []) start-IsFit.separated).0;
  indexed = start-IsFit.indexed;
}

-- Block 5 after 30 seconds, and a runtime of 35.
abbrev block_five : JournalRecord ℕ
block_five = record {
  completed_block = some 5;
  recheck_ordinal = none;
  total_runtime_secs = 30;
  saved_timestamp = 1010;
}

abbrev later_runtime : JournalRecord ℕ
later_runtime = record {
  completed_block = none;
  recheck_ordinal = none;
  total_runtime_secs = 35;
  saved_timestamp = 1015;
}

abbrev two_records : List (JournalRecord ℕ)
two_records = block_five ∷ later_runtime ∷ []

replay-Refines_example :
    Refines
      (replay seconds duplicate_filter real_start (none, none) two_records)
      (replay seconds exact_filter (forget real_start) (none, none) two_records)
replay-Refines_example =
    replay-Refines seconds real_start (none, none) two_records real_start-IsGood

decode_line-line_body_example :
    decode_line records (line_body records block_five) ≡ ok (read_record seconds block_five)
decode_line-line_body_example =
    decode_line-line_body records (is_timed seconds) (read_record seconds) block_five
      records-IsCodec refl

torn_line : has newline (take 3 (encode_line records block_five)) ≡ false
unfolding encode_line
torn_line = unfold line_body in refl

replay_and_repair_tail-render_example :
    replay_and_repair_tail seconds exact_filter headers records true start (
      render headers records (for_scope blocks_of_2_30 none) two_records
      ++ take 3 (encode_line records block_five))
    ≡ (replay seconds exact_filter start (none, none) (reads seconds two_records) >>= λ q.
        ok (q, render headers records (for_scope blocks_of_2_30 none) two_records))
replay_and_repair_tail-render_example =
    replay_and_repair_tail-render seconds exact_filter headers records headers-IsCodec
      records-IsCodec start two_records (take 3 (encode_line records block_five)) (refl, (refl, tt))
      torn_line

abbrev after_two : Progress (List Interval) ℕ
after_two = record {
  block_size = blocks_of_2_30;
  filter = (3, 5) ∷ [];
  total_blocks = 3;
  total_runtime_secs = 35;
  last_saved_timestamp = 1015;
  recheck = none;
}

two_replayed : replay seconds exact_filter start (none, none) two_records ≡ ok after_two
unfolding replay replay_record check_record check_ordinal apply_record apply_runtime mark_block
    advance_recheck insert insert_at_index partition_point binary_search_by bisect
two_replayed = refl

replay-absorbs_example :
    replay seconds exact_filter after_two (none, none) two_records ≡ ok after_two
replay-absorbs_example =
    replay-absorbs seconds seconds-IsOrdered start after_two (none, none) two_records start-IsFit tt
      two_replayed

abbrev opened : Store ℕ
opened = open_new seconds seconds-IsOrdered headers records saved_file blocks_of_2_30 none

opened-IsSafe : IsSafe seconds seconds-IsOrdered headers records opened
opened-IsSafe =
    open_new-IsSafe seconds seconds-IsOrdered headers records saved_file blocks_of_2_30 none
      start-IsFit tt tt

opened-covers : covers opened.progress.filter.intervals 4 ≡ true
unfolding open_new from_intervals
opened-covers = refl

opened-IsReadable : IsReadable seconds headers records opened 31
opened-IsReadable =
    open_new-IsReadable seconds seconds-IsOrdered headers records saved_file blocks_of_2_30 none
      headers-IsCodec records-IsCodec start-IsFit tt tt 31 (refl, refl)

opened-running : opened.poisoned ≡ false
unfolding open_new
opened-running = refl

opened-runtime : seconds.less 31 opened.progress.total_runtime_secs ≡ false
unfolding open_new
opened-runtime = refl

opened-inside : ltb 5 (range_size / opened.progress.block_size) ≡ true
unfolding open_new
opened-inside = refl

opened-expects : expects (next_recheck_block opened.progress) 5 ≡ true
unfolding open_new next_recheck_block
opened-expects = refl

complete_block-succeeds_example :
    let o = complete_block seconds headers records opened 5 31 1010 synced not_due compacted in
    (o.1 ≡ ok tt)
    × (o.0.poisoned ≡ false)
    × (covers o.0.progress.filter.intervals 5 ≡ true)
    × IsDurable seconds seconds-IsOrdered headers records o.0
complete_block-succeeds_example =
    complete_block-succeeds seconds seconds-IsOrdered headers records headers-IsCodec
      records-IsCodec opened 5 31 1010 not_due compacted opened-IsSafe opened-IsReadable
      opened-running refl opened-runtime opened-inside opened-expects refl refl

completed_five :
    (complete_block seconds headers records opened 5 31 1010 synced not_due compacted).1 ≡ ok tt
completed_five =
    (complete_block-succeeds seconds seconds-IsOrdered headers records headers-IsCodec
      records-IsCodec opened 5 31 1010 not_due compacted opened-IsSafe opened-IsReadable
      opened-running refl opened-runtime opened-inside opened-expects refl refl).0

complete_block-covers_example :
    let t = (complete_block seconds headers records opened 5 31 1010 synced not_due compacted).0 in
    IsSafe seconds seconds-IsOrdered headers records t
    × (covers t.progress.filter.intervals 5 ≡ true)
complete_block-covers_example =
    complete_block-covers seconds seconds-IsOrdered headers records headers-IsCodec records-IsCodec
      opened 5 31 1010 synced not_due compacted opened-IsSafe opened-IsReadable completed_five

-- Block 5 is on disk, the compaction behind it is done, the next one is cut off in the header of the new
-- journal, and the files are opened again.
abbrev interrupted_run : List (Call ℕ)
interrupted_run =
    complete 5 31 1010 synced not_due compacted ∷ shut_down 1030 (header_failed 2) ∷ crash ∷ []

interrupted_run-AreReadable : AreReadable seconds headers records opened interrupted_run
unfolding step
interrupted_run-AreReadable = (
  opened-IsReadable,
  (
    (complete_block-IsStep seconds seconds-IsOrdered headers records headers-IsCodec records-IsCodec
          opened 5 31 1010 synced not_due compacted opened-IsSafe opened-IsReadable).settled
        completed_five,
    (tt, tt),
  ),
)

run-IsSafe_example :
    IsSafe seconds seconds-IsOrdered headers records
      (run seconds headers records opened interrupted_run)
run-IsSafe_example =
    run-IsSafe seconds seconds-IsOrdered headers records headers-IsCodec records-IsCodec opened
      interrupted_run opened-IsSafe interrupted_run-AreReadable

run-covers_example :
    covers (run seconds headers records opened interrupted_run).progress.filter.intervals 4 ≡ true
run-covers_example =
    run-covers seconds seconds-IsOrdered headers records headers-IsCodec records-IsCodec opened
      interrupted_run 4 opened-IsSafe interrupted_run-AreReadable opened-covers
