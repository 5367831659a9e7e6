-- ===== src/Store/Calls.antt =====
-- The calls of the running `CheckpointStore` of src/search/store.rs. What the file system does in a call
-- is an argument: an append may fail after some of its bytes are written, a compaction after each of its
-- steps. The snapshot file is kept as the value that its JSON reads back as.
pub mod Durable
pub mod Readable
pub mod Readback
pub mod Append
pub mod Compact
pub mod Safe
pub mod Step
pub mod Steps
pub mod Runs
pub mod Complete
pub mod Success
pub mod Open
pub mod Cursor
use puzzle71_solver.Prelude.{
  ℕ, ◌+◌, ◌*◌, ◌/◌, ◌^◌, ◌≡◌, refl, Bool, true, false, not, ◌&&◌, ◌||◌, leb, ltb, ◌==◌,
  if◌then◌else◌, max, Option, none, some, List, [], ◌∷◌, ◌++◌, take,
}
use puzzle71_solver.Prelude.Results.{Result, ok, err, err_if, ◌>>=◌, ◌>>◌}
use puzzle71_solver.PuzzleConfig
use puzzle71_solver.PuzzleConfig.{range_size}
use puzzle71_solver.Search.IntervalSet.{Interval}
use puzzle71_solver.Search.Checkpoint.{CheckpointState}
use puzzle71_solver.Search.DuplicateFilter.{DuplicateFilter, is_scanned}
use puzzle71_solver.Store.{
  Runtime, Filter, RecheckIdentity, RecheckState, JournalRecord, Progress, StoreError,
  poisoned_store, runtime_invalid, outside_range, not_next_block, io_failed, duplicate_filter,
  next_recheck_block, mark_block, apply_runtime, next_of, same_option, is_some,
}
use puzzle71_solver.Store.Line.{Codec, encode_line}
use puzzle71_solver.Store.Journal.{JournalHeader, for_scope}

-- The snapshot file, with the cursor of a scoped one.
pub record Snapshot (F : Type 0) : Type 0 where
  pub checkpoint : CheckpointState F
  pub completed : Option ℕ

pub record Store (F : Type 0) : Type 0 where
  pub progress : Progress DuplicateFilter F
  pub journal : List ℕ
  pub snapshot_file : Snapshot F
  pub poisoned : Bool

abbrev pub completed_of : Option RecheckState → Option ℕ
completed_of none = none
completed_of (some r) = some r.completed

-- The cursor of a snapshot, for the plan that the store is opened with.
abbrev pub resume_scope : Option RecheckState → Option ℕ → Option RecheckState
resume_scope (some r) (some completed) = some (record r { completed = completed })
resume_scope scope _ = scope

-- The progress that a store begins with, before the replay.
abbrev pub resume : {A F : Type 0} → Filter A → Snapshot F → ℕ → Option RecheckState → Progress A F
resume ops file block_size scope = record {
  block_size = block_size;
  filter = ops.make file.checkpoint.scanned_intervals;
  total_blocks = file.checkpoint.total_blocks_tested;
  total_runtime_secs = file.checkpoint.total_runtime_secs;
  last_saved_timestamp = file.checkpoint.last_saved_timestamp;
  recheck = resume_scope scope file.completed;
}

-- `snapshot`, as `compact` saves it at a time, with the runtime that its JSON reads back as.
unfoldable pub snapshot : {F : Type 0} → Runtime F → Progress DuplicateFilter F → ℕ → Snapshot F
snapshot rt p now = record {
  checkpoint = record {
    puzzle_number = PuzzleConfig.puzzle_number;
    total_keys_tested = p.total_blocks * p.block_size;
    total_blocks_tested = p.total_blocks;
    total_runtime_secs = rt.stored p.total_runtime_secs;
    scanned_intervals = p.filter.intervals;
    last_saved_timestamp = max now p.last_saved_timestamp;
  };
  completed = completed_of p.recheck;
}

-- An append: it reaches the disk, the file is found unsafe before it, or the write or its sync fails with
-- some of the bytes written.
pub data AppendIo : Type 0 where
  synced unsafe_journal : AppendIo
  write_failed : ℕ → AppendIo

-- A compaction: not due; its file size unknown; refused or failed before the snapshot is replaced; the
-- journal found unsafe after that; its truncation or the sync of
-- it failed, with the journal emptied or not; its header written in part; or done.
pub data CompactIo : Type 0 where
  not_due size_unknown save_failed unsafe_after_save compacted : CompactIo
  truncate_failed : Bool → CompactIo
  header_failed : ℕ → CompactIo

abbrev pub Outcome : Type 0 → Type 0
Outcome F = Store F × Result (Unit {0}) StoreError

-- The next step of a call, unless the one before failed.
abbrev pub and_then : {F : Type 0} → Outcome F → (Store F → Outcome F) → Outcome F
and_then (s, ok _) next = next s
and_then (s, err e) next = (s, err e)

-- A test before anything is changed.
abbrev pub ensure :
    {F : Type 0} → Store F → Result (Unit {0}) StoreError → (Store F → Outcome F) → Outcome F
ensure s r next = and_then (s, r) next

abbrev pub next_ordinal : Option RecheckState → Option ℕ
next_ordinal scope = if is_some (next_of scope) then completed_of scope else none

abbrev pub expects : Option ℕ → ℕ → Bool
expects none index = true
expects (some expected) index = index == expected

module _ {F : Type 0} (rt : Runtime F) (headers : Codec JournalHeader)
    (records : Codec (JournalRecord F)) where
  abbrev pub validate_runtime : Progress DuplicateFilter F → F → Result (Unit {0}) StoreError
  validate_runtime p runtime =
      err_if (not (rt.is_duration runtime) || rt.less runtime p.total_runtime_secs) runtime_invalid

  unfoldable pub append_record : Store F → JournalRecord F → AppendIo → Outcome F
  append_record s r synced = (record s { journal = s.journal ++ encode_line records r }, ok tt)
  append_record s r unsafe_journal = (record s { poisoned = true }, err io_failed)
  append_record s r (write_failed n) = (
    record s { journal = s.journal ++ take n (encode_line records r); poisoned = true },
    err io_failed,
  )

  -- `write_header` with all its bytes or some.
  abbrev pub header_of : Store F → List ℕ
  header_of s = encode_line headers (for_scope s.progress.block_size s.progress.recheck)

  abbrev pub saved : Store F → ℕ → Store F
  saved s now = record s {
    snapshot_file = snapshot rt s.progress now;
    progress = record (s.progress) {
      last_saved_timestamp = max now s.progress.last_saved_timestamp;
    };
  }

  -- `compact` behind its health check.
  unfoldable pub compact_steps : Store F → ℕ → CompactIo → Outcome F
  compact_steps s now not_due = (s, ok tt)
  compact_steps s now size_unknown = (s, err io_failed)
  compact_steps s now save_failed = (s, err io_failed)
  compact_steps s now unsafe_after_save = (saved s now, err io_failed)
  compact_steps s now (truncate_failed emptied) = (
    record (saved s now) { journal = if emptied then [] else s.journal; poisoned = true },
    err io_failed,
  )
  compact_steps s now (header_failed n) =
      (record (saved s now) { journal = take n (header_of s); poisoned = true }, err io_failed)
  compact_steps s now compacted = (record (saved s now) { journal = header_of s }, ok tt)

  unfoldable pub maybe_compact : Store F → ℕ → CompactIo → Outcome F
  maybe_compact s now not_due = (s, ok tt)
  maybe_compact s now size_unknown = (s, err io_failed)
  maybe_compact s now io = if s.poisoned then (s, err poisoned_store) else compact_steps s now io

  abbrev pub runtime_record : Progress DuplicateFilter F → F → ℕ → JournalRecord F
  runtime_record p runtime now = record {
    completed_block = none;
    recheck_ordinal = none;
    total_runtime_secs = runtime;
    saved_timestamp = max now p.last_saved_timestamp;
  }

  -- The record is on disk: it is applied to the store.
  abbrev pub apply_to : Store F → JournalRecord F → Outcome F
  apply_to s r = (record s { progress = apply_runtime rt duplicate_filter s.progress r }, ok tt)

  unfoldable pub record_runtime : Store F → F → ℕ → AppendIo → Outcome F
  record_runtime s runtime now io =
      let r = runtime_record s.progress runtime now in
      if rt.same runtime s.progress.total_runtime_secs
      then (s, ok tt)
      else and_then (append_record s r io) (λ s'. apply_to s' r)

  unfoldable pub persist_runtime : Store F → F → ℕ → AppendIo → CompactIo → Outcome F
  persist_runtime s runtime now io compaction = ensure s (err_if s.poisoned poisoned_store) λ s.
      ensure s (validate_runtime s.progress runtime)
        λ s. and_then (record_runtime s runtime now io) λ s'. maybe_compact s' now compaction

  abbrev pub ordinal_for : Progress DuplicateFilter F → Option ℕ
  ordinal_for p = next_ordinal p.recheck

  abbrev pub block_record : Progress DuplicateFilter F → ℕ → F → ℕ → JournalRecord F
  block_record p index runtime now = record {
    completed_block = some index;
    recheck_ordinal = ordinal_for p;
    total_runtime_secs = runtime;
    saved_timestamp = max now p.last_saved_timestamp;
  }

  abbrev pub bump : Option RecheckState → Option ℕ → Option RecheckState
  bump (some r) (some ordinal) = some (record r { completed = r.completed + 1 })
  bump scope _ = scope

  -- A completed block becomes visible after its record is on disk.
  unfoldable pub show_block : Store F → ℕ → JournalRecord F → Outcome F
  show_block s index r =
      let marked = mark_block rt duplicate_filter s.progress (some index) in
      let advanced = record marked { recheck = bump marked.recheck r.recheck_ordinal } in
      (record s { progress = apply_runtime rt duplicate_filter advanced r }, ok tt)

  unfoldable pub complete_block_with_sync : Store F → ℕ → F → ℕ → AppendIo → CompactIo → Outcome F
  complete_block_with_sync s index runtime now io compaction =
      let r = block_record s.progress index runtime now in
      ensure s (err_if s.poisoned poisoned_store) λ s.
        ensure s (validate_runtime s.progress runtime) λ s.
          ensure s (err_if (not (ltb index (range_size / s.progress.block_size))) outside_range)
            λ s.
              ensure s (err_if (not (expects (next_recheck_block s.progress) index)) not_next_block)
                λ s.
                  if not (is_some (ordinal_for s.progress)) && is_scanned s.progress.filter index
                  then persist_runtime s runtime now io compaction
                  else and_then (append_record s r io) (λ s'. show_block s' index r)

  unfoldable pub complete_block : Store F → ℕ → F → ℕ → AppendIo → CompactIo → CompactIo → Outcome F
  complete_block s index runtime now io inner compaction =
      and_then (complete_block_with_sync s index runtime now io inner)
        λ s'. maybe_compact s' now compaction

  unfoldable pub compact : Store F → ℕ → CompactIo → Outcome F
  compact s now io = if s.poisoned then (s, err poisoned_store) else compact_steps s now io
