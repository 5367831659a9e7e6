-- ===== src/Store/Calls/Success.antt =====
-- When `complete_block` of src/search/store.rs succeeds.
use puzzle71_solver.Prelude.{
  ℕ, ◌/◌, ◌≡◌, refl, sym, subst, Bool, true, false, not, ◌&&◌, ◌||◌, ltb, if◌then◌else◌, arith,
}
use puzzle71_solver.Prelude.Results.{ok, err, err_if}
use puzzle71_solver.PuzzleConfig.{range_size}
use puzzle71_solver.Search.IntervalSet.{covers}
use puzzle71_solver.Search.DuplicateFilter.{is_scanned}
use puzzle71_solver.Store.{
  Runtime, IsOrdered, JournalRecord, StoreError, next_recheck_block, is_some, poisoned_store,
  runtime_invalid, outside_range, not_next_block,
}
use puzzle71_solver.Store.Line.{Codec, IsExactCodec, IsRecordCodec}
use puzzle71_solver.Store.Journal.{JournalHeader}
use puzzle71_solver.Store.Calls.{
  Store, Outcome, synced, CompactIo, not_due, size_unknown, save_failed, unsafe_after_save,
  truncate_failed, header_failed, compacted, append_record, compact_steps, maybe_compact,
  record_runtime, persist_runtime, runtime_record, apply_to, ordinal_for, block_record, show_block,
  expects, ensure, complete_block_with_sync, complete_block, and_then,
}
use puzzle71_solver.Store.Calls.Durable.{IsDurable}
use puzzle71_solver.Store.Calls.Readable.{IsReadable}
use puzzle71_solver.Store.Calls.Safe.{IsSafe, IsSafe-running}
use puzzle71_solver.Store.Calls.Complete.{complete_block-covers}

-- The compaction is not due, or goes through.
abbrev pub goes_through : CompactIo → Bool
goes_through not_due = true
goes_through compacted = true
goes_through _ = false

IsDone : {F : Type 0} → Outcome F → Type 0
IsDone o = (o.1 ≡ ok tt) × (o.0.poisoned ≡ false)

and_then-IsDone :
    {F : Type 0} (o : Outcome F) (next : Store F → Outcome F)
    → IsDone o
    → ((s : Store F) → s.poisoned ≡ false → IsDone (next s))
    → IsDone (and_then o next)
unfolding IsDone
and_then-IsDone (s, ok _) next done rest = rest s done.1
and_then-IsDone (s, err e) next done rest = absurd (ground (arith, done.0))

ensure-IsDone :
    {F : Type 0} (s : Store F) (b : Bool) (e : StoreError) (next : Store F → Outcome F)
    → b ≡ false
    → IsDone (next s)
    → IsDone (ensure s (err_if b e) next)
ensure-IsDone s false e next h done = done
ensure-IsDone s true e next h done = absurd (ground arith)

module _ {F : Type 0} (rt : Runtime F) (headers : Codec JournalHeader)
    (records : Codec (JournalRecord F)) where
  maybe_compact-IsDone :
      (s : Store F) (now : ℕ) (io : CompactIo)
      → goes_through io ≡ true
      → s.poisoned ≡ false
      → IsDone (maybe_compact rt headers records s now io)
  unfolding IsDone maybe_compact compact_steps
  maybe_compact-IsDone s now not_due fine h = (refl, h)
  maybe_compact-IsDone s now compacted fine h =
      subst
        (λ b.
          let o =
            if b
            then (s, err poisoned_store)
            else compact_steps rt headers records s now compacted in
          (o.1 ≡ ok tt) × (o.0.poisoned ≡ false))
        (sym h) (refl, h)
  maybe_compact-IsDone s now size_unknown fine h = absurd (ground arith)
  maybe_compact-IsDone s now save_failed fine h = absurd (ground arith)
  maybe_compact-IsDone s now unsafe_after_save fine h = absurd (ground arith)
  maybe_compact-IsDone s now (truncate_failed e) fine h = absurd (ground arith)
  maybe_compact-IsDone s now (header_failed n) fine h = absurd (ground arith)

  record_runtime-IsDone :
      (s : Store F) (runtime : F) (now : ℕ)
      → s.poisoned ≡ false
      → IsDone (record_runtime rt headers records s runtime now synced)
  unfolding IsDone record_runtime append_record
  record_runtime-IsDone s runtime now h =
      let r = runtime_record rt headers records s.progress runtime now in
      elim (rt.same runtime s.progress.total_runtime_secs)
        as (λ b.
          let o =
            if b
            then (s, ok tt)
            else and_then (append_record rt headers records s r synced)
                (λ t. apply_to rt headers records t r) in
          (o.1 ≡ ok tt) × (o.0.poisoned ≡ false)) [ true ↦ (refl, h) | false ↦ (refl, h) ]

  module _ (s : Store F) (runtime : F) (now : ℕ) (h : s.poisoned ≡ false)
      (duration : rt.is_duration runtime ≡ true)
      (monotone : rt.less runtime s.progress.total_runtime_secs ≡ false) where
    persist_runtime-IsDone :
        (io : CompactIo)
        → goes_through io ≡ true
        → IsDone (persist_runtime rt headers records s runtime now synced io)
    unfolding persist_runtime
    persist_runtime-IsDone io fine = ensure-IsDone s s.poisoned poisoned_store _ h (
        ensure-IsDone s
          (not (rt.is_duration runtime) || rt.less runtime s.progress.total_runtime_secs)
          runtime_invalid _ (ground arith)
          (and_then-IsDone (record_runtime rt headers records s runtime now synced) _
            (record_runtime-IsDone s runtime now h)
            (λ t healthy. maybe_compact-IsDone t now io fine healthy)))

    append-IsDone :
        (index : ℕ) (r : JournalRecord F)
        → IsDone (
            and_then
              (append_record rt headers records s r synced)
              (λ t. show_block rt headers records t index r))
    unfolding IsDone append_record show_block
    append-IsDone index r = (refl, h)

    complete_block_with_sync-IsDone :
        (index : ℕ) (inner : CompactIo)
        → ltb index (range_size / s.progress.block_size) ≡ true
        → expects (next_recheck_block s.progress) index ≡ true
        → goes_through inner ≡ true
        → IsDone (complete_block_with_sync rt headers records s index runtime now synced inner)
    unfolding complete_block_with_sync
    complete_block_with_sync-IsDone index inner inside expected fine =
        let r = block_record rt headers records s.progress index runtime now in
        let append =
          and_then (append_record rt headers records s r synced)
            (λ t. show_block rt headers records t index r) in
        let old =
          not (is_some (ordinal_for rt headers records s.progress))
          && is_scanned s.progress.filter index in
        ensure-IsDone s s.poisoned poisoned_store _ h (
          ensure-IsDone s
            (not (rt.is_duration runtime) || rt.less runtime s.progress.total_runtime_secs)
            runtime_invalid _ (ground arith)
            (ensure-IsDone s (not (ltb index (range_size / s.progress.block_size))) outside_range _
              (ground arith)
              (ensure-IsDone s (not (expects (next_recheck_block s.progress) index)) not_next_block
                _ (ground arith)
                (elim old
                  as (λ b. IsDone (
                    if b
                    then persist_runtime rt headers records s runtime now synced inner
                    else append)) [
                      | true ↦ persist_runtime-IsDone inner fine
                      | false ↦ append-IsDone index r
                    ]))))

complete_block-IsDone :
    {F : Type 0} (rt : Runtime F) (headers : Codec JournalHeader)
    (records : Codec (JournalRecord F)) (s : Store F) (index : ℕ) (runtime : F) (now : ℕ)
    (inner compaction : CompactIo)
    → s.poisoned ≡ false
    → rt.is_duration runtime ≡ true
    → rt.less runtime s.progress.total_runtime_secs ≡ false
    → ltb index (range_size / s.progress.block_size) ≡ true
    → expects (next_recheck_block s.progress) index ≡ true
    → goes_through inner ≡ true
    → goes_through compaction ≡ true
    → IsDone (complete_block rt headers records s index runtime now synced inner compaction)
unfolding complete_block
complete_block-IsDone rt headers records s index runtime now inner compaction h duration monotone
      inside expected fine fine' =
    and_then-IsDone (complete_block_with_sync rt headers records s index runtime now synced inner) _
      (complete_block_with_sync-IsDone rt headers records s runtime now h duration monotone index
        inner inside expected fine)
      (λ t healthy. maybe_compact-IsDone rt headers records t now compaction fine' healthy)

-- On a safe, running store whose journal append is synced and whose compactions are not due or go through,
-- `complete_block` succeeds, the store runs on, shows the block as scanned, and has its progress with the
-- block on disk, if the runtime is a duration and not below the one of the store, its read-back a duration
-- and not below the one of the files, the block in the range, and the one that a recheck expects.
pub complete_block-succeeds :
    {F : Type 0} (rt : Runtime F) (ord : IsOrdered rt) (headers : Codec JournalHeader)
    (records : Codec (JournalRecord F)) (good_headers : IsExactCodec headers)
    (good_records : IsRecordCodec rt records) (s : Store F) (index : ℕ) (runtime : F) (now : ℕ)
    (inner compaction : CompactIo)
    → IsSafe rt ord headers records s
    → IsReadable rt headers records s runtime
    → s.poisoned ≡ false
    → rt.is_duration runtime ≡ true
    → rt.less runtime s.progress.total_runtime_secs ≡ false
    → ltb index (range_size / s.progress.block_size) ≡ true
    → expects (next_recheck_block s.progress) index ≡ true
    → goes_through inner ≡ true
    → goes_through compaction ≡ true
    → let o = complete_block rt headers records s index runtime now synced inner compaction in
      (o.1 ≡ ok tt)
      × (o.0.poisoned ≡ false)
      × (covers o.0.progress.filter.intervals index ≡ true)
      × IsDurable rt ord headers records o.0
unfolding IsDone
complete_block-succeeds rt ord headers records good_headers good_records s index runtime now inner
      compaction safe readable h duration monotone inside expected fine fine' =
    let (done, healthy) =
      complete_block-IsDone rt headers records s index runtime now inner compaction h duration
        monotone inside expected fine fine' in
    let (safe', shown) =
      complete_block-covers rt ord headers records good_headers good_records s index runtime now
        synced inner compaction safe readable done in
    (done, healthy, shown, IsSafe-running rt ord headers records _ safe' healthy)
