-- ===== src/Store/Calls/Complete.antt =====
-- `complete_block` of src/search/store.rs: what a success promises, and when it succeeds.
use puzzle71_solver.Prelude.{
  ℕ, ◌≡◌, inl, inr, ◌∙◌, refl, sym, subst, Bool, true, not, ◌&&◌, if◌then◌else◌, Bool-cases, arith,
  some, List, ◌++◌,
}
use puzzle71_solver.Prelude.Results.{Result, ok, err, err_if-ok}
use puzzle71_solver.Search.IntervalSet.{covers}
use puzzle71_solver.Search.DuplicateFilter.{is_scanned}
use puzzle71_solver.Store.{
  Runtime, IsOrdered, JournalRecord, StoreError, duplicate_filter, apply_record, is_some,
  poisoned_store,
}
use puzzle71_solver.Store.Line.{
  Codec, IsExactCodec, IsRecordCodec, is_timed, read_record, encode_line,
}
use puzzle71_solver.Store.Journal.{JournalHeader}
use puzzle71_solver.Store.Calls.{
  Store, Outcome, AppendIo, synced, unsafe_journal, write_failed, CompactIo, and_then, ensure,
  append_record, maybe_compact, persist_runtime, ordinal_for, block_record, show_block,
  complete_block_with_sync, complete_block,
}
use puzzle71_solver.Store.Calls.Durable.{with_runtime, IsDurable}
use puzzle71_solver.Store.Calls.Readable.{IsReadable, IsReadable-IsAbove}
use puzzle71_solver.Store.Calls.Append.{IsNew, append-covers}
use puzzle71_solver.Store.Calls.Safe.{
  IsSafe, IsSafe-running, validate_runtime-ok, show_block-apply_record, complete_block-IsNew,
}
use puzzle71_solver.Search.DuplicateFilter.{is_scanned-covers}
use puzzle71_solver.Store.Calls.Step.{maybe_compact-IsStep}
use puzzle71_solver.Store.Calls.Steps.{complete_block_with_sync-IsStep, persist_runtime-IsStep}

-- If the call succeeds, its outcome shows the block as scanned.
Shows : {F : Type 0} → ℕ → Outcome F → Type 0
Shows index o = o.1 ≡ ok tt → covers o.0.progress.filter.intervals index ≡ true

ensure-Shows :
    {F : Type 0} (index : ℕ) (s : Store F) (r : Result (Unit {0}) StoreError)
    (next : Store F → Outcome F)
    → (r ≡ ok tt → Shows index (next s))
    → Shows index (ensure s r next)
unfolding Shows
ensure-Shows index s (ok _) next rest = rest refl
ensure-Shows index s (err e) next rest = λ h. absurd (ground arith)

and_then-ok :
    {F : Type 0} (o : Outcome F) (next : Store F → Outcome F)
    → (and_then o next).1 ≡ ok tt
    → (o.1 ≡ ok tt) × (and_then o next ≡ next o.0)
and_then-ok (s, ok _) next h = (refl, refl)
and_then-ok (s, err e) next h = absurd (ground arith)

module _ {F : Type 0} (rt : Runtime F) (ord : IsOrdered rt) (headers : Codec JournalHeader)
    (records : Codec (JournalRecord F)) (good_headers : IsExactCodec headers)
    (good_records : IsRecordCodec rt records) where
  append_record-Shows :
      (s : Store F) (r : JournalRecord F) (io : AppendIo) (next : Store F → Outcome F) (index : ℕ)
      → (d : IsDurable rt ord headers records s) → is_timed rt r ≡ true
      → IsNew rt ord headers records (with_runtime s.progress d.seen) (read_record rt r)
      → r.completed_block ≡ some index
      → ((bytes : List ℕ)
          → (next (record s { journal = bytes })).0 ≡ record s {
            journal = bytes;
            progress = apply_record rt duplicate_filter s.progress r;
          })
      → Shows index (and_then (append_record rt headers records s r io) next)
  unfolding append_record Shows
  append_record-Shows s r synced next index d timed new block shown = λ h.
      subst (λ t. covers t.progress.filter.intervals index ≡ true)
        (sym (shown (s.journal ++ encode_line records r)))
        ((append-covers rt ord headers records s r d timed new).1 index block)
  append_record-Shows s r unsafe_journal next index d timed new block shown =
      λ h. absurd (ground arith)
  append_record-Shows s r (write_failed n) next index d timed new block shown =
      λ h. absurd (ground arith)

  -- A block that is shown already stays shown.
  persist_runtime-Shows :
      (s : Store F) (index : ℕ) (runtime : F) (now : ℕ) (io : AppendIo) (compaction : CompactIo)
      → IsSafe rt ord headers records s
      → IsReadable rt headers records s runtime
      → IsDurable rt ord headers records s
      → is_scanned s.progress.filter index ≡ true
      → Shows index (persist_runtime rt headers records s runtime now io compaction)
  unfolding Shows
  persist_runtime-Shows s index runtime now io compaction safe readable d old = λ h.
      (persist_runtime-IsStep rt ord headers records good_headers good_records s runtime now io
          compaction safe readable).kept
        index (sym (is_scanned-covers s.progress.filter index d.good.synced) ∙ old)

  complete_block_with_sync-Shows :
      (s : Store F) (index : ℕ) (runtime : F) (now : ℕ) (io : AppendIo) (compaction : CompactIo)
      → IsSafe rt ord headers records s
      → IsReadable rt headers records s runtime
      → Shows index (complete_block_with_sync rt headers records s index runtime now io compaction)
  unfolding complete_block_with_sync
  complete_block_with_sync-Shows s index runtime now io compaction safe readable =
      let r = block_record rt headers records s.progress index runtime now in
      let append =
        and_then (append_record rt headers records s r io)
          (λ t. show_block rt headers records t index r) in
      let chosen : Bool → Type 0 = λ b.
        Shows index
          (if b then persist_runtime rt headers records s runtime now io compaction else append) in
      let old =
        not (is_some (ordinal_for rt headers records s.progress))
        && is_scanned s.progress.filter index in
      ensure-Shows index s _ _ λ healthy. ensure-Shows index s _ _ λ fine.
        ensure-Shows index s _ _ λ inside. ensure-Shows index s _ _ λ expected.
          let h = err_if-ok s.poisoned poisoned_store healthy in
          let d = IsSafe-running rt ord headers records s safe h in
          let above =
            IsReadable-IsAbove rt ord headers records good_headers good_records s d runtime h
              readable in
          let timed = (validate_runtime-ok rt ord headers records s.progress runtime fine).0 in
          let new =
            complete_block-IsNew rt ord headers records s index runtime now d above inside
              expected in
          elim (Bool-cases old) [
            | inl h ↦ subst chosen (sym h) (
                persist_runtime-Shows s index runtime now io compaction safe readable d
                  (ground arith))
            | inr h ↦ subst chosen (sym h) (
                append_record-Shows s r io (λ t. show_block rt headers records t index r) index d
                  timed new refl
                  (λ bytes.
                    show_block-apply_record rt ord headers records (record s { journal = bytes })
                      index r refl new.next))
          ]

-- When `complete_block` on a safe store returns success, with any modelled outcome of the file system, the
-- store that it leaves is safe, and shows the block as scanned, if what the runtime is read back as is a
-- duration that does not fall below the one the files hold.
pub complete_block-covers :
    {F : Type 0} (rt : Runtime F) (ord : IsOrdered rt) (headers : Codec JournalHeader)
    (records : Codec (JournalRecord F)) (good_headers : IsExactCodec headers)
    (good_records : IsRecordCodec rt records) (s : Store F) (index : ℕ) (runtime : F) (now : ℕ)
    (io : AppendIo) (inner compaction : CompactIo)
    → IsSafe rt ord headers records s
    → IsReadable rt headers records s runtime
    → (complete_block rt headers records s index runtime now io inner compaction).1 ≡ ok tt
    → let t = (complete_block rt headers records s index runtime now io inner compaction).0 in
      IsSafe rt ord headers records t × (covers t.progress.filter.intervals index ≡ true)
unfolding complete_block Shows
complete_block-covers rt ord headers records good_headers good_records s index runtime now io inner
      compaction safe readable h =
    let first = complete_block_with_sync rt headers records s index runtime now io inner in
    let next : Store _ → Outcome _ = λ t. maybe_compact rt headers records t now compaction in
    let (one, same) = and_then-ok first next h in
    let step =
      complete_block_with_sync-IsStep rt ord headers records good_headers good_records s index
        runtime now io inner safe readable in
    let last =
      maybe_compact-IsStep rt ord headers records good_headers good_records first.0 now compaction
        step.safe (step.settled one) in
    let shown =
      complete_block_with_sync-Shows rt ord headers records good_headers good_records s index
        runtime now io inner safe readable one in
    subst
      (λ o. IsSafe rt ord headers records o.0 × (covers o.0.progress.filter.intervals index ≡ true))
      (sym same) (last.safe, last.kept index shown)
