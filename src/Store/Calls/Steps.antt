-- ===== src/Store/Calls/Steps.antt =====
-- The appending calls of src/search/store.rs as steps: what each leaves on disk and shows, with each
-- modelled outcome of the file system.
use puzzle71_solver.Prelude.{
  ℕ, ◌≡◌, inl, inr, refl, sym, subst, Bool, true, false, not, ◌&&◌, if◌then◌else◌, Bool-cases,
  arith, List, ◌++◌,
}
use puzzle71_solver.Prelude.Results.{ok, err_if-ok}
use puzzle71_solver.Search.IntervalSet.{covers}
use puzzle71_solver.Search.DuplicateFilter.{is_scanned}
use puzzle71_solver.Store.{
  Runtime, IsOrdered, JournalRecord, duplicate_filter, apply_record, advance_recheck, mark_block,
  is_some, poisoned_store,
}
use puzzle71_solver.Store.Line.{
  Codec, IsExactCodec, IsRecordCodec, is_timed, read_record, encode_line,
}
use puzzle71_solver.Store.Journal.{JournalHeader}
use puzzle71_solver.Store.Calls.{
  Store, Outcome, AppendIo, synced, unsafe_journal, write_failed, CompactIo, and_then,
  validate_runtime, append_record, runtime_record, apply_to, record_runtime, persist_runtime,
  ordinal_for, block_record, show_block, complete_block_with_sync, complete_block,
}
use puzzle71_solver.Store.Calls.Durable.{with_runtime, IsDurable}
use puzzle71_solver.Store.Calls.Readable.{
  IsReadable, IsSettled, IsReadable-IsAbove, IsAbove-IsReadable,
}
use puzzle71_solver.Store.Calls.Append.{
  IsNew, appended, append-covers, progress-IsFit, append-IsDurable, append-IsAbove, append-Recovers,
}
use puzzle71_solver.Store.Calls.Safe.{
  IsSafe, running, stopped, interrupted, IsSafe-running, validate_runtime-ok, runtime_record-IsNew,
  show_block-apply_record, complete_block-IsNew,
}
use puzzle71_solver.Store.Calls.Step.{
  IsStep, stay, ensure-IsStep, and_then-IsStep, poison-IsSafe, maybe_compact-IsStep,
}

module _ {F : Type 0} (rt : Runtime F) (ord : IsOrdered rt) (headers : Codec JournalHeader)
    (records : Codec (JournalRecord F)) (good_headers : IsExactCodec headers)
    (good_records : IsRecordCodec rt records) where
  -- An append, and its record applied once it is on disk.
  append_record-IsStep :
      (s : Store F) (r : JournalRecord F) (io : AppendIo) (next : Store F → Outcome F)
      → s.poisoned ≡ false
      → (d : IsDurable rt ord headers records s) → is_timed rt r ≡ true
      → rt.less r.total_runtime_secs s.progress.total_runtime_secs ≡ false
      → IsNew rt ord headers records (with_runtime s.progress d.seen) (read_record rt r)
      → ((bytes : List ℕ)
          → (next (record s { journal = bytes })).0 ≡ record s {
            journal = bytes;
            progress = apply_record rt duplicate_filter s.progress r;
          })
      → IsStep rt ord headers records s (and_then (append_record rt headers records s r io) next)
  unfolding append_record
  append_record-IsStep s r synced next h d timed grows new shown =
      let same = sym (shown (s.journal ++ encode_line records r)) in
      let e = (append-IsDurable rt ord headers records s r d timed new).0 in
      let t = appended rt ord headers records s r d timed new in
      record {
        safe = subst (IsSafe rt ord headers records) same (running h e);
        kept = λ b m.
            subst (λ t. covers t.progress.filter.intervals b ≡ true) same
              ((append-covers rt ord headers records s r d timed new).0 b m);
        settled = λ _. subst (IsSettled rt headers records) same (
            IsAbove-IsReadable rt ord headers records good_headers good_records t e
              t.progress.total_runtime_secs
              (append-IsAbove rt ord headers records s r d timed new grows));
      }
  append_record-IsStep s r unsafe_journal next h d timed grows new shown = record {
    safe = poison-IsSafe rt ord headers records good_headers good_records s d;
    kept = λ b m. m;
    settled = λ k. absurd (ground arith);
  }
  append_record-IsStep s r (write_failed n) next h d timed grows new shown =
      elim (append-Recovers rt ord headers records s r d timed new n good_headers good_records) [
        | inl x ↦ record {
          safe = stopped d.seen refl x;
          kept = λ b m. m;
          settled = λ k. absurd (ground arith);
        }
        | inr x ↦ record {
          safe =
              interrupted d.seen r refl new (progress-IsFit rt ord headers records s r d timed new)
                x;
          kept = λ b m. m;
          settled = λ k. absurd (ground arith);
        }
      ]

  record_runtime-IsStep :
      (s : Store F) (runtime : F) (now : ℕ) (io : AppendIo)
      → s.poisoned ≡ false
      → IsDurable rt ord headers records s
      → validate_runtime rt headers records s.progress runtime ≡ ok tt
      → IsReadable rt headers records s runtime
      → IsStep rt ord headers records s (record_runtime rt headers records s runtime now io)
  unfolding record_runtime
  record_runtime-IsStep s runtime now io h d fine readable =
      let r = runtime_record rt headers records s.progress runtime now in
      let append =
        and_then (append_record rt headers records s r io) (λ t. apply_to rt headers records t r) in
      let chosen : Bool → Type 0 =
        λ b. IsStep rt ord headers records s (if b then (s, ok tt) else append) in
      let above =
        IsReadable-IsAbove rt ord headers records good_headers good_records s d runtime h
          readable in
      let (duration, grows) = validate_runtime-ok rt ord headers records s.progress runtime fine in
      elim (Bool-cases (rt.same runtime s.progress.total_runtime_secs)) [
        | inl e ↦ subst chosen (sym e) (
            stay rt ord headers records s (ok tt) (running h d)
              (λ _. subst (IsReadable rt headers records s) (ord.same_eq _ _ e) readable))
        | inr e ↦ subst chosen (sym e) (
            append_record-IsStep s r io (λ t. apply_to rt headers records t r) h d duration grows
              (runtime_record-IsNew rt ord headers records s.progress d.seen runtime now above)
              (λ bytes. unfold apply_record mark_block advance_recheck in refl))
      ]

  pub persist_runtime-IsStep :
      (s : Store F) (runtime : F) (now : ℕ) (io : AppendIo) (compaction : CompactIo)
      → IsSafe rt ord headers records s
      → IsReadable rt headers records s runtime
      → IsStep rt ord headers records s
          (persist_runtime rt headers records s runtime now io compaction)
  unfolding persist_runtime
  persist_runtime-IsStep s runtime now io compaction safe readable =
      ensure-IsStep rt ord headers records s _ _ safe λ healthy.
        ensure-IsStep rt ord headers records s _ _ safe λ fine.
          let h = err_if-ok s.poisoned poisoned_store healthy in
          and_then-IsStep rt ord headers records s
            (record_runtime rt headers records s runtime now io) _
            (record_runtime-IsStep s runtime now io h
              (IsSafe-running rt ord headers records s safe h) fine readable)
            (λ t x settled.
              maybe_compact-IsStep rt ord headers records good_headers good_records t now compaction
                x settled)

  pub complete_block_with_sync-IsStep :
      (s : Store F) (index : ℕ) (runtime : F) (now : ℕ) (io : AppendIo) (compaction : CompactIo)
      → IsSafe rt ord headers records s
      → IsReadable rt headers records s runtime
      → IsStep rt ord headers records s
          (complete_block_with_sync rt headers records s index runtime now io compaction)
  unfolding complete_block_with_sync
  complete_block_with_sync-IsStep s index runtime now io compaction safe readable =
      let r = block_record rt headers records s.progress index runtime now in
      ensure-IsStep rt ord headers records s _ _ safe λ healthy.
        ensure-IsStep rt ord headers records s _ _ safe λ fine.
          ensure-IsStep rt ord headers records s _ _ safe λ inside.
            ensure-IsStep rt ord headers records s _ _ safe λ expected.
              let h = err_if-ok s.poisoned poisoned_store healthy in
              let d = IsSafe-running rt ord headers records s safe h in
              let above =
                IsReadable-IsAbove rt ord headers records good_headers good_records s d runtime h
                  readable in
              let (duration, grows) =
                validate_runtime-ok rt ord headers records s.progress runtime fine in
              let new =
                complete_block-IsNew rt ord headers records s index runtime now d above inside
                  expected in
              elim (not (is_some (ordinal_for rt headers records s.progress))
                  && is_scanned s.progress.filter index)
                as (λ b. IsStep rt ord headers records s (
                  if b
                  then persist_runtime rt headers records s runtime now io compaction
                  else and_then (append_record rt headers records s r io)
                      (λ t. show_block rt headers records t index r))) [
                        | true ↦ persist_runtime-IsStep s runtime now io compaction safe readable
                        | false ↦
                            append_record-IsStep s r io
                              (λ t. show_block rt headers records t index r) h d duration grows new
                              (λ bytes.
                                show_block-apply_record rt ord headers records
                                  (record s { journal = bytes }) index r refl new.next)
                      ]

  pub complete_block-IsStep :
      (s : Store F) (index : ℕ) (runtime : F) (now : ℕ) (io : AppendIo)
      (inner compaction : CompactIo)
      → IsSafe rt ord headers records s
      → IsReadable rt headers records s runtime
      → IsStep rt ord headers records s
          (complete_block rt headers records s index runtime now io inner compaction)
  unfolding complete_block
  complete_block-IsStep s index runtime now io inner compaction safe readable =
      and_then-IsStep rt ord headers records s
        (complete_block_with_sync rt headers records s index runtime now io inner) _
        (complete_block_with_sync-IsStep s index runtime now io inner safe readable)
        (λ t x settled.
          maybe_compact-IsStep rt ord headers records good_headers good_records t now compaction x
            settled)
