-- ===== src/Store/Calls/Runs.antt =====
-- Runs of the store of src/search/store.rs: its public calls in any order, each with what the file system
-- does in it, and crashes, after which the journal is replayed over the snapshot again. The tests that
-- `open_impl` makes of the snapshot are not in a crash.
use puzzle71_solver.Prelude.{ℕ, ◌≡◌, refl, sym, subst, true, false, List, [], ◌∷◌}
use puzzle71_solver.Prelude.Results.{Result, ok, err}
use puzzle71_solver.Search.IntervalSet.{Interval, covers}
use puzzle71_solver.Search.DuplicateFilter.{DuplicateFilter}
use puzzle71_solver.Store.{
  Runtime, IsOrdered, JournalRecord, Progress, StoreError, duplicate_filter, exact_filter,
  apply_record,
}
use puzzle71_solver.Store.Refine.{forget}
use puzzle71_solver.Store.Line.{Codec, IsExactCodec, IsRecordCodec, read_record}
use puzzle71_solver.Store.Journal.{JournalHeader, replay_and_repair_tail}
use puzzle71_solver.Store.Calls.{
  Store, AppendIo, CompactIo, persist_runtime, complete_block, compact,
}
use puzzle71_solver.Store.Calls.Durable.{with_runtime, Recovers, real_base, IsDurable-Recovers}
use puzzle71_solver.Store.Calls.Readable.{IsReadable, IsSettled}
use puzzle71_solver.Store.Absorb.{apply_record-Applied}
use puzzle71_solver.Store.Calls.Safe.{IsSafe, running, stopped, interrupted}
use puzzle71_solver.Store.Calls.Step.{compact-IsStep}
use puzzle71_solver.Store.Calls.Steps.{persist_runtime-IsStep, complete_block-IsStep}

-- A call with its arguments, the time it reads and what the file system does in it.
pub data Call (F : Type 0) : Type 0 where
  persist : F → ℕ → AppendIo → CompactIo → Call F
  complete : ℕ → F → ℕ → AppendIo → CompactIo → CompactIo → Call F
  shut_down : ℕ → CompactIo → Call F
  crash : Call F

module _ {F : Type 0} (rt : Runtime F) (headers : Codec JournalHeader)
    (records : Codec (JournalRecord F)) where
  -- The files are opened again; a store that is refused stays as it is.
  abbrev pub open_again :
      Store F → Result (Progress DuplicateFilter F × List ℕ) StoreError → Store F
  open_again s (ok (p, bytes)) = record {
    progress = p;
    journal = bytes;
    snapshot_file = s.snapshot_file;
    poisoned = false;
  }
  open_again s (err e) = s

  unfoldable pub step : Store F → Call F → Store F
  step s (persist runtime now io compaction) =
      (persist_runtime rt headers records s runtime now io compaction).0
  step s (complete index runtime now io inner compaction) =
      (complete_block rt headers records s index runtime now io inner compaction).0
  step s (shut_down now io) = (compact rt headers records s now io).0
  step s crash =
      open_again s
        (replay_and_repair_tail rt duplicate_filter headers records true (real_base s) s.journal)

  unfoldable pub run : Store F → List (Call F) → Store F
  run s [] = s
  run s (c ∷ cs) = run (step s c) cs

  -- What a call writes reads back as a runtime that is a duration, and not below the one that the files open
  -- with at that time.
  abbrev pub IsReadableCall : Store F → Call F → Type 0
  IsReadableCall s (persist runtime now io compaction) = IsReadable rt headers records s runtime
  IsReadableCall s (complete index runtime now io inner compaction) =
      IsReadable rt headers records s runtime
  IsReadableCall s (shut_down now io) = IsSettled rt headers records s
  IsReadableCall s crash = Unit

  abbrev pub AreReadable : Store F → List (Call F) → Type 0
  AreReadable s [] = Unit
  AreReadable s (c ∷ cs) = IsReadableCall s c × AreReadable (step s c) cs

module _ {F : Type 0} (rt : Runtime F) (ord : IsOrdered rt) (headers : Codec JournalHeader)
    (records : Codec (JournalRecord F)) (good_headers : IsExactCodec headers)
    (good_records : IsRecordCodec rt records) where
  -- What the files of a safe store are opened with, and that no block of the progress is missing there.
  pub recovery :
      (s : Store F)
      → IsSafe rt ord headers records s
      → (p : Progress (List Interval) F) × Recovers rt ord headers records s p
        × ((b : ℕ) → covers s.progress.filter.intervals b ≡ true → covers p.filter b ≡ true)
  recovery s (running h d) = (
    with_runtime (forget s.progress) d.seen,
    IsDurable-Recovers rt ord headers records good_headers good_records s d,
    λ b m. m,
  )
  recovery s (stopped seen h x) = (with_runtime (forget s.progress) seen, x, λ b m. m)
  recovery s (interrupted seen r h new fit x) =
      let p = with_runtime (forget s.progress) seen in
      (
        apply_record rt exact_filter p (read_record rt r),
        x,
        (apply_record-Applied rt ord p (read_record rt r) fit new.inside).kept,
      )

  -- A step leaves the store safe, and its blocks scanned.
  IsNext : Store F → Store F → Type 0
  IsNext s t =
      IsSafe rt ord headers records t
      × ((b : ℕ)
          → covers s.progress.filter.intervals b ≡ true
          → covers t.progress.filter.intervals b ≡ true)

  crash-IsNext :
      (s : Store F) → IsSafe rt ord headers records s → IsNext s (step rt headers records s crash)
  unfolding step IsNext
  crash-IsNext s safe =
      let (p, x, kept) = recovery s safe in
      subst (λ m. IsNext s (open_again rt headers records s m)) (sym x.replayed)
        (
          running refl x.durable,
          λ b m. subst (λ q. covers q.filter b ≡ true) (sym x.same) (kept b m),
        )

  step-IsNext :
      (s : Store F) (c : Call F)
      → IsSafe rt ord headers records s
      → IsReadableCall rt headers records s c
      → IsNext s (step rt headers records s c)
  unfolding step IsNext
  step-IsNext s (persist runtime now io compaction) safe readable =
      let x =
        persist_runtime-IsStep rt ord headers records good_headers good_records s runtime now io
          compaction safe readable in
      (x.safe, x.kept)
  step-IsNext s (complete index runtime now io inner compaction) safe readable =
      let x =
        complete_block-IsStep rt ord headers records good_headers good_records s index runtime now
          io inner compaction safe readable in
      (x.safe, x.kept)
  step-IsNext s (shut_down now io) safe settled =
      let x =
        compact-IsStep rt ord headers records good_headers good_records s now io safe settled in
      (x.safe, x.kept)
  step-IsNext s crash safe readable = crash-IsNext s safe

  run-IsNext :
      (s : Store F) (cs : List (Call F))
      → IsSafe rt ord headers records s
      → AreReadable rt headers records s cs
      → IsNext s (run rt headers records s cs)
  unfolding run IsNext
  run-IsNext s [] safe readable = (safe, λ b m. m)
  run-IsNext s (c ∷ cs) safe readable =
      let one = step-IsNext s c safe readable.0 in
      let rest = run-IsNext (step rt headers records s c) cs one.0 readable.1 in
      (rest.0, λ b m. rest.1 b (one.1 b m))

-- From a safe store, every run of its calls, with any of the modelled outcomes of the file system in them
-- and crashes between them, ends in a safe store, if what each runtime is read back as is a duration that
-- does not fall below the one the files hold: a running store has its progress on disk, and the files of a
-- poisoned one open with the progress that it shows or with the one interrupted record more, in both cases
-- up to the runtime, which is what the JSON of runtimes reads back as.
pub run-IsSafe :
    {F : Type 0} (rt : Runtime F) (ord : IsOrdered rt) (headers : Codec JournalHeader)
    (records : Codec (JournalRecord F)) (good_headers : IsExactCodec headers)
    (good_records : IsRecordCodec rt records) (s : Store F) (cs : List (Call F))
    → IsSafe rt ord headers records s
    → AreReadable rt headers records s cs
    → IsSafe rt ord headers records (run rt headers records s cs)
unfolding IsNext
run-IsSafe rt ord headers records good_headers good_records s cs safe readable =
    (run-IsNext rt ord headers records good_headers good_records s cs safe readable).0

-- A block that a safe store shows as scanned is scanned after every run of its calls, with any of the
-- modelled outcomes of the file system in them and crashes between them, if what each runtime is read back
-- as is a duration that does not fall below the one the files hold.
pub run-covers :
    {F : Type 0} (rt : Runtime F) (ord : IsOrdered rt) (headers : Codec JournalHeader)
    (records : Codec (JournalRecord F)) (good_headers : IsExactCodec headers)
    (good_records : IsRecordCodec rt records) (s : Store F) (cs : List (Call F)) (b : ℕ)
    → IsSafe rt ord headers records s
    → AreReadable rt headers records s cs
    → covers s.progress.filter.intervals b ≡ true
    → covers (run rt headers records s cs).progress.filter.intervals b ≡ true
unfolding IsNext
run-covers rt ord headers records good_headers good_records s cs b safe readable scanned =
    (run-IsNext rt ord headers records good_headers good_records s cs safe readable).1 b scanned
