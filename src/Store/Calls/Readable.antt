-- ===== src/Store/Calls/Readable.antt =====
-- The runtimes that src/search/store.rs writes: when what the JSON of one reads back as does not fall
-- below the runtime that the files hold already, so that the files open again.
use puzzle71_solver.Prelude.{ℕ, ◌≡◌, ◌∙◌, ap, subst, sym, true, false, List}
use puzzle71_solver.Prelude.Results.{Result, ok, err}
use puzzle71_solver.Search.DuplicateFilter.{DuplicateFilter}
use puzzle71_solver.Store.{
  Runtime, IsOrdered, JournalRecord, Progress, StoreError, duplicate_filter,
}
use puzzle71_solver.Store.Line.{Codec, IsExactCodec, IsRecordCodec}
use puzzle71_solver.Store.Journal.{JournalHeader, replay_and_repair_tail}
use puzzle71_solver.Store.Calls.{Store}
use puzzle71_solver.Store.Calls.Durable.{IsDurable, IsDurable-Recovers, real_base}

abbrev runtime_of : {F : Type 0} → F → Result (Progress DuplicateFilter F × List ℕ) StoreError → F
runtime_of other (ok (p, _)) = p.total_runtime_secs
runtime_of other (err _) = other

module _ {F : Type 0} (rt : Runtime F) (headers : Codec JournalHeader)
    (records : Codec (JournalRecord F)) where
  -- The runtime that the files of the store open with.
  unfoldable pub disk_runtime : Store F → F
  disk_runtime s =
      runtime_of s.progress.total_runtime_secs
        (replay_and_repair_tail rt duplicate_filter headers records true (real_base s) s.journal)

  -- What the JSON of a runtime reads back as is a duration, and not below another.
  abbrev pub IsAbove : F → F → Type 0
  IsAbove low runtime =
      (rt.is_duration (rt.stored runtime) ≡ true) × (rt.less (rt.stored runtime) low ≡ false)

  -- Unless the store is poisoned, the read-back of this runtime is a duration, and not below the runtime of
  -- the files.
  abbrev pub IsReadable : Store F → F → Type 0
  IsReadable s runtime = s.poisoned ≡ false → IsAbove (disk_runtime s) runtime

  -- So for the runtime of the store, which a compaction writes.
  abbrev pub IsSettled : Store F → Type 0
  IsSettled s = IsReadable s s.progress.total_runtime_secs

module _ {F : Type 0} (rt : Runtime F) (ord : IsOrdered rt) (headers : Codec JournalHeader)
    (records : Codec (JournalRecord F)) (good_headers : IsExactCodec headers)
    (good_records : IsRecordCodec rt records) where
  disk_runtime-seen :
      (s : Store F) (d : IsDurable rt ord headers records s)
      → disk_runtime rt headers records s ≡ d.seen
  unfolding disk_runtime
  disk_runtime-seen s d =
      let x = IsDurable-Recovers rt ord headers records good_headers good_records s d in
      ap (runtime_of s.progress.total_runtime_secs) x.replayed
      ∙ ap (λ p. p.total_runtime_secs) x.same

  pub IsReadable-IsAbove :
      (s : Store F) (d : IsDurable rt ord headers records s) (runtime : F)
      → s.poisoned ≡ false
      → IsReadable rt headers records s runtime
      → IsAbove rt headers records d.seen runtime
  IsReadable-IsAbove s d runtime healthy h =
      subst (λ x. IsAbove rt headers records x runtime) (disk_runtime-seen s d) (h healthy)

  pub IsAbove-IsReadable :
      (s : Store F) (d : IsDurable rt ord headers records s) (runtime : F)
      → IsAbove rt headers records d.seen runtime
      → IsReadable rt headers records s runtime
  IsAbove-IsReadable s d runtime h healthy =
      subst (λ x. IsAbove rt headers records x runtime) (sym (disk_runtime-seen s d)) h
