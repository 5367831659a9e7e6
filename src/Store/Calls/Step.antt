-- ===== src/Store/Calls/Step.antt =====
-- What a step of the store of src/search/store.rs keeps, how steps are chained, and the compactions as
-- steps.
use puzzle71_solver.Prelude.{
  ℕ, ◌≡◌, inl, inr, refl, sym, subst, Bool, true, false, if◌then◌else◌, Bool-cases, arith,
}
use puzzle71_solver.Prelude.Results.{Result, ok, err}
use puzzle71_solver.Search.IntervalSet.{covers}
use puzzle71_solver.Store.{Runtime, IsOrdered, JournalRecord, StoreError, poisoned_store, io_failed}
use puzzle71_solver.Store.Line.{Codec, IsExactCodec, IsRecordCodec}
use puzzle71_solver.Store.Journal.{JournalHeader}
use puzzle71_solver.Store.Calls.{
  Store, Outcome, CompactIo, not_due, size_unknown, save_failed, unsafe_after_save, compacted,
  truncate_failed, header_failed, and_then, ensure, compact_steps, maybe_compact, compact,
  header_of,
}
use puzzle71_solver.Store.Calls.Durable.{IsDurable, IsDurable-Recovers}
use puzzle71_solver.Store.Calls.Readable.{
  IsAbove, IsSettled, IsReadable-IsAbove, IsAbove-IsReadable,
}
use puzzle71_solver.Store.Calls.Compact.{
  with_journal, kept-IsAbove, stale-IsDurable, emptied-IsDurable, cut-Recovers,
}
use puzzle71_solver.Store.Calls.Safe.{IsSafe, running, stopped, IsSafe-running}

module _ {F : Type 0} (rt : Runtime F) (ord : IsOrdered rt) (headers : Codec JournalHeader)
    (records : Codec (JournalRecord F)) where
  -- A call that takes the store to this outcome leaves it safe, and forgets no block; after a success its
  -- runtime can be written again.
  pub record IsStep (s : Store F) (o : Outcome F) : Type 0 where
    pub safe : IsSafe rt ord headers records o.0
    pub kept :
        (b : ℕ)
        → covers s.progress.filter.intervals b ≡ true
        → covers o.0.progress.filter.intervals b ≡ true
    pub settled : o.1 ≡ ok tt → IsSettled rt headers records o.0

  pub stay :
      (s : Store F) (r : Result (Unit {0}) StoreError)
      → IsSafe rt ord headers records s
      → (r ≡ ok tt → IsSettled rt headers records s)
      → IsStep s (s, r)
  stay s r safe settled = record { safe = safe; kept = λ b h. h; settled = settled }

  pub refused :
      (s : Store F) (e : StoreError) → IsSafe rt ord headers records s → IsStep s (s, err e)
  refused s e safe = stay s (err e) safe (λ h. absurd (ground arith))

  pub ensure-IsStep :
      (s : Store F) (r : Result (Unit {0}) StoreError) (next : Store F → Outcome F)
      → IsSafe rt ord headers records s
      → (r ≡ ok tt → IsStep s (next s))
      → IsStep s (ensure s r next)
  ensure-IsStep s (ok _) next safe rest = rest refl
  ensure-IsStep s (err e) next safe rest = refused s e safe

  pub and_then-IsStep :
      (s : Store F) (o : Outcome F) (next : Store F → Outcome F)
      → IsStep s o
      → ((t : Store F)
          → IsSafe rt ord headers records t
          → IsSettled rt headers records t
          → IsStep t (next t))
      → IsStep s (and_then o next)
  and_then-IsStep s (t, ok _) next one rest =
      let two = rest t one.safe (one.settled refl) in
      record { safe = two.safe; kept = λ b h. two.kept b (one.kept b h); settled = two.settled }
  and_then-IsStep s (t, err e) next one rest = one

module _ {F : Type 0} (rt : Runtime F) (ord : IsOrdered rt) (headers : Codec JournalHeader)
    (records : Codec (JournalRecord F)) (good_headers : IsExactCodec headers)
    (good_records : IsRecordCodec rt records) where
  -- A durable store stays safe when it is poisoned.
  pub poison-IsSafe :
      (s : Store F)
      → IsDurable rt ord headers records s
      → IsSafe rt ord headers records (record s { poisoned = true })
  poison-IsSafe s d =
      let x = IsDurable-Recovers rt ord headers records good_headers good_records s d in
      stopped d.seen refl (record {
        opened = x.opened;
        repaired = x.repaired;
        replayed = x.replayed;
        same = x.same;
        durable = x.durable;
      })

  module _ (s : Store F) (now : ℕ) (h : s.poisoned ≡ false) (d : IsDurable rt ord headers records s)
      (settled : IsSettled rt headers records s) where
    above : IsAbove rt headers records d.seen s.progress.total_runtime_secs
    above =
        IsReadable-IsAbove rt ord headers records good_headers good_records s d
          s.progress.total_runtime_secs h settled

    compact_steps-IsStep :
        (io : CompactIo)
        → IsStep rt ord headers records s (compact_steps rt headers records s now io)
    unfolding compact_steps
    compact_steps-IsStep not_due =
        stay rt ord headers records s (ok tt) (running h d) (λ _. settled)
    compact_steps-IsStep size_unknown = refused rt ord headers records s io_failed (running h d)
    compact_steps-IsStep save_failed = refused rt ord headers records s io_failed (running h d)
    compact_steps-IsStep unsafe_after_save = record {
      safe = running h (stale-IsDurable rt ord headers records s now d above);
      kept = λ b m. m;
      settled = λ k. absurd (ground arith);
    }
    compact_steps-IsStep compacted =
        let (e, same) = emptied-IsDurable rt ord headers records s now d above in
        record {
          safe = running h e;
          kept = λ b m. m;
          settled = λ _.
              IsAbove-IsReadable rt ord headers records good_headers good_records
                (with_journal rt ord headers records s now d above (header_of rt headers records s))
                e s.progress.total_runtime_secs
                (kept-IsAbove rt ord headers records s now d above e.seen same);
        }
    compact_steps-IsStep (header_failed n) = record {
      safe =
          stopped (rt.stored s.progress.total_runtime_secs) refl
            (cut-Recovers rt ord headers records s now d above n good_headers good_records);
      kept = λ b m. m;
      settled = λ k. absurd (ground arith);
    }
    compact_steps-IsStep (truncate_failed true) = record {
      safe =
          stopped (rt.stored s.progress.total_runtime_secs) refl
            (cut-Recovers rt ord headers records s now d above 0 good_headers good_records);
      kept = λ b m. m;
      settled = λ k. absurd (ground arith);
    }
    compact_steps-IsStep (truncate_failed false) = record {
      safe = poison-IsSafe _ (stale-IsDurable rt ord headers records s now d above);
      kept = λ b m. m;
      settled = λ k. absurd (ground arith);
    }

  pub compact-IsStep :
      (s : Store F) (now : ℕ) (io : CompactIo)
      → IsSafe rt ord headers records s
      → IsSettled rt headers records s
      → IsStep rt ord headers records s (compact rt headers records s now io)
  unfolding compact
  compact-IsStep s now io safe settled =
      let chosen : Bool → Type 0 = λ b.
        IsStep rt ord headers records s
          (if b then (s, err poisoned_store) else compact_steps rt headers records s now io) in
      elim (Bool-cases s.poisoned) [
        | inl h ↦ subst chosen (sym h) (refused rt ord headers records s poisoned_store safe)
        | inr h ↦ subst chosen (sym h) (
            compact_steps-IsStep s now h (IsSafe-running rt ord headers records s safe h) settled
              io)
      ]

  pub maybe_compact-IsStep :
      (s : Store F) (now : ℕ) (io : CompactIo)
      → IsSafe rt ord headers records s
      → IsSettled rt headers records s
      → IsStep rt ord headers records s (maybe_compact rt headers records s now io)
  unfolding maybe_compact compact
  maybe_compact-IsStep s now not_due safe settled =
      stay rt ord headers records s (ok tt) safe (λ _. settled)
  maybe_compact-IsStep s now size_unknown safe settled =
      refused rt ord headers records s io_failed safe
  maybe_compact-IsStep s now save_failed safe settled =
      compact-IsStep s now save_failed safe settled
  maybe_compact-IsStep s now unsafe_after_save safe settled =
      compact-IsStep s now unsafe_after_save safe settled
  maybe_compact-IsStep s now compacted safe settled = compact-IsStep s now compacted safe settled
  maybe_compact-IsStep s now (truncate_failed e) safe settled =
      compact-IsStep s now (truncate_failed e) safe settled
  maybe_compact-IsStep s now (header_failed n) safe settled =
      compact-IsStep s now (header_failed n) safe settled
