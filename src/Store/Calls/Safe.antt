-- ===== src/Store/Calls/Safe.antt =====
-- When the files and the progress of the store of src/search/store.rs fit, running or poisoned, and the
-- records that its calls write.
use puzzle71_solver.Prelude.{
  ℕ, ◌/◌, ◌^◌, ◌<◌, ◌≡◌, inl, inr, ◌∙◌, refl, ap, sym, true, false, not, ◌||◌, ltb, ◌==◌,
  Bool-cases, Option-cases, arith, Option, none, some,
}
use puzzle71_solver.Prelude.Results.{ok, err_if, err_if-ok}
use puzzle71_solver.PuzzleConfig.{range_size}
use puzzle71_solver.Search.DuplicateFilter.{DuplicateFilter, is_scanned}
use puzzle71_solver.Search.Recheck.{block_at}
use puzzle71_solver.Store.{
  Runtime, IsOrdered, RecheckState, JournalRecord, Progress, duplicate_filter, exact_filter,
  apply_record, apply_runtime, advance_recheck, mark_block, check_ordinal, next_of, is_some,
  next_recheck_block, same_option, follows, ordinal_ok, runtime_invalid, outside_range,
  not_next_block,
}
use puzzle71_solver.Store.Refine.{forget}
use puzzle71_solver.Store.Line.{Codec, read_record}
use puzzle71_solver.Store.Journal.{JournalHeader}
use puzzle71_solver.Store.Absorb.{IsFit}
use puzzle71_solver.Store.Scope.{HasScope, IsScope}
use puzzle71_solver.Store.Calls.{
  Store, validate_runtime, runtime_record, block_record, bump, show_block, expects, next_ordinal,
}
use puzzle71_solver.Store.Calls.Durable.{with_runtime, IsDurable, IsBehind, Recovers}
use puzzle71_solver.Store.Calls.Readable.{IsAbove}
use puzzle71_solver.Store.Calls.Append.{IsNew}
use puzzle71_solver.Store.Calls.Cursor.{IsNextOrdinal}

follows-IsBehind :
    (prior : Option ℕ) (r : RecheckState)
    → IsBehind prior (some r)
    → r.completed < 2 ^ 64
    → follows prior r.completed ≡ true
follows-IsBehind none r behind small = refl
follows-IsBehind (some o) r behind small = ground (arith, behind)

cursor-IsAccepted :
    (r : RecheckState) (prior : Option ℕ) (b index : ℕ)
    → IsScope r
    → block_at r.plan r.completed ≡ some b
    → (index == b) ≡ true
    → IsBehind prior (some r)
    → ordinal_ok r prior r.completed (some index) ≡ true
cursor-IsAccepted r prior b index scoped e expected behind =
    let inside : true ≡ ltb r.completed r.identity.total_blocks =
      ap is_some (sym e) ∙ scoped.bounded r.completed in
    let same : same_option (block_at r.plan r.completed) (some index) ≡ true =
      rw e (ground arith) in
    ground
      (arith, same, inside, follows-IsBehind prior r behind (ground (arith, inside, scoped.fits)))

-- The ordinal of a completed block is accepted, and is the cursor.
next_ordinal-lem :
    (scope : Option RecheckState) (index : ℕ)
    → HasScope scope
    → expects (next_of scope) index ≡ true
    → IsNextOrdinal scope (next_ordinal scope)
      × ((prior : Option ℕ)
          → IsBehind prior scope
          → check_ordinal scope prior (next_ordinal scope) (some index) ≡ ok tt)
unfolding check_ordinal
next_ordinal-lem none index scoped expected = (tt, λ prior behind. refl)
next_ordinal-lem (some r) index scoped expected =
    elim (Option-cases (block_at r.plan r.completed)) [
      | inl e ↦ rw e (tt, λ prior behind. rw e refl)
      | inr (b, e) ↦ rw e (
        refl,
        λ prior behind.
            rw
              (cursor-IsAccepted r prior b index scoped e
                (ap (λ o. expects o index) (sym e) ∙ expected) behind)
              refl,
      )
    ]

module _ {F : Type 0} (rt : Runtime F) (ord : IsOrdered rt) (headers : Codec JournalHeader)
    (records : Codec (JournalRecord F)) where
  -- A running store has its progress on disk. A poisoned one is opened again with the progress that it
  -- shows, or with that and the one record whose write was interrupted. The runtime on disk, `seen`, is what
  -- the JSON of runtimes reads back as.
  pub data IsSafe (s : Store F) : Type 0 where
    running : s.poisoned ≡ false → IsDurable rt ord headers records s → IsSafe s
    stopped :
        (seen : F)
        → s.poisoned ≡ true
        → Recovers rt ord headers records s (with_runtime (forget s.progress) seen)
        → IsSafe s
    interrupted :
        (seen : F) (r : JournalRecord F)
        → s.poisoned ≡ true
        → IsNew rt ord headers records (with_runtime s.progress seen) (read_record rt r)
        → IsFit rt ord (with_runtime (forget s.progress) seen)
        → Recovers rt ord headers records s (
            apply_record rt exact_filter (with_runtime (forget s.progress) seen) (read_record rt r))
        → IsSafe s

  pub IsSafe-running :
      (s : Store F) → IsSafe s → s.poisoned ≡ false → IsDurable rt ord headers records s
  IsSafe-running s (running h d) healthy = d
  IsSafe-running s (stopped seen h x) healthy = absurd (ground arith)
  IsSafe-running s (interrupted seen r h n fit x) healthy = absurd (ground arith)

  pub validate_runtime-ok :
      (p : Progress DuplicateFilter F) (runtime : F)
      → validate_runtime rt headers records p runtime ≡ ok tt
      → (rt.is_duration runtime ≡ true) × (rt.less runtime p.total_runtime_secs ≡ false)
  validate_runtime-ok p runtime h =
      let fine =
        err_if-ok (not (rt.is_duration runtime) || rt.less runtime p.total_runtime_secs)
          runtime_invalid h in
      (ground arith, ground arith)

  pub runtime_record-IsNew :
      (p : Progress DuplicateFilter F) (seen runtime : F) (now : ℕ)
      → IsAbove rt headers records seen runtime
      → IsNew rt ord headers records
          (with_runtime p seen)
          (read_record rt (runtime_record rt headers records p runtime now))
  unfolding check_ordinal
  runtime_record-IsNew p seen runtime now above = record {
    duration = above.0;
    monotone = above.1;
    next = tt;
    ordinal = λ prior behind. refl;
    inside = refl;
  }

  block_record-IsNew :
      (p : Progress DuplicateFilter F) (index : ℕ) (seen runtime : F) (now : ℕ)
      → HasScope p.recheck
      → IsAbove rt headers records seen runtime
      → ltb index (range_size / p.block_size) ≡ true
      → expects (next_recheck_block p) index ≡ true
      → IsNew rt ord headers records
          (with_runtime p seen)
          (read_record rt (block_record rt headers records p index runtime now))
  unfolding next_recheck_block
  block_record-IsNew p index seen runtime now scoped above inside expected =
      let (next, accepted) = next_ordinal-lem p.recheck index scoped expected in
      record {
        duration = above.0;
        monotone = above.1;
        next = next;
        ordinal = accepted;
        inside = inside;
      }

  bump-advance :
      (scope : Option RecheckState) (o : Option ℕ)
      → IsNextOrdinal scope o
      → bump rt headers records scope o ≡ advance_recheck scope o
  unfolding advance_recheck
  bump-advance none none next = refl
  bump-advance (some r) none next = refl
  bump-advance none (some o) next = elim next [ ]
  bump-advance (some r) (some o) next =
      let here : (o == r.completed) ≡ true = ground (arith, next) in rw here refl

  mark_block-recheck :
      (p : Progress DuplicateFilter F) (index : ℕ) (scope : Option RecheckState)
      → mark_block rt duplicate_filter (record p { recheck = scope }) (some index)
        ≡ record (mark_block rt duplicate_filter p (some index)) { recheck = scope }
  unfolding mark_block
  mark_block-recheck p index scope = elim (Bool-cases (is_scanned p.filter index)) [
    | inl h ↦ rw h refl
    | inr h ↦ rw h refl
  ]

  -- What the code shows of a completed block is what the replay does of its record.
  pub show_block-apply_record :
      (s : Store F) (index : ℕ) (r : JournalRecord F)
      → r.completed_block ≡ some index
      → IsNextOrdinal s.progress.recheck r.recheck_ordinal
      → (show_block rt headers records s index r).0
        ≡ record s { progress = apply_record rt duplicate_filter s.progress r }
  unfolding show_block apply_record
  show_block-apply_record s index r block next =
      let p = s.progress in
      let advanced = record p { recheck = advance_recheck p.recheck r.recheck_ordinal } in
      let same : bump rt headers records (mark_block rt duplicate_filter p (some index)).recheck
            r.recheck_ordinal
          ≡ advanced.recheck =
        ap (λ q. bump rt headers records q.recheck r.recheck_ordinal)
          (mark_block-recheck p index p.recheck)
        ∙ bump-advance p.recheck r.recheck_ordinal next in
      ap (λ q. record s { progress = apply_runtime rt duplicate_filter q r })
        (ap (λ o. record (mark_block rt duplicate_filter p (some index)) { recheck = o }) same
          ∙ sym (mark_block-recheck p index advanced.recheck)
          ∙ ap (mark_block rt duplicate_filter advanced) (sym block))

  -- The record of a completed block that has passed the tests of the call.
  pub complete_block-IsNew :
      (s : Store F) (index : ℕ) (runtime : F) (now : ℕ) (d : IsDurable rt ord headers records s)
      → IsAbove rt headers records d.seen runtime
      → err_if (not (ltb index (range_size / s.progress.block_size))) outside_range ≡ ok tt
      → err_if (not (expects (next_recheck_block s.progress) index)) not_next_block ≡ ok tt
      → IsNew rt ord headers records
          (with_runtime s.progress d.seen)
          (read_record rt (block_record rt headers records s.progress index runtime now))
  complete_block-IsNew s index runtime now d above inside expected =
      let inside' =
        err_if-ok (not (ltb index (range_size / s.progress.block_size))) outside_range inside in
      let expected' =
        err_if-ok (not (expects (next_recheck_block s.progress) index)) not_next_block expected in
      block_record-IsNew s.progress index d.seen runtime now d.leads.scoped above (ground arith)
        (ground arith)
