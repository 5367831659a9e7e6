-- ===== src/Store/Calls/Compact.antt =====
-- The compaction of src/search/store.rs: the snapshot is replaced first, and the journal, whose records it
-- then includes, is emptied after it.
use puzzle71_solver.Prelude.{
  ℕ, ◌≡◌, inl, inr, ◌∙◌, refl, ap, sym, subst, true, arith, Option, none, some, List, [], take,
}
use mathlib.Core.List.{append-nil}
use puzzle71_solver.Prelude.Results.{ok}
use puzzle71_solver.Search.IntervalSet.{Interval}
use puzzle71_solver.Search.DuplicateFilter.{from_intervals}
use puzzle71_solver.Store.{
  Runtime, IsOrdered, RecheckState, JournalRecord, Progress, duplicate_filter, exact_filter, replay,
}
use puzzle71_solver.Store.Refine.{forget}
use puzzle71_solver.Store.Line.{Codec, IsExactCodec, IsRecordCodec, encode_line}
use puzzle71_solver.Store.Journal.{JournalHeader, for_scope, replay_and_repair_tail}
use puzzle71_solver.Store.Journal.Render.{render, reads, replay_and_repair_tail-torn_header}
use puzzle71_solver.Store.Absorb.{IsFit, Includes, replay-Includes, replay-absorbs_from}
use puzzle71_solver.Store.Scope.{IsLater-refl}
use puzzle71_solver.Store.Calls.{
  Store, resume, resume_scope, completed_of, saved, header_of, snapshot,
}
use puzzle71_solver.Store.Calls.Durable.{
  with_runtime, IsWritten, reopened, reopened-IsDurable, IsDurable, IsAnchored, IsReached, IsBehind,
  Recovers, base, real_base, real_base-IsGood, head, prev_after, render-Recovers,
}
use puzzle71_solver.Store.Calls.Readable.{IsAbove}
use puzzle71_solver.Store.Calls.Cursor.{take-encode_line}

resume_scope-completed_of :
    (scope : Option RecheckState) → resume_scope scope (completed_of scope) ≡ scope
resume_scope-completed_of none = refl
resume_scope-completed_of (some r) = refl

completed_of-IsAnchored : (scope : Option RecheckState) → IsAnchored scope (completed_of scope)
completed_of-IsAnchored none = tt
completed_of-IsAnchored (some r) = tt

for_scope-resume :
    (b : ℕ) (scope : Option RecheckState) (completed : Option ℕ)
    → for_scope b (resume_scope scope completed) ≡ for_scope b scope
unfolding for_scope
for_scope-resume b none completed = refl
for_scope-resume b (some r) none = refl
for_scope-resume b (some r) (some c) = refl

module _ {F : Type 0} (rt : Runtime F) (ord : IsOrdered rt) (headers : Codec JournalHeader)
    (records : Codec (JournalRecord F)) (s : Store F) (now : ℕ)
    (d : IsDurable rt ord headers records s)
    (settled : IsAbove rt headers records d.seen s.progress.total_runtime_secs) where
  -- The runtime that the new snapshot is read with.
  abbrev kept_runtime : F
  kept_runtime = rt.stored s.progress.total_runtime_secs

  -- The store with its snapshot replaced, and some journal.
  abbrev pub with_journal : List ℕ → Store F
  with_journal bytes = record (saved rt headers records s now) { journal = bytes }

  -- The progress that the store then has on disk.
  abbrev pub on_disk : Progress (List Interval) F
  on_disk = with_runtime (forget (with_journal []).progress) kept_runtime

  saved-base : (bytes : List ℕ) → base (with_journal bytes) ≡ on_disk
  unfolding snapshot
  saved-base bytes =
      ap (λ o. record on_disk { recheck = o }) (resume_scope-completed_of s.progress.recheck)

  before-IsFit : IsFit rt ord (with_runtime (forget s.progress) d.seen)
  before-IsFit =
      (replay-Includes rt ord (base s) (with_runtime (forget s.progress) d.seen) (none, none)
        (reads rt d.written) d.leads.fit d.leads.replays).0

  saved-IsFit : IsFit rt ord on_disk
  saved-IsFit = record {
    duration = settled.0;
    separated = before-IsFit.separated;
    indexed = before-IsFit.indexed;
  }

  saved-Includes : Includes rt ord on_disk (with_runtime (forget s.progress) d.seen)
  saved-Includes = record {
    size = refl;
    runtime = settled.1;
    saved = omega arith;
    blocks = λ b h. h;
    scope = IsLater-refl s.progress.recheck;
  }

  still-IsReached :
      (prior : Option F)
      → IsReached rt ord headers records prior d.seen
      → IsReached rt ord headers records prior kept_runtime
  still-IsReached none reached = tt
  still-IsReached (some q) reached = (
    reached.0,
    ord.less_trans q d.seen kept_runtime reached.0 before-IsFit.duration settled.0 reached.1
        settled.1,
  )

  saved-head :
      (bytes : List ℕ)
      → head rt ord headers records (with_journal bytes)
        ≡ for_scope s.progress.block_size s.progress.recheck
  saved-head bytes =
      for_scope-resume s.progress.block_size s.progress.recheck
        (with_journal bytes).snapshot_file.completed

  -- The records that lead from the new snapshot to the progress: those of the old journal, or none.
  saved-IsWritten :
      (c : Store F) (rs : List (JournalRecord F))
      → c.snapshot_file ≡ snapshot rt s.progress now
      → c.progress ≡ (with_journal []).progress
      → IsReached rt ord headers records (prev_after (none, none) rs).0 kept_runtime
      → IsBehind (prev_after (none, none) rs).1 s.progress.recheck
      → replay rt exact_filter on_disk (none, none) rs ≡ ok on_disk
      → IsWritten rt ord headers records c rs on_disk
  unfolding snapshot
  saved-IsWritten c rs file progress reached behind replays =
      let based : base c ≡ on_disk =
        ap (λ f. resume exact_filter f c.progress.block_size c.progress.recheck) file
        ∙ ap (λ p. resume exact_filter (snapshot rt s.progress now) p.block_size p.recheck) progress
        ∙ saved-base [] in
      record {
        replays = ap (λ p. replay rt exact_filter p (none, none) rs) based ∙ replays;
        reached = reached;
        behind = behind;
        scoped = d.leads.scoped;
        anchored =
            subst (λ f. IsAnchored s.progress.recheck f.completed) (sym file)
              (completed_of-IsAnchored s.progress.recheck);
        same_size = ap (λ p. p.block_size) (sym progress);
        same_scope =
            ap (λ f. resume_scope s.progress.recheck f.completed) file
            ∙ resume_scope-completed_of s.progress.recheck
            ∙ ap (λ p. p.recheck) (sym based);
        fit = subst (IsFit rt ord) (sym based) saved-IsFit;
      }

  pub kept-IsAbove :
      (low : F) → low ≡ kept_runtime → IsAbove rt headers records low s.progress.total_runtime_secs
  kept-IsAbove low same =
      subst (λ x. IsAbove rt headers records x s.progress.total_runtime_secs) (sym same)
        (settled.0, ord.less_irrefl kept_runtime)

  -- The journal is as before: its records change nothing.
  pub stale-IsDurable : IsDurable rt ord headers records (saved rt headers records s now)
  stale-IsDurable = record {
    written = d.written;
    timed = d.timed;
    seen = kept_runtime;
    journal =
        d.journal
        ∙ ap (λ h. render headers records h d.written)
            (for_scope-resume s.progress.block_size s.progress.recheck s.snapshot_file.completed
              ∙ sym (saved-head s.journal));
    leads =
        saved-IsWritten (saved rt headers records s now) (reads rt d.written) refl refl
          (still-IsReached (prev_after (none, none) (reads rt d.written)).0 d.leads.reached)
          d.leads.behind
          (replay-absorbs_from rt ord (base s) (with_runtime (forget s.progress) d.seen) on_disk
            (none, none) (reads rt d.written) d.leads.fit saved-IsFit d.leads.scoped d.leads.replays
            saved-Includes);
    good = record { synced = d.good.synced; indexed = d.good.indexed };
  }

  none-IsWritten :
      (c : Store F)
      → c.snapshot_file ≡ snapshot rt s.progress now
      → c.progress ≡ (with_journal []).progress
      → IsWritten rt ord headers records c [] on_disk
  unfolding replay
  none-IsWritten c file progress = saved-IsWritten c [] file progress tt tt refl

  -- The journal is its header alone.
  pub emptied-IsDurable :
      (e : IsDurable rt ord headers records (with_journal (header_of rt headers records s)))
      × (e.seen ≡ kept_runtime)
  emptied-IsDurable =
      let bytes = header_of rt headers records s in
      (
        record {
          written = [];
          timed = tt;
          seen = kept_runtime;
          journal = ap (λ h. encode_line headers h) (sym (saved-head bytes)) ∙ sym (append-nil _);
          leads = none-IsWritten (with_journal bytes) refl refl;
          good = record { synced = d.good.synced; indexed = d.good.indexed };
        },
        refl,
      )

  cut-same : (c : Store F) → base c ≡ on_disk → forget (real_base c) ≡ on_disk
  unfolding from_intervals
  cut-same c h = h

  -- The header is written in part.
  pub cut-Recovers :
      (n : ℕ)
      → IsExactCodec headers
      → IsRecordCodec rt records
      → let cut = record (with_journal (take n (header_of rt headers records s))) {
        poisoned = true;
      } in
        Recovers rt ord headers records cut on_disk
  cut-Recovers n good_headers good_records =
      let line = header_of rt headers records s in
      let cut = record (with_journal (take n line)) { poisoned = true } in
      let fit : IsFit rt ord (base cut) =
        subst (IsFit rt ord) (sym (saved-base (take n line))) saved-IsFit in
      let same : line ≡ encode_line headers (head rt ord headers records cut) =
        ap (encode_line headers) (sym (saved-head (take n line))) in
      elim (take-encode_line headers (head rt ord headers records cut) n good_headers) [
        | inl torn ↦ record {
          opened = real_base cut;
          repaired = encode_line headers (head rt ord headers records cut);
          replayed =
              ap
                (λ l.
                  replay_and_repair_tail rt duplicate_filter headers records true (real_base cut)
                    (take n l))
                same
              ∙ replay_and_repair_tail-torn_header rt duplicate_filter headers records good_headers
                  good_records (real_base cut) n torn;
          same = cut-same cut (saved-base (take n line));
          durable =
              subst
                (λ b.
                  IsDurable rt ord headers records
                    (reopened rt ord headers records cut (real_base cut) b))
                (append-nil _)
                (reopened-IsDurable rt ord headers records cut [] on_disk (real_base cut)
                  (none-IsWritten cut refl refl) tt
                  (real_base-IsGood rt ord headers records cut fit)
                  (cut-same cut (saved-base (take n line))));
        }
        | inr whole ↦
            render-Recovers rt ord headers records good_headers good_records cut [] [] on_disk
              (none-IsWritten cut refl refl) tt
              (ap (λ l. take n l) same ∙ whole ∙ sym (append-nil _) ∙ sym (append-nil _)) refl
      ]
