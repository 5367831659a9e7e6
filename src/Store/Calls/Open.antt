-- ===== src/Store/Calls/Open.antt =====
-- The store that src/search/store.rs opens on a snapshot when the journal is new: its header is written.
use puzzle71_solver.Prelude.{ℕ, ◌≡◌, ◌∙◌, refl, ap, sym, subst, false, Option, none, some, []}
use mathlib.Core.List.{append-nil}
use puzzle71_solver.Prelude.Results.{ok}
use puzzle71_solver.Search.DuplicateFilter.{from_intervals, from_intervals-is_scanned}
use puzzle71_solver.Store.{
  Runtime, IsOrdered, RecheckState, JournalRecord, duplicate_filter, exact_filter, replay,
}
use puzzle71_solver.Store.Refine.{forget}
use puzzle71_solver.Store.Line.{Codec, IsExactCodec, IsRecordCodec, encode_line}
use puzzle71_solver.Store.Journal.{JournalHeader, for_scope}
use puzzle71_solver.Store.Absorb.{IsFit}
use puzzle71_solver.Store.Scope.{HasScope}
use puzzle71_solver.Store.Calls.{Store, Snapshot, resume, resume_scope}
use puzzle71_solver.Store.Calls.Durable.{IsAnchored, IsDurable}
use puzzle71_solver.Store.Calls.Readable.{IsAbove, IsReadable, IsAbove-IsReadable}
use puzzle71_solver.Store.Calls.Safe.{IsSafe, running}

module _ {F : Type 0} (rt : Runtime F) (ord : IsOrdered rt) (headers : Codec JournalHeader)
    (records : Codec (JournalRecord F)) (file : Snapshot F) (block_size : ℕ)
    (scope : Option RecheckState) where
  -- `write_header` on an empty journal.
  unfoldable pub open_new : Store F
  open_new =
      let p = resume duplicate_filter file block_size scope in
      record {
        progress = p;
        journal = encode_line headers (for_scope p.block_size p.recheck);
        snapshot_file = file;
        poisoned = false;
      }

  resume_twice :
      (o : Option RecheckState) (c : Option ℕ)
      → resume_scope (resume_scope o c) c ≡ resume_scope o c
  resume_twice none c = refl
  resume_twice (some r) none = refl
  resume_twice (some r) (some k) = refl

  resume-IsAnchored :
      (o : Option RecheckState) (c : Option ℕ) → IsAnchored o c → IsAnchored (resume_scope o c) c
  resume-IsAnchored none c a = tt
  resume-IsAnchored (some r) none a = elim a [ ]
  resume-IsAnchored (some r) (some k) a = tt

  open_new-IsDurable :
      IsFit rt ord (resume exact_filter file block_size scope)
      → HasScope (resume_scope scope file.completed)
      → IsAnchored scope file.completed
      → (d : IsDurable rt ord headers records open_new) × (d.seen
          ≡ file.checkpoint.total_runtime_secs)
  unfolding open_new replay from_intervals
  open_new-IsDurable fit scoped anchored = (
    record {
      written = [];
      timed = tt;
      seen = file.checkpoint.total_runtime_secs;
      journal =
          ap (λ o. encode_line headers (for_scope block_size o))
            (sym (resume_twice scope file.completed))
          ∙ sym (append-nil _);
      leads = record {
        replays =
            ap (λ o. ok (record (forget open_new.progress) { recheck = o }))
              (resume_twice scope file.completed);
        reached = tt;
        behind = tt;
        scoped = scoped;
        anchored = resume-IsAnchored scope file.completed anchored;
        same_size = refl;
        same_scope = refl;
        fit = record { duration = fit.duration; separated = fit.separated; indexed = fit.indexed };
      };
      good = record {
        synced = (from_intervals-is_scanned file.checkpoint.scanned_intervals fit.separated).0;
        indexed = fit.indexed;
      };
    },
    refl,
  )

  -- A store that is opened with a new journal on a snapshot whose intervals are sorted and whose runtime is
  -- a duration, with the cursor of a snapshot of a recheck, is safe.
  pub open_new-IsSafe :
      IsFit rt ord (resume exact_filter file block_size scope)
      → HasScope (resume_scope scope file.completed)
      → IsAnchored scope file.completed
      → IsSafe rt ord headers records open_new
  unfolding open_new
  open_new-IsSafe fit scoped anchored = running refl (open_new-IsDurable fit scoped anchored).0

  -- Its files open with the runtime of the snapshot.
  pub open_new-IsReadable :
      IsExactCodec headers
      → IsRecordCodec rt records
      → IsFit rt ord (resume exact_filter file block_size scope)
      → HasScope (resume_scope scope file.completed)
      → IsAnchored scope file.completed
      → (runtime : F) → IsAbove rt headers records file.checkpoint.total_runtime_secs runtime
      → IsReadable rt headers records open_new runtime
  open_new-IsReadable good_headers good_records fit scoped anchored runtime above =
      let (d, same) = open_new-IsDurable fit scoped anchored in
      IsAbove-IsReadable rt ord headers records good_headers good_records open_new d runtime
        (subst (λ x. IsAbove rt headers records x runtime) (sym same) above)
