-- ===== src/Store/Order.antt =====
-- What the tests on a journal record of src/search/store.rs establish.
use puzzle71_solver.Prelude.{ℕ, ◌≡◌, refl, true, false, not, ◌||◌, arith, Option}
use puzzle71_solver.Prelude.Results.{ok, err_if, then-ok, err_if-ok}
use puzzle71_solver.Store.{
  Runtime, RecheckState, JournalRecord, runtime_invalid, outside_range, check_ordinal, check_record,
  decreases, in_range,
}

pub record IsAccepted {F : Type 0} (rt : Runtime F) (recheck : Option RecheckState) (block_size : ℕ)
    (prev : Option F × Option ℕ) (r : JournalRecord F) : Type 0 where
  pub duration : rt.is_duration r.total_runtime_secs ≡ true
  pub monotone : decreases rt prev.0 r.total_runtime_secs ≡ false
  pub ordinal : check_ordinal recheck prev.1 r.recheck_ordinal r.completed_block ≡ ok tt
  pub inside : in_range block_size r.completed_block ≡ true

module _ {F : Type 0} (rt : Runtime F) (recheck : Option RecheckState) (block_size : ℕ)
    (prev : Option F × Option ℕ) (r : JournalRecord F) where
  pub check_record-ok :
      check_record rt recheck block_size prev r ≡ ok tt → IsAccepted rt recheck block_size prev r
  unfolding check_record
  check_record-ok h =
      let timed =
        not (rt.is_duration r.total_runtime_secs) || decreases rt prev.0 r.total_runtime_secs in
      let one = then-ok (err_if timed runtime_invalid) _ h in
      let two =
        then-ok (check_ordinal recheck prev.1 r.recheck_ordinal r.completed_block) _ one.1 in
      let time : timed ≡ false = err_if-ok timed runtime_invalid one.0 in
      let last : not (in_range block_size r.completed_block) ≡ false =
        err_if-ok (not (in_range block_size r.completed_block)) outside_range two.1 in
      record {
        duration = ground arith;
        monotone = ground arith;
        ordinal = two.0;
        inside = ground arith;
      }

  pub check_record-accepts :
      IsAccepted rt recheck block_size prev r → check_record rt recheck block_size prev r ≡ ok tt
  unfolding check_record
  check_record-accepts a = rw (a.duration, a.monotone, a.ordinal, a.inside) refl
