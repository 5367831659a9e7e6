-- ===== src/Store/Calls/Cursor.antt =====
-- What a new record does to the cursor of src/search/store.rs and to the file of its journal.
use puzzle71_solver.Prelude.{
  ℕ, zero, suc, ◌≡◌, ◌⊎◌, inl, inr, refl, ap, Bool, true, false, ◌==◌, Bool-cases, arith, Option,
  none, some, List, [], ◌∷◌, ◌++◌, take, has,
}
use puzzle71_solver.Store.{RecheckState, JournalRecord, advance_recheck, previous_of, prior_ordinal}
use puzzle71_solver.Store.Line.{Codec, IsCodec, newline, encode_line, line_body, line_body-has}
use puzzle71_solver.Store.Scope.{HasScope}
use puzzle71_solver.Store.Calls.{resume_scope}
use puzzle71_solver.Store.Calls.Durable.{IsAnchored, IsBehind, prev_after}

take-none : (n : ℕ) → take {A = ℕ} n [] ≡ []
take-none zero = refl
take-none (suc n) = refl

-- A part of a line ends before its newline, or is the line.
take_before :
    (n : ℕ) (l : List ℕ)
    → has newline l ≡ false
    → (has newline (take n (l ++ newline ∷ [])) ≡ false)
      ⊎ (take n (l ++ newline ∷ []) ≡ l ++ newline ∷ [])
take_before zero l h = inl refl
take_before (suc n) [] h = inr (ap (λ m. newline ∷ m) (take-none n))
take_before (suc n) (b ∷ l) h = elim (take_before n l (ground arith)) [
  | inl x ↦ inl (ground arith)
  | inr x ↦ inr (ap (λ m. b ∷ m) x)
]

pub take-encode_line :
    {V : Type 0} {writable : V → Bool} {read : V → V} (c : Codec V) (v : V) (n : ℕ)
    → IsCodec c writable read
    → (has newline (take n (encode_line c v)) ≡ false)
      ⊎ (take n (encode_line c v) ≡ encode_line c v)
unfolding encode_line
take-encode_line c v n good = take_before n (line_body c v) (line_body-has c v good)

-- The cursor that the snapshot is read with does not depend on the ordinals since.
pub resume_scope-advance :
    (scope : Option RecheckState) (ordinal completed : Option ℕ)
    → IsAnchored scope completed
    → resume_scope (advance_recheck scope ordinal) completed ≡ resume_scope scope completed
unfolding advance_recheck
resume_scope-advance scope none completed a = refl
resume_scope-advance none (some o) completed a = refl
resume_scope-advance (some r) (some o) (some c) a = elim (Bool-cases (o == r.completed)) [
  | inl h ↦ rw h refl
  | inr h ↦ rw h refl
]
resume_scope-advance (some r) (some o) none a = elim a [ ]

pub advance-IsAnchored :
    (scope : Option RecheckState) (ordinal completed : Option ℕ)
    → IsAnchored scope completed
    → IsAnchored (advance_recheck scope ordinal) completed
unfolding advance_recheck
advance-IsAnchored scope none completed a = a
advance-IsAnchored none (some o) completed a = a
advance-IsAnchored (some r) (some o) (some c) a = tt
advance-IsAnchored (some r) (some o) none a = elim a [ ]

pub advance-HasScope :
    (scope : Option RecheckState) (ordinal : Option ℕ)
    → HasScope scope
    → HasScope (advance_recheck scope ordinal)
unfolding advance_recheck
advance-HasScope scope none s = s
advance-HasScope none (some o) s = tt
advance-HasScope (some r) (some o) s = elim (Bool-cases (o == r.completed)) [
  | inl h ↦ rw h (record { bounded = s.bounded; fits = s.fits })
  | inr h ↦ rw h s
]

-- The ordinal of a new record is the cursor.
abbrev pub IsNextOrdinal : Option RecheckState → Option ℕ → Type 0
IsNextOrdinal scope none = Unit
IsNextOrdinal none (some o) = ⊥
IsNextOrdinal (some r) (some o) = o ≡ r.completed

pub advance-IsBehind :
    (scope : Option RecheckState) (prior ordinal : Option ℕ)
    → IsNextOrdinal scope ordinal
    → IsBehind prior scope
    → IsBehind (prior_ordinal prior ordinal) (advance_recheck scope ordinal)
unfolding advance_recheck
advance-IsBehind scope prior none next behind = behind
advance-IsBehind none prior (some o) next behind = elim next [ ]
advance-IsBehind (some r) prior (some o) next behind =
    let here : (o == r.completed) ≡ true = ground (arith, next) in rw here (omega (arith, next))

pub prev_after-append :
    {F : Type 0} (prev : Option F × Option ℕ) (rs : List (JournalRecord F)) (r : JournalRecord F)
    → prev_after prev (rs ++ r ∷ []) ≡ previous_of (prev_after prev rs) r
prev_after-append prev [] r = refl
prev_after-append prev (x ∷ rs) r = prev_after-append (previous_of prev x) rs r
