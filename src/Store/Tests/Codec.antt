-- ===== src/Store/Tests/Codec.antt =====
-- A codec that has what the store of src/search/store.rs relies on, for the tests: lists of numbers, each
-- ended by 11, with the numbers from 12 on.
use puzzle71_solver.Prelude.{
  ℕ, ◌+◌, ◌-◌, ◌*◌, ◌/◌, ◌≡◌, ◌∙◌, refl, ap, true, false, ◌==◌, if◌then◌else◌, arith, Option, none,
  some, List, [], ◌∷◌, has,
}
use puzzle71_solver.Store.{RecheckIdentity, JournalRecord}
use puzzle71_solver.Store.Line.{Codec, IsCodec, IsExactCodec, newline}
use puzzle71_solver.Store.Journal.{JournalHeader}

abbrev shift : List ℕ → List ℕ → List ℕ
shift [] rest = 11 ∷ rest
shift (x ∷ xs) rest = (12 + x) ∷ shift xs rest

abbrev lists : List (List ℕ) → List ℕ
lists [] = []
lists (xs ∷ xss) = shift xs (lists xss)

abbrev onto_first : ℕ → List (List ℕ) → List (List ℕ)
onto_first x [] = (x ∷ []) ∷ []
onto_first x (l ∷ ls) = (x ∷ l) ∷ ls

abbrev unlists : List ℕ → List (List ℕ)
unlists [] = []
unlists (x ∷ xs) = let rest = unlists xs in if x == 11 then [] ∷ rest else onto_first (x - 12) rest

unlists-shift : (xs rest : List ℕ) → unlists (shift xs rest) ≡ xs ∷ unlists rest
unlists-shift [] rest = refl
unlists-shift (x ∷ xs) rest =
    let other : (12 + x == 11) ≡ false = ground arith in
    let back : 12 + x - 12 ≡ x = omega arith in rw (other, back, unlists-shift xs rest) refl

unlists-lists : (xss : List (List ℕ)) → unlists (lists xss) ≡ xss
unlists-lists [] = refl
unlists-lists (xs ∷ xss) = unlists-shift xs (lists xss) ∙ ap (λ r. xs ∷ r) (unlists-lists xss)

shift-has : (xs rest : List ℕ) → has newline rest ≡ false → has newline (shift xs rest) ≡ false
shift-has [] rest h = h
shift-has (x ∷ xs) rest h = ground (arith, shift-has xs rest h)

lists-has : (xss : List (List ℕ)) → has newline (lists xss) ≡ false
lists-has [] = refl
lists-has (xs ∷ xss) = shift-has xs (lists xss) (lists-has xss)

abbrev from_header : JournalHeader → List (List ℕ)
from_header h =
    let front : List (List ℕ) → List (List ℕ) =
      λ rest. (h.format ∷ h.puzzle_number ∷ []) ∷ h.range_min ∷ h.range_max ∷ h.block_size ∷ rest in
    elim h.recheck [
      | none ↦ front []
      | some i ↦ front (
          (i.total_blocks ∷ i.puzzle_number ∷ [])
          ∷ i.source_sha256
          ∷ i.range_min
          ∷ i.range_max
          ∷ i.block_size
          ∷ i.target_hash160
          ∷ i.kernel_sha256
          ∷ [])
    ]

abbrev to_header : List (List ℕ) → Option JournalHeader
to_header ((f ∷ p ∷ []) ∷ lo ∷ hi ∷ b ∷ []) = some (record {
  format = f;
  puzzle_number = p;
  range_min = lo;
  range_max = hi;
  block_size = b;
  recheck = none;
})
to_header ((f ∷ p ∷ []) ∷ lo ∷ hi ∷ b ∷ (t ∷ n ∷ []) ∷ s ∷ lo' ∷ hi' ∷ b' ∷ h ∷ k ∷ []) =
    some (record {
      format = f;
      puzzle_number = p;
      range_min = lo;
      range_max = hi;
      block_size = b;
      recheck = some (record {
        source_sha256 = s;
        total_blocks = t;
        puzzle_number = n;
        range_min = lo';
        range_max = hi';
        block_size = b';
        target_hash160 = h;
        kernel_sha256 = k;
      });
    })
to_header _ = none

to_header-from_header :
    (f p : ℕ) (lo hi b : List ℕ) (r : Option RecheckIdentity)
    → let h : JournalHeader = record {
      format = f;
      puzzle_number = p;
      range_min = lo;
      range_max = hi;
      block_size = b;
      recheck = r;
    } in
      to_header (from_header h) ≡ some h
to_header-from_header f p lo hi b none = refl
to_header-from_header f p lo hi b (some i) = refl

abbrev optional : Option ℕ → List ℕ
optional none = []
optional (some n) = n ∷ []

abbrev back : List ℕ → Option ℕ
back [] = none
back (n ∷ ns) = some n

-- The runtimes lose their last bit on the way.
abbrev pub even : ℕ → ℕ
even n = n / 2 * 2

abbrev to_record : List (List ℕ) → Option (JournalRecord ℕ)
to_record (block ∷ ordinal ∷ (runtime ∷ saved ∷ []) ∷ []) = some (record {
  completed_block = back block;
  recheck_ordinal = back ordinal;
  total_runtime_secs = even runtime;
  saved_timestamp = saved;
})
to_record _ = none

abbrev from_record : JournalRecord ℕ → List (List ℕ)
from_record r =
    optional r.completed_block
    ∷ optional r.recheck_ordinal
    ∷ (r.total_runtime_secs ∷ r.saved_timestamp ∷ [])
    ∷ []

back-optional : (o : Option ℕ) → back (optional o) ≡ o
back-optional none = refl
back-optional (some n) = refl

to_record-from_record :
    (r : JournalRecord ℕ)
    → to_record (from_record r) ≡ some (record r { total_runtime_secs = even r.total_runtime_secs })
to_record-from_record r = rw (back-optional r.completed_block, back-optional r.recheck_ordinal) refl

abbrev pub headers : Codec JournalHeader
headers = record {
  encode = λ h. lists (from_header h);
  decode = λ bytes. to_header (unlists bytes);
}

abbrev pub records : Codec (JournalRecord ℕ)
records = record {
  encode = λ r. lists (from_record r);
  decode = λ bytes. to_record (unlists bytes);
}

pub headers-IsCodec : IsExactCodec headers
headers-IsCodec = record {
  decode-encode = λ h _.
      ap to_header (unlists-lists (from_header h))
      ∙ to_header-from_header h.format h.puzzle_number h.range_min h.range_max h.block_size
          h.recheck;
  one_line = λ h. lists-has (from_header h);
}

pub records-IsCodec :
    IsCodec records (λ r. true) (λ r. record r { total_runtime_secs = even r.total_runtime_secs })
records-IsCodec = record {
  decode-encode = λ r _. ap to_record (unlists-lists (from_record r)) ∙ to_record-from_record r;
  one_line = λ r. lists-has (from_record r);
}
