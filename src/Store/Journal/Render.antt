-- ===== src/Store/Journal/Render.antt =====
-- The journal that src/search/store.rs has written, whole or interrupted, and what its replay gives.
use puzzle71_solver.Prelude.{
  ℕ, zero, suc, ◌-◌, ◌≡◌, ◌∙◌, refl, ap, Bool, true, false, arith, Option, none, some, List, [],
  ◌∷◌, ◌++◌, length, length-append, take, same_bytes_refl, has,
}
use mathlib.Core.List.{append_assoc}
use mathlib.Core.Path.{fun_ext}
use puzzle71_solver.Prelude.Results.{ok, ◌>>=◌, bind-ok}
use puzzle71_solver.Store.{
  Runtime, Filter, RecheckIdentity, JournalRecord, Progress, replay_record, replay, previous_of,
}
use puzzle71_solver.Store.Line.{
  Codec, IsCodec, IsExactCodec, IsRecordCodec, read_record, is_timed, newline, line_body,
  encode_line, split_lines, decode_line-line_body, line_body-has, split_lines-line,
  split_lines-tail,
}
use puzzle71_solver.Store.Journal.{
  JournalHeader, for_scope, same_identity, same_scope, same_header, starts_with, replay_lines,
  replay_and_repair_tail,
}

same_identity_refl : (a : RecheckIdentity) → same_identity a a ≡ true
same_identity_refl a = ground (
  arith,
  same_bytes_refl a.source_sha256,
  same_bytes_refl a.range_min,
  same_bytes_refl a.range_max,
  same_bytes_refl a.block_size,
  same_bytes_refl a.target_hash160,
  same_bytes_refl a.kernel_sha256,
)

same_scope_refl : (o : Option RecheckIdentity) → same_scope o o ≡ true
same_scope_refl none = refl
same_scope_refl (some a) = same_identity_refl a

same_header_refl : (h : JournalHeader) → same_header h h ≡ true
unfolding same_header
same_header_refl h = ground (
  arith,
  same_bytes_refl h.range_min,
  same_bytes_refl h.range_max,
  same_bytes_refl h.block_size,
  same_scope_refl h.recheck,
)

-- The bytes of a whole journal.
abbrev pub render_records : {V : Type 0} → Codec V → List V → List ℕ
render_records c [] = []
render_records c (r ∷ rs) = encode_line c r ++ render_records c rs

abbrev pub render :
    {F : Type 0}
    → Codec JournalHeader
    → Codec (JournalRecord F)
    → JournalHeader
    → List (JournalRecord F)
    → List ℕ
render headers records h rs = encode_line headers h ++ render_records records rs

module _ {F : Type 0} (rt : Runtime F) where
  -- The records of a journal as they are read back.
  abbrev pub reads : List (JournalRecord F) → List (JournalRecord F)
  reads [] = []
  reads (r ∷ rs) = read_record rt r ∷ reads rs

  abbrev pub AreTimed : List (JournalRecord F) → Type 0
  AreTimed [] = Unit
  AreTimed (r ∷ rs) = (is_timed rt r ≡ true) × AreTimed rs

abbrev bodies : {V : Type 0} → Codec V → List V → List (List ℕ)
bodies c [] = []
bodies c (r ∷ rs) = line_body c r ∷ bodies c rs

split_lines-encode_line :
    {V : Type 0} {writable : V → Bool} {read : V → V} (c : Codec V) (v : V) (bs : List ℕ)
    → IsCodec c writable read
    → split_lines (encode_line c v ++ bs) ≡ (line_body c v ∷ (split_lines bs).0, (split_lines bs).1)
unfolding encode_line
split_lines-encode_line c v bs good =
    rw (append_assoc (line_body c v) (newline ∷ []) bs)
      (split_lines-line (line_body c v) bs (line_body-has c v good))

split_lines-render_records :
    {V : Type 0} {writable : V → Bool} {read : V → V} (c : Codec V) (rs : List V) (tail : List ℕ)
    → IsCodec c writable read
    → has newline tail ≡ false
    → split_lines (render_records c rs ++ tail) ≡ (bodies c rs, tail)
split_lines-render_records c [] tail good h = split_lines-tail tail h
split_lines-render_records c (r ∷ rs) tail good h =
    let rest = split_lines-render_records c rs tail good h in
    rw
      (
        append_assoc (encode_line c r) (render_records c rs) tail,
        split_lines-encode_line c r (render_records c rs ++ tail) good,
        rest,
      )
      refl

take_front : (n : ℕ) (xs ys : List ℕ) → n ≡ length xs → take n (xs ++ ys) ≡ xs
take_front zero [] ys h = refl
take_front (suc n) [] ys h = absurd (omega arith)
take_front zero (x ∷ xs) ys h = absurd (omega arith)
take_front (suc n) (x ∷ xs) ys h = ap (λ l. x ∷ l) (take_front n xs ys (omega arith))

take-append : (xs ys : List ℕ) → take (length (xs ++ ys) - length ys) (xs ++ ys) ≡ xs
take-append xs ys =
    take_front (length (xs ++ ys) - length ys) xs ys (omega (arith, length-append xs ys))

module _ {A F : Type 0} (rt : Runtime F) (ops : Filter A) (headers : Codec JournalHeader)
    (records : Codec (JournalRecord F)) (good_headers : IsExactCodec headers)
    (good_records : IsRecordCodec rt records) where
  replay_lines-bodies :
      (p : Progress A F) (prev : Option F × Option ℕ) (rs : List (JournalRecord F))
      → AreTimed rt rs
      → replay_lines rt ops headers records p prev (bodies records rs)
        ≡ replay rt ops p prev (reads rt rs)
  unfolding replay_lines replay
  replay_lines-bodies p prev [] timed = refl
  replay_lines-bodies p prev (r ∷ rs) timed =
      let back = read_record rt r in
      rw (decode_line-line_body records (is_timed rt) (read_record rt) r good_records timed.0) (
        ap (λ k. replay_record rt ops p prev back >>= k)
          (fun_ext λ p'. replay_lines-bodies p' (previous_of prev back) rs timed.1))

  -- The replay of a journal of records whose runtimes are durations, with perhaps a line cut off at the
  -- end, is the replay of the records with the runtimes that their JSON reads back as, and the repair leaves
  -- the whole lines.
  pub replay_and_repair_tail-render :
      (p : Progress A F) (rs : List (JournalRecord F)) (tail : List ℕ)
      → AreTimed rt rs
      → has newline tail ≡ false
      → replay_and_repair_tail rt ops headers records true p
          (render headers records (for_scope p.block_size p.recheck) rs ++ tail)
        ≡ (replay rt ops p (none, none) (reads rt rs) >>= λ q.
            ok (q, render headers records (for_scope p.block_size p.recheck) rs))
  unfolding replay_and_repair_tail
  replay_and_repair_tail-render p rs tail timed h =
      let head = for_scope p.block_size p.recheck in
      let whole = render headers records head rs in
      let split : split_lines (whole ++ tail) ≡ (line_body headers head ∷ bodies records rs, tail) =
        ap split_lines (append_assoc (encode_line headers head) (render_records records rs) tail)
        ∙ split_lines-encode_line headers head (render_records records rs ++ tail) good_headers
        ∙ ap (λ x. (line_body headers head ∷ x.0, x.1))
            (split_lines-render_records records rs tail good_records h) in
      rw
        (
          ap (λ x. x.0) split,
          ap (λ x. x.1) split,
          decode_line-line_body headers (λ v. true) (λ v. v) head good_headers refl,
          same_header_refl head,
          replay_lines-bodies p (none, none) rs timed,
          take-append whole tail,
        )
        (bind-ok (replay rt ops p (none, none) (reads rt rs) >>= λ q. ok (q, whole)))

  starts_with-take : (n : ℕ) (xs : List ℕ) → starts_with xs (take n xs) ≡ true
  starts_with-take zero xs = refl
  starts_with-take (suc n) [] = refl
  starts_with-take (suc n) (x ∷ xs) = ground (arith, starts_with-take n xs)

  -- A header that is cut off is written again, and nothing is replayed.
  pub replay_and_repair_tail-torn_header :
      (p : Progress A F) (n : ℕ)
      → let line = encode_line headers (for_scope p.block_size p.recheck) in
        has newline (take n line) ≡ false
        → replay_and_repair_tail rt ops headers records true p (take n line) ≡ ok (p, line)
  unfolding replay_and_repair_tail
  replay_and_repair_tail-torn_header p n h =
      let line = encode_line headers (for_scope p.block_size p.recheck) in
      let split = split_lines-tail (take n line) h in
      rw (ap (λ x. x.0) split, ap (λ x. x.1) split, starts_with-take n line) refl
