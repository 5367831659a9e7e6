-- ===== src/Search/DuplicateFilter.antt =====
-- `DuplicateFilter` of src/search/duplicate_filter.rs: the Bloom filter in front of the exact intervals.
-- Its answers are those of the intervals alone.
use puzzle71_solver.Prelude.{
  ℕ, zero, suc, ◌+◌, ◌-◌, ◌*◌, ◌^◌, ◌≤◌, ◌<◌, ◌≡◌, ◌∙◌, Bool, true, false, not, ◌&&◌, ◌||◌, arith,
  ◌==◌, ltb, leb, if◌then◌else◌, Bool-cases, inl, inr, refl, min, List, [], ◌∷◌,
}
use puzzle71_solver.Search.IntervalSet
use puzzle71_solver.Search.IntervalSet.{Interval, contains, covers, IsSeparated}
use puzzle71_solver.Search.IntervalSet.Growth.{insert-lem}
use puzzle71_solver.Search.IntervalSet.Members.{contains-covers}
use puzzle71_solver.Search.Bloom
use puzzle71_solver.Search.Bloom.{
  CompactBloomFilter, may_contain, saturate, IsSized, insert-may_contain, saturate-may_contain,
  new-IsSized,
}

pub record DuplicateFilter : Type 0 where
  pub bloom : CompactBloomFilter
  pub intervals : List Interval

unfoldable pub new : DuplicateFilter
new = record { bloom = Bloom.new (8 * 1024 * 1024); intervals = [] }

-- `for b in start..=end`, as `count` rounds from `b` on.
unfoldable pub insert_blocks : ℕ → ℕ → CompactBloomFilter → CompactBloomFilter
insert_blocks zero b f = f
insert_blocks (suc count) b f = insert_blocks count (b + 1) (Bloom.insert f b)

unfoldable pub insert_intervals : List Interval → CompactBloomFilter → CompactBloomFilter
insert_intervals [] f = f
insert_intervals ((start, end) ∷ xs) f =
    insert_intervals xs (insert_blocks (end + 1 - start) start f)

-- The saturating fold that counts the blocks.
unfoldable pub covered_from : ℕ → List Interval → ℕ
covered_from sum [] = sum
covered_from sum ((start, end) ∷ xs) =
    covered_from (min (sum + min (end - start + 1) (2 ^ 64 - 1)) (2 ^ 64 - 1)) xs

unfoldable pub from_intervals : List Interval → DuplicateFilter
from_intervals xs =
    let bloom = new.bloom in
    let inserted = insert_intervals xs bloom in
    record {
      bloom = if ltb 1000000 (covered_from 0 xs) then saturate bloom else inserted;
      intervals = xs;
    }

unfoldable pub is_scanned : DuplicateFilter → ℕ → Bool
is_scanned d b = if not (may_contain d.bloom b) then false else contains d.intervals b

unfoldable pub mark_scanned : DuplicateFilter → ℕ → DuplicateFilter
mark_scanned d b = record {
  bloom = Bloom.insert d.bloom b;
  intervals = IntervalSet.insert d.intervals b;
}

-- The Bloom filter denies no block of the intervals, and these are sorted and disjoint.
pub record IsSynced (d : DuplicateFilter) : Type 0 where
  pub separated : IsSeparated 1 0 d.intervals
  pub sized : IsSized d.bloom
  pub no_denial : (b : ℕ) → covers d.intervals b ≡ true → may_contain d.bloom b ≡ true

-- `is_scanned` of a synchronised filter says exactly whether the intervals cover the block: no false
-- positive of the Bloom filter skips a block, and no covered block is searched again.
pub is_scanned-covers :
    (d : DuplicateFilter) (b : ℕ) → IsSynced d → is_scanned d b ≡ covers d.intervals b
unfolding is_scanned
is_scanned-covers d b s =
    ground (arith, contains-covers 1 (omega arith) d.intervals b s.separated, s.no_denial b)

mark_scanned-sync :
    (d : DuplicateFilter) (b : ℕ) → IsSynced d → b < 2 ^ 64 → IsSynced (mark_scanned d b)
unfolding mark_scanned
mark_scanned-sync d b s hb =
    let grown = insert-lem 1 (omega arith) (omega arith) d.intervals b s.separated hb in
    let marked = insert-may_contain d.bloom b s.sized in
    record {
      separated = grown.0;
      sized = marked.0;
      no_denial = λ c h. elim (Bool-cases (c == b)) [
        | inl same ↦ rw (let e : c ≡ b = ground arith in e) marked.1
        | inr other ↦ marked.2 c (s.no_denial c (ground (arith, grown.1 c)))
      ];
    }

-- After `mark_scanned` of a u64 block the filter is synchronised still, and exactly that block and the
-- earlier ones are scanned.
pub mark_scanned-is_scanned :
    (d : DuplicateFilter) (b : ℕ)
    → IsSynced d
    → b < 2 ^ 64
    → IsSynced (mark_scanned d b)
      × ((c : ℕ) → is_scanned (mark_scanned d b) c ≡ (c == b) || is_scanned d c)
mark_scanned-is_scanned d b s hb =
    let synced = mark_scanned-sync d b s hb in
    let grown = insert-lem 1 (omega arith) (omega arith) d.intervals b s.separated hb in
    (
      synced,
      λ c.
          is_scanned-covers (mark_scanned d b) c synced
          ∙ unfold mark_scanned in (grown.1 c) ∙ rw (is_scanned-covers d c s),
    )

-- What a run of insertions into the Bloom filter leaves: it keeps what it had, and has the new blocks.
insert_blocks-lem :
    (count b : ℕ) (f : CompactBloomFilter)
    → IsSized f
    → IsSized (insert_blocks count b f)
      × ((c : ℕ) → may_contain f c ≡ true → may_contain (insert_blocks count b f) c ≡ true)
      × ((c : ℕ) → b ≤ c → c < b + count → may_contain (insert_blocks count b f) c ≡ true)
unfolding insert_blocks
insert_blocks-lem zero b f z = (z, λ c h. h, λ c p q. absurd (omega arith))
insert_blocks-lem (suc count) b f z =
    let one = insert-may_contain f b z in
    let rest = insert_blocks-lem count (b + 1) (Bloom.insert f b) one.0 in
    (
      rest.0,
      λ c h. rest.1 c (one.2 c h),
      λ c p q. elim (Bool-cases (c == b)) [
        | inl first ↦ rest.1 c (rw (let e : c ≡ b = ground arith in e) one.1)
        | inr later ↦ rest.2 c (ground arith) (omega arith)
      ],
    )

insert_intervals-lem :
    (lo : ℕ) (xs : List Interval) (f : CompactBloomFilter)
    → IsSeparated 1 lo xs
    → IsSized f
    → IsSized (insert_intervals xs f)
      × ((c : ℕ) → may_contain f c ≡ true → may_contain (insert_intervals xs f) c ≡ true)
      × ((c : ℕ) → covers xs c ≡ true → may_contain (insert_intervals xs f) c ≡ true)
unfolding insert_intervals
insert_intervals-lem lo [] f v z = (z, λ c h. h, λ c h. absurd (ground arith))
insert_intervals-lem lo ((s, e) ∷ xs) f v z =
    let span = insert_blocks-lem (e + 1 - s) s f z in
    let rest = insert_intervals-lem (e + 1) xs (insert_blocks (e + 1 - s) s f) v.3 span.0 in
    (
      rest.0,
      λ c h. rest.1 c (span.1 c h),
      λ c h. elim (Bool-cases (leb s c && leb c e)) [
        | inl inside ↦ rest.1 c (span.2 c (ground arith) (ground arith))
        | inr outside ↦ rest.2 c (ground arith)
      ],
    )

-- A filter built from sorted, disjoint intervals, whether its Bloom filter is filled block by block or
-- saturated because the blocks are too many, is synchronised: exactly the covered blocks are scanned.
pub from_intervals-is_scanned :
    (xs : List Interval)
    → IsSeparated 1 0 xs
    → IsSynced (from_intervals xs) × ((b : ℕ) → is_scanned (from_intervals xs) b ≡ covers xs b)
from_intervals-is_scanned xs v =
    (synced, λ b. is_scanned-covers (from_intervals xs) b synced ∙ unfold from_intervals in refl)
  where
    sized : IsSized new.bloom
    sized = unfold new in new-IsSized (8 * 1024 * 1024) (omega arith)

    synced : IsSynced (from_intervals xs)
    synced =
        unfold from_intervals in
        elim (Bool-cases (ltb 1000000 (covered_from 0 xs))) [
          | inl many ↦ record {
            separated = v;
            sized = rw many (saturate-may_contain new.bloom 0 sized).0;
            no_denial = λ b h. rw many (saturate-may_contain new.bloom b sized).1;
          }
          | inr few ↦
              let filled = insert_intervals-lem 0 xs new.bloom v sized in
              record {
                separated = v;
                sized = rw few filled.0;
                no_denial = λ b h. rw few (filled.2 b h);
              }
        ]
