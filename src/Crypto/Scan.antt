-- ===== src/Crypto/Scan.antt =====
-- `cpu_incremental_scan` of src/crypto/cpu_engine.rs: the keys of a range, one after the other, by adding
-- the generator. `current_key += 1` wraps at 128 bits.
use puzzle71_solver.Prelude.{
  ℕ, zero, suc, ◌+◌, ◌-◌, ◌^◌, ◌≤◌, ◌<◌, ◌≡◌, ◌≢◌, ◌↔◌, refl, Bool, true, false, ◌&&◌, u128, arith,
  Bool-cases, inl, inr, ltb, ◌==◌, if◌then◌else◌, List, [], ◌∷◌,
}
use puzzle71_solver.U256.{from_u128}
use puzzle71_solver.Crypto.Curve.{
  JacobianPoint, generator, to_jacobian, to_affine, to_compressed, add_affine, scalar_mul_g,
}
use puzzle71_solver.Crypto.Hash160.{hash160_from_pubkey33}

-- `==` on byte arrays.
eq_bytes : List ℕ → List ℕ → Bool
eq_bytes [] [] = true
eq_bytes [] (y ∷ ys) = false
eq_bytes (x ∷ xs) [] = false
eq_bytes (x ∷ xs) (y ∷ ys) = x == y && eq_bytes xs ys

eq_bytes_iff : (xs ys : List ℕ) → (eq_bytes xs ys ≡ true) ↔ (xs ≡ ys)
unfolding eq_bytes
eq_bytes_iff [] [] = (λ e. refl, λ e. refl)
eq_bytes_iff [] (y ∷ ys) = ground arith
eq_bytes_iff (x ∷ xs) [] = ground arith
eq_bytes_iff (x ∷ xs) (y ∷ ys) = ground (arith, eq_bytes_iff xs ys)

-- How a scan ends: `range_reversed` is the failed assertion, and `out_of_fuel` is none of the code's.
pub data ScanResult : Type 0 where
  found : ℕ → ScanResult
  not_found range_reversed out_of_fuel : ScanResult

-- The hash of the public key at a point.
pub hash_of : JacobianPoint → List ℕ
hash_of p = hash160_from_pubkey33 (to_compressed (to_affine p))

-- The while loop, on fuel for its tests.
scan_from : ℕ → ℕ → List ℕ → ℕ → JacobianPoint → ScanResult
scan_from zero last target key p = out_of_fuel
scan_from (suc fuel) last target key p =
    let rest = scan_from fuel last target (u128 (key + 1)) (add_affine p generator) in
    if ltb last key then not_found else if eq_bytes (hash_of p) target then found key else rest

pub first_point : ℕ → JacobianPoint
first_point start = to_jacobian (scalar_mul_g (from_u128 start))

-- One test for each key of the range, and the test that ends the loop.
pub cpu_incremental_scan : ℕ → ℕ → List ℕ → ScanResult
cpu_incremental_scan start last target =
    if ltb last start
    then range_reversed
    else scan_from (last - start + 2) last target start (first_point start)

-- The point after `n` additions of the generator.
pub advance : ℕ → JacobianPoint → JacobianPoint
advance zero p = p
advance (suc n) p = advance n (add_affine p generator)

-- What a scan of the keys from `key` to `last` has found, where `p` is the point of the first key.
abbrev pub Finds : ℕ → ℕ → List ℕ → JacobianPoint → ScanResult → Type 0
Finds key last target p (found k) =
    (key ≤ k)
    × (k ≤ last)
    × (hash_of (advance (k - key) p) ≡ target)
    × ((i : ℕ) → i < k - key → hash_of (advance i p) ≢ target)
Finds key last target p not_found = (i : ℕ) → key + i ≤ last → hash_of (advance i p) ≢ target
Finds key last target p range_reversed = last < key
Finds key last target p out_of_fuel = ⊥

Finds-suc :
    (key last : ℕ) (target : List ℕ) (p : JacobianPoint) (r : ScanResult)
    → hash_of p ≢ target
    → key ≤ last
    → r ≢ range_reversed
    → Finds (key + 1) last target (add_affine p generator) r
    → Finds key last target p r
unfolding advance
Finds-suc key last target p (found k) miss inside nr (lo, hi, hit, before) =
    let step : k - key ≡ suc (k - (key + 1)) = omega arith in
    (
      omega arith,
      hi,
      rw step hit,
      λ i. elim i as (λ j. j < k - key → hash_of (advance j p) ≢ target) [
        | zero ↦ λ h. miss
        | suc j ↦ λ h. before j (omega arith)
      ],
    )
Finds-suc key last target p not_found miss inside nr h = elim [
  | zero ↦ λ e. miss
  | suc j ↦ λ e. h j (omega arith)
]
Finds-suc key last target p range_reversed miss inside nr h = absurd (nr refl)
Finds-suc key last target p out_of_fuel miss inside nr h = h

scan_from-Finds :
    (fuel key last : ℕ) (target : List ℕ) (p : JacobianPoint)
    → key ≤ last + 1
    → last + 1 < key + fuel
    → last + 1 < 2 ^ 128
    → Finds key last target p (scan_from fuel last target key p)
      × (scan_from fuel last target key p ≢ range_reversed)
unfolding scan_from
scan_from-Finds zero key last target p reach enough fits = absurd (omega arith)
scan_from-Finds (suc fuel) key last target p reach enough fits = elim (Bool-cases (ltb last key)) [
  | inl past ↦ rw past (λ i h. absurd (ground arith), ground arith)
  | inr inside ↦ elim (Bool-cases (eq_bytes (hash_of p) target)) [
    | inl hit ↦
        let none_before : key - key ≡ 0 = omega arith in
        rw (inside, hit, none_before)
          (
            (
              omega arith,
              ground arith,
              unfold advance in (eq_bytes_iff (hash_of p) target).0 hit,
              λ i h. absurd (omega arith),
            ),
            ground arith,
          )
    | inr miss ↦
        let next : u128 (key + 1) ≡ key + 1 = ground arith in
        let other : hash_of p ≢ target = λ e. cc ((eq_bytes_iff (hash_of p) target).1 e) in
        let q = add_affine p generator in
        let ih = scan_from-Finds fuel (key + 1) last target q (ground arith) (omega arith) fits in
        rw (inside, miss, next)
          (
            Finds-suc key last target p (scan_from fuel last target (key + 1) q) other
                (ground arith) ih.1 ih.0,
            ih.1,
          )
  ]
]

-- Over a range that is not reversed and ends below the largest u128, the scan always returns: it
-- returns the first key of the range whose public key hash is the target, where the public keys are
-- those reached from the first by adding the generator, or reports that no key of the range has it.
pub cpu_incremental_scan-Finds :
    (start last : ℕ) (target : List ℕ)
    → start ≤ last
    → last + 1 < 2 ^ 128
    → Finds start last target (first_point start) (cpu_incremental_scan start last target)
unfolding cpu_incremental_scan
cpu_incremental_scan-Finds start last target h fits =
    let forward : ltb last start ≡ false = ground arith in
    rw forward
      (scan_from-Finds (last - start + 2) start last target (first_point start) (omega arith)
        (omega arith) fits).0
