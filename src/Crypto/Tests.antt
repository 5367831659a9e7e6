-- ===== src/Crypto/Tests.antt =====
-- The hashes, the curve and the scan of src/crypto at concrete inputs.
use puzzle71_solver.Prelude.{ℕ, ◌+◌, ◌*◌, ◌%◌, ◌≡◌, ◌↔◌, true, arith, refl, List, [], ◌∷◌}
use puzzle71_solver.U256.{value}
use puzzle71_solver.U256.Field.{prime}
use puzzle71_solver.Crypto.Hash160.{hash160, hash160_from_pubkey33, hash160_from_pubkey33-hash160}
use puzzle71_solver.Crypto.Curve.{generator, is_valid}
use puzzle71_solver.Crypto.Curve.Reduced.{IsReducedAffine}
use puzzle71_solver.Crypto.Curve.Affine.{is_valid-curve}
use puzzle71_solver.Crypto.Scan.{
  Finds, first_point, cpu_incremental_scan, cpu_incremental_scan-Finds,
}
use puzzle71_solver.Crypto.Base58.{b58_encode, convert, add_digit, spill, leading}
use puzzle71_solver.Crypto.Base58.Digits.{number, number_from, AllBelow, convert-number}
use puzzle71_solver.PuzzleConfig.{range_min}

-- The compressed generator.
abbrev pubkey : List ℕ
pubkey =
    0x02 ∷ 0x79 ∷ 0xbe ∷ 0x66 ∷ 0x7e ∷ 0xf9 ∷ 0xdc ∷ 0xbb ∷ 0xac ∷ 0x55 ∷ 0xa0 ∷ 0x62 ∷ 0x95 ∷ 0xce
    ∷ 0x87 ∷ 0x0b ∷ 0x07 ∷ 0x02 ∷ 0x9b ∷ 0xfc ∷ 0xdb ∷ 0x2d ∷ 0xce ∷ 0x28 ∷ 0xd9 ∷ 0x59 ∷ 0xf2
    ∷ 0x81 ∷ 0x5b ∷ 0x16 ∷ 0xf8 ∷ 0x17 ∷ 0x98 ∷ []

abbrev digest : List ℕ
digest =
    0x0f ∷ 0x71 ∷ 0x5b ∷ 0xaf ∷ 0x5d ∷ 0x4c ∷ 0x2e ∷ 0xd3 ∷ 0x29 ∷ 0x78 ∷ 0x5c ∷ 0xef ∷ 0x29 ∷ 0xe5
    ∷ 0x62 ∷ 0xf7 ∷ 0x34 ∷ 0x88 ∷ 0xc8 ∷ 0xa2 ∷ 0xbb ∷ 0x9d ∷ 0xbc ∷ 0x57 ∷ 0x00 ∷ 0xb3 ∷ 0x61
    ∷ 0xd5 ∷ 0x4b ∷ 0x9b ∷ 0x05 ∷ 0x54 ∷ []

generator-IsReducedAffine : IsReducedAffine generator
generator-IsReducedAffine = record {
  rx = record {
    words = record { w0 = omega arith; w1 = omega arith; w2 = omega arith; w3 = omega arith };
    below = omega arith;
  };
  ry = record {
    words = record { w0 = omega arith; w1 = omega arith; w2 = omega arith; w3 = omega arith };
    below = omega arith;
  };
}

hash160_from_pubkey33-hash160_example : hash160_from_pubkey33 pubkey ≡ hash160 pubkey
hash160_from_pubkey33-hash160_example = hash160_from_pubkey33-hash160 pubkey refl

is_valid-curve_example : (is_valid generator ≡ true) ↔ (
    value generator.y * value generator.y % prime
    ≡ (value generator.x * value generator.x * value generator.x + 7) % prime)
is_valid-curve_example = is_valid-curve generator generator-IsReducedAffine refl

-- A scan of eleven keys from the start of the puzzle's range.
cpu_incremental_scan-Finds_example :
    Finds range_min
      (range_min + 10)
      digest
      (first_point range_min)
      (cpu_incremental_scan range_min (range_min + 10) digest)
cpu_incremental_scan-Finds_example =
    cpu_incremental_scan-Finds range_min (range_min + 10) digest (omega arith) (omega arith)

-- A leading zero byte is a leading 1.
b58_encode_0_255 : b58_encode (0 ∷ 255 ∷ []) ≡ 49 ∷ 53 ∷ 81 ∷ []
unfolding b58_encode convert add_digit spill leading
b58_encode_0_255 = refl

convert-number_example :
    (number 58 (convert 58 256 [] (1 ∷ 255 ∷ [])) ≡ number_from 256 (number 58 []) (1 ∷ 255 ∷ []))
    × AllBelow 58 (convert 58 256 [] (1 ∷ 255 ∷ []))
convert-number_example =
    convert-number 58 256 (omega arith) (omega arith) (omega arith) [] (1 ∷ 255 ∷ []) tt
      (omega arith, (omega arith, tt))
