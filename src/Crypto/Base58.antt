-- ===== src/Crypto/Base58.antt =====
-- src/crypto/base58.rs and src/crypto/address.rs: Base58, its checked form, and the addresses of public
-- keys. A string is the list of its bytes. The buffer `digits`, whose first `length` places are in use,
-- is the list of these; its preallocated size is not modelled.
pub mod Digits
use puzzle71_solver.Prelude.{
  same_bytes, ℕ, zero, suc, ◌+◌, ◌-◌, ◌*◌, ◌/◌, ◌%◌, ◌^◌, ◌≡◌, Bool, true, false, ◌&&◌, ltb, ◌==◌,
  if◌then◌else◌, Option, none, some, List, [], ◌∷◌, ◌++◌, length, get_or, take, replicate, u32,
}
use puzzle71_solver.Prelude.Results.{Result, ok, err, ◌>>=◌}
use puzzle71_solver.Crypto.Bytes.{drop}
use puzzle71_solver.Crypto.Sha256.{double_sha256}
use puzzle71_solver.Crypto.Hash160.{hash160_from_pubkey33}
use puzzle71_solver.Crypto.Curve.{AffinePoint, to_compressed, scalar_mul_g}
use puzzle71_solver.U256.{U256, from_u128}

-- "123456789ABCDEFGHJKLMNPQRSTUVWXYZabcdefghijkmnopqrstuvwxyz".
abbrev pub alphabet : List ℕ
alphabet =
    49 ∷ 50 ∷ 51 ∷ 52 ∷ 53 ∷ 54 ∷ 55 ∷ 56 ∷ 57 ∷ 65 ∷ 66 ∷ 67 ∷ 68 ∷ 69 ∷ 70 ∷ 71 ∷ 72 ∷ 74 ∷ 75
    ∷ 76 ∷ 77 ∷ 78 ∷ 80 ∷ 81 ∷ 82 ∷ 83 ∷ 84 ∷ 85 ∷ 86 ∷ 87 ∷ 88 ∷ 89 ∷ 90 ∷ 97 ∷ 98 ∷ 99 ∷ 100 ∷ 101
    ∷ 102 ∷ 103 ∷ 104 ∷ 105 ∷ 106 ∷ 107 ∷ 109 ∷ 110 ∷ 111 ∷ 112 ∷ 113 ∷ 114 ∷ 115 ∷ 116 ∷ 117 ∷ 118
    ∷ 119 ∷ 120 ∷ 121 ∷ 122 ∷ []

-- `MAP`: the place of a character in the alphabet, from `i` on, or nothing for its -1.
unfoldable pub map_from : ℕ → List ℕ → ℕ → Option ℕ
map_from i [] c = none
map_from i (a ∷ rest) c = let later = map_from (i + 1) rest c in if a == c then some i else later

unfoldable pub leading : ℕ → List ℕ → ℕ
leading c [] = 0
leading c (b ∷ bs) = let later = leading c bs in if b == c then suc later else 0

-- The inner loop beyond the digits in use, while a carry is left. A u32 has no more than 32 digits.
unfoldable pub spill : ℕ → ℕ → ℕ → List ℕ
spill base zero carry = []
spill base (suc fuel) carry =
    let rest = spill base fuel (carry / base) in if carry == 0 then [] else carry % base ∷ rest

-- The inner loop: the digits times `radix` plus the carry, least digit first.
unfoldable pub add_digit : ℕ → ℕ → List ℕ → ℕ → List ℕ
add_digit base radix [] carry = spill base 32 carry
add_digit base radix (d ∷ ds) carry =
    let acc = u32 (d * radix + carry) in acc % base ∷ add_digit base radix ds (acc / base)

-- The outer loop.
unfoldable pub convert : ℕ → ℕ → List ℕ → List ℕ → List ℕ
convert base radix digits [] = digits
convert base radix digits (b ∷ bs) = convert base radix (add_digit base radix digits b) bs

abbrev pub reverse_onto : List ℕ → List ℕ → List ℕ
reverse_onto [] ys = ys
reverse_onto (x ∷ xs) ys = reverse_onto xs (x ∷ ys)

abbrev pub characters : List ℕ → List ℕ
characters [] = []
characters (d ∷ ds) = get_or alphabet d 0 ∷ characters ds

unfoldable pub b58_encode : List ℕ → List ℕ
b58_encode bytes =
    let zeroes = leading 0 bytes in
    replicate zeroes 49 ++ characters (reverse_onto (convert 58 256 [] (drop zeroes bytes)) [])

pub data Base58Error : Type 0 where
  invalid_character too_short invalid_checksum : Base58Error

-- The values of the characters, or the error of the first that has none.
unfoldable pub values : List ℕ → Result (List ℕ) Base58Error
values [] = ok []
values (c ∷ cs) = elim (map_from 0 alphabet c) [
  | none ↦ err invalid_character
  | some v ↦ do vs ← values cs; ok (v ∷ vs)
]

unfoldable pub b58_decode : List ℕ → Result (List ℕ) Base58Error
b58_decode s =
    let zeroes = leading 49 s in
    do
      vs ← values (drop zeroes s)
      ok (replicate zeroes 0 ++ reverse_onto (convert 256 58 [] vs) [])

unfoldable pub b58check_encode : ℕ → List ℕ → List ℕ
b58check_encode version payload =
    let bytes = version ∷ payload in b58_encode (bytes ++ take 4 (double_sha256 bytes))

-- The version and the payload of the bytes before the checksum.
abbrev split_version : List ℕ → ℕ × List ℕ
split_version bytes = (get_or bytes 0 0, drop 1 bytes)

unfoldable pub check_raw : List ℕ → Result (ℕ × List ℕ) Base58Error
check_raw raw =
    let body = take (length raw - 4) raw in
    if ltb (length raw) 5
    then err too_short
    else if same_bytes (take 4 (double_sha256 body)) (drop (length raw - 4) raw)
    then ok (split_version body)
    else err invalid_checksum

unfoldable pub b58check_decode : List ℕ → Result (ℕ × List ℕ) Base58Error
b58check_decode s = b58_decode s >>= check_raw

abbrev pub p2pkh_mainnet_version : ℕ
p2pkh_mainnet_version = 0

-- The address and the hash of a compressed public key.
unfoldable pub pubkey33_to_address : List ℕ → List ℕ × List ℕ
pubkey33_to_address compressed =
    let h160 = hash160_from_pubkey33 compressed in
    (b58check_encode p2pkh_mainnet_version h160, h160)

unfoldable pub pubkey_to_address : AffinePoint → List ℕ × List ℕ × List ℕ
pubkey_to_address point =
    let compressed = to_compressed point in
    let (addr, h160) = pubkey33_to_address compressed in (addr, h160, compressed)

unfoldable pub privkey_to_address : U256 → List ℕ × List ℕ × List ℕ
privkey_to_address privkey = pubkey_to_address (scalar_mul_g privkey)

unfoldable pub privkey_u128_to_address : ℕ → List ℕ × List ℕ × List ℕ
privkey_u128_to_address privkey = privkey_to_address (from_u128 privkey)
