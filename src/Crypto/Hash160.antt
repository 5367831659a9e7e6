-- ===== src/Crypto/Hash160.antt =====
-- src/crypto/hash160.rs: RIPEMD-160 of SHA-256.
use puzzle71_solver.Prelude.{ℕ, ◌≡◌, ◌∙◌, ap, List, length}
use puzzle71_solver.Crypto.Sha256.{sha256, sha256_33, sha256_33-sha256, length-sha256_33}
use puzzle71_solver.Crypto.Ripemd160.{ripemd160, ripemd160_32, ripemd160_32-ripemd160}

pub hash160 : List ℕ → List ℕ
hash160 bytes = ripemd160 (sha256 bytes)

pub hash160_from_pubkey33 : List ℕ → List ℕ
hash160_from_pubkey33 pubkey = ripemd160_32 (sha256_33 pubkey)

-- For a 33-byte public key the two one-block hashes give the standard HASH160.
pub hash160_from_pubkey33-hash160 :
    (pubkey : List ℕ) → length pubkey ≡ 33 → hash160_from_pubkey33 pubkey ≡ hash160 pubkey
unfolding hash160 hash160_from_pubkey33
hash160_from_pubkey33-hash160 pubkey e =
    ripemd160_32-ripemd160 (sha256_33 pubkey) (length-sha256_33 pubkey)
    ∙ ap ripemd160 (sha256_33-sha256 pubkey e)
