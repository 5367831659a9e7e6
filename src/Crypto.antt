-- ===== src/Crypto.antt =====
-- The cryptography of src/crypto/ above the 256-bit integers: hashes, curve points, addresses and the
-- scan of a key range.
pub mod Bytes
pub mod Sha256
pub mod Ripemd160
pub mod Hash160
pub mod Curve
pub mod Scan
pub mod Base58
mod Tests
