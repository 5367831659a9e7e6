-- ===== src/Claim.antt =====
-- The claim of a found key: src/claim.
pub mod Policy
pub mod Verify
pub mod Builder
pub mod Allowlist
mod Tests
