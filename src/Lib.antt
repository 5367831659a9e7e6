-- ===== src/Lib.antt =====
-- The puzzle 71 solver: a search of the keys 2^70 to 2^71 - 1 for the one behind a given address.
--
-- The program picks a block of keys at random (src/search/rng.rs), skips it if a filter knows it
-- (src/search/duplicate_filter.rs), and searches it in dispatches to the GPU whose size depends on the
-- power mode (the loop of src/main.rs, src/search/profile.rs, src/search/block_progress.rs). A checkpoint
-- keeps the searched blocks as intervals (src/search/checkpoint.rs), and a store appends each completed
-- block to a journal that is replayed over the checkpoint (src/search/store.rs). A candidate is checked
-- again on the CPU, with the solver's own hashes and curve arithmetic (src/crypto), and a claim transaction is sized
-- and its inputs are chosen by a policy (src/claim/policy.rs), then built, signed and verified from its
-- bytes (src/claim/builder.rs, verify.rs); its requests go to listed URLs (src/claim/net/allowlist.rs).
--
-- Files:
--   Prelude         shared tests, lists, words, bits, congruences and results
--   U256            src/crypto/u256.rs: limbs, carries, field arithmetic. Children: Carry, Field, Wide,
--                   Product (reduce_512 and what is built on it), Reduce, Pow, Bytes
--   PuzzleConfig    src/puzzle_config.rs
--   Crypto          Sha256, Ripemd160, Hash160: src/crypto/sha256.rs, ripemd160.rs, hash160.rs
--                   Curve: src/crypto/secp256k1.rs; Scan: src/crypto/cpu_engine.rs
--                   Base58: src/crypto/base58.rs and address.rs
--   Search          Bisect: the binary searches of the standard library
--                   IntervalSet, Bloom, DuplicateFilter: src/search/duplicate_filter.rs
--                   BlockProgress, Rng, Profile, Checkpoint: the files of those names in src/search
--                   Dispatch: the loop over one block in src/main.rs
--                   Recheck: the plan of src/search/recheck.rs
--   Store           src/search/store.rs: the journal and the calls of the running store. Children: Order,
--                   Scope, Refine and Absorb (the replay of records), Line and Journal (its bytes), Calls
--                   (the store over what the file system does, with its invariant and its runs)
--   Claim           Policy: src/claim/policy.rs
--                   Verify: src/claim/verify.rs and the address types of destination.rs
--                   Builder: src/claim/builder.rs and prevout.rs
--                   Allowlist: src/claim/net/allowlist.rs
--
-- Numbers are natural numbers; a fixed width is written out where the code wraps, truncates, saturates or
-- checks. Arrays and vectors are lists, `&mut self` is a state that a function takes and returns.
-- Loops: the while loop of `reduce_512` runs on a fuel of 2 and is shown to end by its own test; the loops
-- over whole blocks of the two hashes run on the length of the message, and each round takes 64 bytes
-- off; a carry of a base conversion runs on the 32 digits that a u32 can have; the CPU scan runs on the
-- length of its range plus two, and is shown never to run out; the binary search runs on the size it
-- halves.
--
-- The file system under the store is an argument of each call: an append is synced, refused before it, or
-- fails with some of its bytes in the file; a compaction fails at any of its steps, with the journal full,
-- empty or with a part of its header. The runtime is an f64 up to numeric equality, with the order of
-- IEEE 754 on durations as the named hypothesis `IsOrdered`. What the JSON of a runtime reads back as is the
-- function `stored` of `Runtime`, of which nothing is assumed: serde_json without `float_roundtrip` may give
-- a neighbour of the number that was written. Integers and strings read back as they are (`IsCodec`). A
-- journal whose runtimes fall is refused, so `IsReadable` says of a runtime, at a call, that its read-back
-- is a duration and not below the runtime that the files open with. The snapshot file stands for the value
-- that its JSON reads back as. A decimal number of the header has 39 digits at most, as a u128 does.
-- A finite list of entropy reads is a beginning of what the kernel returns; `waiting` says that the choice
-- of a block has not returned on it.
--
-- Not modelled: other files, network, GPU, web server and terminal, which are I/O; floating-point power
-- control; the lock of the store, the tests of `open_impl` on the snapshot and the size of the journal, the
-- preparation of a recheck, and a snapshot that is renamed although its save reports a failure;
-- the bitcoin crate, whose addresses, transactions and script checks are the parameter `Bitcoin`;
-- JSON, which is a parameter where the code reads a checkpoint or a line of the journal (`Codec`); the
-- entropy of the kernel, which is a list of reads; the results of the GPU, which are a list of events.
pub mod Prelude
pub mod U256
pub mod PuzzleConfig
pub mod Crypto
pub mod Search
pub mod Claim
pub mod Store
