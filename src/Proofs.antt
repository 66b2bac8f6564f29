-- ===== src/Proofs.antt =====
-- The Merkle proofs of accounts and of their storage: their cache, in storage/ethstorage, and the
-- verifier of op.
pub mod ProofCache
pub mod CacheBound
pub mod AccountResult
pub mod GetProof
pub mod Convert
pub mod OpVerifier
pub mod Soundness
pub mod KeptTrie
pub mod Validated
