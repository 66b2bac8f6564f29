-- ===== src/Tests.antt =====
-- Tests of the development: each theorem of the list at a concrete input.
mod Paths
mod Storage
mod Transitions
mod Exec
mod Blocks
mod Fixtures
mod Accounts
mod Codec
mod Ethereum
mod World
mod Written
mod Values
mod Proofs
