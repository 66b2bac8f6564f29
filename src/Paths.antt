-- ===== src/Paths.antt =====
-- The storage paths of common/: the constants, the functions of path_types.go, and what they mean.
pub mod Constants
pub mod Parent
pub mod Segment
pub mod Account
pub mod Persist
