-- ===== src/VerityFuse.antt =====
-- The crate verity-fuse: a read-only file system that checks what it reads against a Merkle tree.
pub mod Outcome
pub mod FileInfo
pub mod Paths
pub mod Verifier
pub mod Source
pub mod Cache
pub mod Filesystem
pub mod Toy
mod Tests
