-- ===== src/VerityCore.antt =====
-- The crate verity-core: the fs-verity digest, its Merkle tree and its descriptor.
pub mod Config
pub mod Hash
pub mod Block
pub mod Merkle
pub mod Digest
pub mod Descriptor
pub mod Tree
pub mod Tests
