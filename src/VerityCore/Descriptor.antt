-- ===== src/VerityCore/Descriptor.antt =====
-- `FsVerityDescriptor` of verity-core/src/descriptor.rs and its hash, the verity measurement.
pub mod Layout
use cryptpilot.Prelude.{ℕ, zero, suc, ◌/◌, ◌%◌, ◌^◌, Option, some, List, [], ◌∷◌, ◌>>=◌, length}
use cryptpilot.VerityCore.Hash.{InnerHash, update_zeroes, update_padded, salt_to_digest}

pub record FsVerityDescriptor : Type 0 where
  pub version : ℕ
  pub hash_algorithm : ℕ
  pub log_blocksize : ℕ
  pub data_size : ℕ
  pub root_hash : List ℕ
  pub salt : List ℕ

-- `1 << self.log_blocksize` on `usize`: the shift count is taken modulo 64.
unfoldable pub block_size : FsVerityDescriptor → ℕ
block_size self = 2 ^ (self.log_blocksize % 64)

-- `u64::to_le_bytes`: `n` bytes, the least significant one first.
unfoldable pub to_le_bytes : ℕ → ℕ → List ℕ
to_le_bytes zero x = []
to_le_bytes (suc n) x = (x % 256) ∷ to_le_bytes n (x / 256)

module _ (d : InnerHash) where
  unfoldable pub to_descriptor_hash : FsVerityDescriptor → Option (List ℕ)
  unfolding to_le_bytes
  to_descriptor_hash self = do
    s0 ← salt_to_digest d self.salt
    let s1 = d.update s0 (self.version ∷ [])
    let s2 = d.update s1 (self.hash_algorithm ∷ [])
    let s3 = d.update s2 (self.log_blocksize ∷ [])
    let s4 = d.update s3 (length self.salt % 256 ∷ [])
    let s5 = update_zeroes d s4 4
    let s6 = d.update s5 (to_le_bytes 8 self.data_size)
    s7 ← update_padded d s6 self.root_hash 64
    s8 ← update_padded d s7 self.salt 32
    some (d.finalize (update_zeroes d s8 144))
