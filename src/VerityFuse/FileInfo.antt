-- ===== src/VerityFuse/FileInfo.antt =====
-- `FileVerityInfo` of verity-fuse/src/file_verifier/file_verity_info.rs.
pub mod SelfCheck
use Prim.Native.String.{String}
use text.Mathlib.Text.{◌==◌ as text_eq}
use cryptpilot.Prelude.{ℕ, Option, some, List, Bool, true, false, ◌>>=◌, if◌then◌else◌, bytes_eq}
use cryptpilot.VerityCore.Hash.{InnerHash}
use cryptpilot.VerityCore.Merkle.{MerkleTree}
use cryptpilot.VerityCore.Descriptor.{FsVerityDescriptor, block_size, to_descriptor_hash}
use cryptpilot.VerityCore.Tree.{rebuild_root_hash}

pub record FileVerityInfo : Type 0 where
  pub path : String
  pub descriptor : FsVerityDescriptor
  pub merkle_tree : MerkleTree
  pub descriptor_hash : String

-- The two errors of `verify_self`.
pub data SelfError : Type 0 where
  descriptor_hash_mismatch root_hash_mismatch : SelfError

pub data SelfResult : Type 0 where
  valid : SelfResult
  invalid : SelfError → SelfResult

-- `hex` is `hex::encode`; `none` is a panic of the digest over the hashes.
module _ (d : InnerHash) (hex : List ℕ → String) where
  unfoldable pub verify_self : FileVerityInfo → Option SelfResult
  verify_self info = to_descriptor_hash d info.descriptor >>= λ hash.
      let check_root : Option SelfResult =
        rebuild_root_hash d info.merkle_tree info.descriptor.salt (block_size info.descriptor)
        >>= λ root_hash. some (
            if bytes_eq root_hash info.descriptor.root_hash
            then SelfResult.valid
            else SelfResult.invalid SelfError.root_hash_mismatch) in
      if text_eq (hex hash) info.descriptor_hash
      then check_root
      else some (SelfResult.invalid SelfError.descriptor_hash_mismatch)
