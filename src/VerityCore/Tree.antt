-- ===== src/VerityCore/Tree.antt =====
-- The methods of `MerkleTree` of verity-core/src/tree.rs that hash.
pub mod Padding
pub mod Rebuild
pub mod Verify
use cryptpilot.Prelude.{
  ℕ, zero, suc, ◌-◌, ◌*◌, ◌%◌, Bool, true, false, Option, none, some, List, [], ◌∷◌, ◌>>=◌, ltb,
  if◌then◌else◌, length, get_elem?, replicate, bytes_eq, is_empty,
}
use cryptpilot.VerityCore.Hash.{InnerHash, update_padded}
use cryptpilot.VerityCore.Merkle.{MerkleTree}
use cryptpilot.VerityCore.Digest.{
  FsVerityDigest, new_with_salt_and_block_size, update, update_all, finalize_into_fs_verity_stuffs,
}

module _ (d : InnerHash) where
  -- The part behind the test for one single hash.
  unfoldable pub rebuild_levels : MerkleTree → List ℕ → ℕ → Option (List ℕ)
  rebuild_levels self salt block_size = do
    digest ← new_with_salt_and_block_size d salt block_size
    digest' ← update_all d digest self.hashes
    let padding = (block_size - length self.hashes * d.output_size % block_size) % block_size
    digest'' ← update d digest' (replicate padding 0)
    (descriptor, _) ← finalize_into_fs_verity_stuffs d digest''
    some descriptor.root_hash

  unfoldable pub rebuild_root_hash : MerkleTree → List ℕ → ℕ → Option (List ℕ)
  rebuild_root_hash self salt block_size = elim self.hashes [
    | [] ↦ rebuild_levels self salt block_size
    | hash ∷ rest ↦ if is_empty rest then some hash else rebuild_levels self salt block_size
  ]

  -- `none` is the panic of `update_padded`, which the first test excludes.
  unfoldable pub verify_data_block : MerkleTree → ℕ → ℕ → List ℕ → Option Bool
  verify_data_block self block_index block_size content =
      if ltb block_size (length content)
      then some false
      else elim (get_elem? self.hashes block_index) [
        | none ↦ some false
        | some expected ↦ update_padded d d.new_state content block_size >>= λ digest.
            some (bytes_eq expected (d.finalize digest))
      ]
