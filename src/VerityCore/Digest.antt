-- ===== src/VerityCore/Digest.antt =====
-- `FsVerityDigest` of verity-core/src/digest.rs: the streaming computation of the Merkle tree.
-- A panic (an `assert!` that fails, a block that overflows) is `none`; `usize` wraps at 64 bits.
pub mod Invariant
pub mod Climb
pub mod Chunk
pub mod Capacity
pub mod Tracks
pub mod Finish
pub mod Root
pub mod Correct
use cryptpilot.Prelude.{
  ℕ, zero, suc, ◌+◌, ◌-◌, ◌*◌, ◌/◌, ◌%◌, Bool, true, false, not, ◌||◌, Option, none, some, List, [],
  ◌∷◌, ◌++◌, ◌>>=◌, ◌>>◌, assert, leb, ltb, ◌==◌, if◌then◌else◌, is_empty, length, replicate,
  chunks, trailing_zeros,
}
use cryptpilot.VerityCore.Config.{
  InnerHashAlgorithm, algorithm_to_u8, max_levels, default_block_size, u64_mod,
}
use cryptpilot.VerityCore.Hash.{InnerHash}
use cryptpilot.VerityCore.Block.{
  FsVerityConfig, FixedSizeBlock, config_new, block_new, append, overflowing_append, finalize_into,
  finalize_into_and_reset,
}
use cryptpilot.VerityCore.Merkle.{MerkleTree, empty_tree, append_level_1_hash}
use cryptpilot.VerityCore.Descriptor.{FsVerityDescriptor, to_descriptor_hash}

pub record FsVerityDigest (d : InnerHash) : Type 0 where
  pub config : FsVerityConfig d
  pub levels : List (FixedSizeBlock d)
  pub merkle_tree : MerkleTree

module _ (d : InnerHash) where
  unfoldable pub new_with_salt_and_block_size : List ℕ → ℕ → Option (FsVerityDigest d)
  new_with_salt_and_block_size salt block_size = config_new d block_size salt >>= λ config.
      some (record { config = config; levels = []; merkle_tree = empty_tree })

  unfoldable pub new_with_salt : List ℕ → Option (FsVerityDigest d)
  new_with_salt salt = new_with_salt_and_block_size salt default_block_size

  -- `FsVerityDigest::inner_hash_algorithm`.
  unfoldable pub digest_algorithm : FsVerityDigest d → InnerHashAlgorithm
  digest_algorithm self = d.inner_hash_algorithm

  -- The variables of the loop over the levels after it: the levels, what still overflows, the tree.
  abbrev pub Climb : Type 0
  Climb = List (FixedSizeBlock d) × List ℕ × MerkleTree

  -- The loop `for (level_index, level) in self.levels.iter_mut().enumerate()` of `update`.
  unfoldable pub climb :
      FsVerityConfig d → Bool → ℕ → List (FixedSizeBlock d) → List ℕ → MerkleTree → Option Climb
  climb config keep_space level_index [] overflow tree = some ([], overflow, tree)
  climb config keep_space level_index (level ∷ levels) overflow tree =
      overflowing_append d level overflow >>= λ (level', rest).
      let (tmp, fresh) = finalize_into_and_reset d level' config in
      let tree' = if level_index == 0 then append_level_1_hash tree tmp else tree in
      let flush : Option Climb = append d fresh rest >>= λ level''.
      climb config true (level_index + 1) levels tmp tree' >>= λ (levels', overflow', tree'').
      some (level'' ∷ levels', overflow', tree'') in
      if keep_space
      then (if leb d.output_size level'.remaining
          then assert (is_empty rest) >> some (level' ∷ levels, rest, tree)
          else flush)
      else (if is_empty rest then some (level' ∷ levels, rest, tree) else flush)

  -- The body of the loop over the pieces of the input.
  unfoldable pub update_chunk : FsVerityDigest d → List ℕ → Option (FsVerityDigest d)
  update_chunk self chunk =
      climb self.config false 0 self.levels chunk self.merkle_tree >>= λ (levels, overflow, tree).
      if is_empty overflow then some (record self { levels = levels; merkle_tree = tree }) else (do
        assert (ltb (length levels) max_levels)
        level ← append d (block_new d self.config) overflow
        some (record self { levels = levels ++ level ∷ []; merkle_tree = tree }))

  unfoldable pub update_loop : FsVerityDigest d → List (List ℕ) → Option (FsVerityDigest d)
  update_loop self [] = some self
  update_loop self (chunk ∷ rest) = update_chunk self chunk >>= λ self'. update_loop self' rest

  -- `Update::update`, which `Write::write` calls.
  unfoldable pub update : FsVerityDigest d → List ℕ → Option (FsVerityDigest d)
  update self content = update_loop self (chunks self.config.block_size content)

  -- A sequence of calls of `update`, as in the loop over the hashes of `rebuild_root_hash`.
  unfoldable pub update_all : FsVerityDigest d → List (List ℕ) → Option (FsVerityDigest d)
  update_all self [] = some self
  update_all self (piece ∷ rest) = update self piece >>= λ self'. update_all self' rest

  -- `Write::write`: the new state, and the number of bytes written.
  unfoldable pub write : FsVerityDigest d → List ℕ → Option (FsVerityDigest d × ℕ)
  write self buf = update self buf >>= λ self'. some (self', length buf)

  -- The loop of `finalize_into_fs_verity_stuffs`: the size, the last digest and the tree.
  unfoldable pub finalize_loop :
      FsVerityConfig d
      → ℕ
      → ℕ
      → ℕ
      → ℕ
      → List ℕ
      → List ℕ
      → MerkleTree
      → List (FixedSizeBlock d)
      → Option (ℕ × List ℕ × MerkleTree)
  finalize_loop config factor level_index total_size scale last_digest overflow tree [] =
      some (total_size, last_digest, tree)
  finalize_loop config factor level_index total_size scale last_digest overflow tree
        (level ∷ levels) =
      append d level overflow >>= λ level'.
      let digest = finalize_into d level' in
      finalize_loop config factor (level_index + 1)
        ((total_size + scale * ((config.block_size + u64_mod - level.remaining) % u64_mod))
          % u64_mod)
        (scale * factor % u64_mod) digest digest
        (if level_index == 0 then append_level_1_hash tree digest else tree) levels

  unfoldable pub finalize_into_fs_verity_stuffs :
      FsVerityDigest d → Option (FsVerityDescriptor × MerkleTree)
  finalize_into_fs_verity_stuffs self =
      finalize_loop self.config (self.config.block_size / d.output_size) 0 0 1
        (replicate d.output_size 0) [] self.merkle_tree self.levels
      >>= λ (total_size, last_digest, tree). some (
        record {
          version = 1;
          hash_algorithm = algorithm_to_u8 d.inner_hash_algorithm;
          log_blocksize = trailing_zeros self.config.block_size % 256;
          data_size = total_size;
          root_hash = last_digest;
          salt = self.config.salt;
        },
        tree,
      )

  -- A whole measurement: a new digest, the input in some pieces, and the flush.
  unfoldable pub measure : List ℕ → ℕ → List (List ℕ) → Option (FsVerityDescriptor × MerkleTree)
  measure salt block_size pieces = do
    start ← new_with_salt_and_block_size salt block_size
    self ← update_all start pieces
    finalize_into_fs_verity_stuffs self

  -- `FixedOutput::finalize_into`: the fs-verity measurement.
  unfoldable pub finalize_digest : FsVerityDigest d → Option (List ℕ)
  finalize_digest self =
      finalize_into_fs_verity_stuffs self >>= λ (descriptor, _). to_descriptor_hash d descriptor

  -- `Reset::reset`.
  unfoldable pub reset : FsVerityDigest d → Option (FsVerityDigest d)
  reset self = new_with_salt_and_block_size self.config.salt self.config.block_size

  -- `FixedOutputReset::finalize_into_reset`: the new state, and the measurement of the old one.
  unfoldable pub finalize_into_reset : FsVerityDigest d → Option (FsVerityDigest d × List ℕ)
  finalize_into_reset self = do
    fresh ← new_with_salt_and_block_size self.config.salt self.config.block_size
    out ← finalize_digest self
    some (fresh, out)
