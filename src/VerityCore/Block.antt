-- ===== src/VerityCore/Block.antt =====
-- `FsVerityConfig` and `FixedSizeBlock` of verity-core/src/digest.rs. A panic is `none`.
pub mod Content
use cryptpilot.Prelude.{
  ℕ, ◌-◌, ◌*◌, Option, none, some, List, ◌>>=◌, ◌>>◌, assert, leb, ltb, if◌then◌else◌, length, take,
  drop, min, is_power_of_two,
}
use cryptpilot.VerityCore.Config.{max_salt_size, max_digest_size}
use cryptpilot.VerityCore.Hash.{InnerHash, update_zeroes, salt_to_digest}

pub record FsVerityConfig (d : InnerHash) : Type 0 where
  pub block_size : ℕ
  pub salt : List ℕ
  pub salted_digest : d.State

pub record FixedSizeBlock (d : InnerHash) : Type 0 where
  pub inner : d.State
  pub remaining : ℕ

module _ (d : InnerHash) where
  -- `FsVerityConfig::new`.
  unfoldable pub config_new : ℕ → List ℕ → Option (FsVerityConfig d)
  config_new block_size salt = do
    assert (leb (length salt) max_salt_size)
    assert (is_power_of_two block_size)
    assert (leb (d.output_size * 2) block_size)
    assert (leb d.output_size max_digest_size)
    salted_digest ← salt_to_digest d salt
    some (record { block_size = block_size; salt = salt; salted_digest = salted_digest })

  -- `FixedSizeBlock::new`.
  unfoldable pub block_new : FsVerityConfig d → FixedSizeBlock d
  block_new config = record { inner = config.salted_digest; remaining = config.block_size }

  unfoldable pub append : FixedSizeBlock d → List ℕ → Option (FixedSizeBlock d)
  append b content =
      if ltb b.remaining (length content)
      then none
      else some
          (record { inner = d.update b.inner content; remaining = b.remaining - length content })

  unfoldable pub fill_to_end : FixedSizeBlock d → FixedSizeBlock d
  fill_to_end b = record { inner = update_zeroes d b.inner b.remaining; remaining = 0 }

  -- The block with what fits, and the bytes that did not fit.
  unfoldable pub overflowing_append : FixedSizeBlock d → List ℕ → Option (FixedSizeBlock d × List ℕ)
  overflowing_append b content =
      let fit = min b.remaining (length content) in
      append b (take fit content) >>= λ b'. some (b', drop fit content)

  unfoldable pub finalize_into : FixedSizeBlock d → List ℕ
  finalize_into b = d.finalize (fill_to_end b).inner

  -- The hash of the block, and the block reset for the configuration.
  unfoldable pub finalize_into_and_reset :
      FixedSizeBlock d → FsVerityConfig d → List ℕ × FixedSizeBlock d
  finalize_into_and_reset b config = (d.finalize (fill_to_end b).inner, block_new config)
