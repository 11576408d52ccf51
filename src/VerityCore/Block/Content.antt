-- ===== src/VerityCore/Block/Content.antt =====
-- A `FixedSizeBlock` stands for the bytes fed into it since it was new: what its methods do to
-- those bytes, and what its hash is the hash of.
use cryptpilot.Prelude.{
  ℕ, zero, suc, ◌+◌, ◌-◌, ◌*◌, ◌≤◌, ◌<◌, ◌^◌, ◌≡◌, sym, ap, ◌∙◌, some, List, [], ◌++◌, length, take,
  drop, min, replicate, append_assoc, length-append, length-take, arith, length-replicate,
  take_of_length-le, drop_of_length-le, replicate-add, true, is_power_of_two, is_power_of_two_sound,
  pow_multiple, pow_pos,
}
use cryptpilot.VerityCore.Hash.{InnerHash, HashLaws, salt_to_digest}
use cryptpilot.VerityCore.Hash.Zeroes.{update_zeroes-replicate}
use cryptpilot.VerityCore.Block.{
  FsVerityConfig, FixedSizeBlock, config_new, block_new, append, fill_to_end, overflowing_append,
  finalize_into, finalize_into_and_reset,
}
use cryptpilot.VerityCore.Config.{max_salt_size, max_digest_size}

-- A configuration in which a block holds a whole number of digests, two or more.
pub record Fits (d : InnerHash) (config : FsVerityConfig d) : Type 0 where
  pub factor : ℕ
  pub factor_big : 2 ≤ factor
  pub output_pos : 0 < d.output_size
  pub block_size_eq : config.block_size ≡ factor * d.output_size
  pub log : ℕ
  pub log_small : log < 64
  pub block_size_pow : config.block_size ≡ 2 ^ log

two_le : (f o : ℕ) → o * 2 ≤ f * o → 0 < o → 2 ≤ f
two_le zero o h p = absurd (omega arith)
two_le (suc zero) o h p = absurd (omega arith)
two_le (suc (suc f)) o h p = omega arith

module _ {d : InnerHash} (config : FsVerityConfig d) where
  -- The block after the bytes `content`.
  abbrev pub level_of : List ℕ → FixedSizeBlock d
  level_of content = record {
    inner = d.update config.salted_digest content;
    remaining = config.block_size - length content;
  }

  -- The bytes of a block, filled up with zero bytes.
  abbrev pub pad : List ℕ → List ℕ
  pad content = content ++ replicate (config.block_size - length content) 0

  -- The salted hash of one block.
  unfoldable pub block_hash : List ℕ → List ℕ
  block_hash content = d.finalize (d.update config.salted_digest (pad content))

module _ {d : InnerHash} (laws : HashLaws d) (config : FsVerityConfig d) where
  pub length-block_hash : (content : List ℕ) → length (block_hash config content) ≡ d.output_size
  unfolding block_hash
  length-block_hash content = laws.length-finalize _

  pub append-level_of :
      (content xs : List ℕ)
      → length content + length xs ≤ config.block_size
      → append d (level_of config content) xs ≡ some (level_of config (content ++ xs))
  unfolding append
  append-level_of content xs h =
      ground (arith, laws.update-append config.salted_digest content xs, length-append content xs)

  pub append-block_new :
      (xs : List ℕ)
      → length xs ≤ config.block_size
      → append d (block_new d config) xs ≡ some (level_of config xs)
  unfolding append block_new
  append-block_new xs h = ground arith

  -- `overflowing_append` fills the block with as much as fits.
  pub overflowing_append-level_of :
      (content xs : List ℕ) (fit : ℕ)
      → length content ≤ config.block_size
      → fit ≡ min (config.block_size - length content) (length xs)
      → overflowing_append d (level_of config content) xs
        ≡ some (level_of config (content ++ take fit xs), drop fit xs)
  unfolding overflowing_append
  overflowing_append-level_of content xs fit h e =
      rw (sym e) (rw (append-level_of content (take fit xs) (omega (arith, length-take fit xs))))

  -- Bytes that fit leave nothing over.
  pub overflowing_append_fits :
      (content xs : List ℕ)
      → length content + length xs ≤ config.block_size
      → overflowing_append d (level_of config content) xs
        ≡ some (level_of config (content ++ xs), [])
  overflowing_append_fits content xs h =
      overflowing_append-level_of content xs (length xs) (omega arith) (omega arith)
      ∙ ap (λ (ys : List ℕ). some (level_of config (content ++ ys), drop (length xs) xs))
          (take_of_length-le (length xs) xs (omega arith))
      ∙ ap (λ (ys : List ℕ). some (level_of config (content ++ xs), ys))
          (drop_of_length-le (length xs) xs (omega arith))

  -- The hash of a block is the salted hash of its bytes, padded with zero bytes.
  pub finalize-level_of :
      (content : List ℕ)
      → d.finalize (fill_to_end d (level_of config content)).inner ≡ block_hash config content
  unfolding fill_to_end block_hash
  finalize-level_of content = ap d.finalize (
      update_zeroes-replicate laws _ (config.block_size - length content)
      ∙ laws.update-append config.salted_digest content _)

  pub finalize_into-level_of :
      (content : List ℕ) → finalize_into d (level_of config content) ≡ block_hash config content
  unfolding finalize_into
  finalize_into-level_of content = finalize-level_of content

  pub finalize_into_and_reset-level_of :
      (content : List ℕ)
      → finalize_into_and_reset d (level_of config content) config
        ≡ (block_hash config content, block_new d config)
  unfolding finalize_into_and_reset
  finalize_into_and_reset-level_of content =
      ap (λ (t : List ℕ). (t, block_new d config)) (finalize-level_of content)

  -- Zero bytes at the end of a block that is not full do not change its hash.
  pub block_hash-zeroes :
      (content : List ℕ) (n : ℕ)
      → length content + n ≤ config.block_size
      → block_hash config (content ++ replicate n 0) ≡ block_hash config content
  unfolding block_hash
  block_hash-zeroes content n h =
      ap (λ (t : List ℕ). d.finalize (d.update config.salted_digest t))
        (append_assoc content (replicate n 0) _
          ∙ ap (◌++◌ content) (
              replicate-add n _ 0 (
                omega
                  (arith, length-append content (replicate n 0), length-replicate {A = ℕ} n 0))))

  -- What the assertions of `FsVerityConfig::new` leave.
  pub config_new_facts :
      (bs : ℕ) (salt : List ℕ)
      → config_new d bs salt ≡ some config
      → (length salt ≤ max_salt_size)
        × (is_power_of_two bs ≡ true)
        × (d.output_size * 2 ≤ bs)
        × (config.block_size ≡ bs)
        × (config.salt ≡ salt)
        × (salt_to_digest d salt ≡ some config.salted_digest)
  unfolding config_new
  config_new_facts bs salt h = ground arith

  pub config_new_output :
      (bs : ℕ) (salt : List ℕ)
      → config_new d bs salt ≡ some config
      → d.output_size ≤ max_digest_size
  unfolding config_new
  config_new_output bs salt h = ground arith

  -- The assertions of `FsVerityConfig::new` give a configuration in which the block size is a power
  -- of two below 2^64 and a block holds a whole number of digests, two or more.
  pub config_new-Fits :
      (bs : ℕ) (salt : List ℕ) → config_new d bs salt ≡ some config → Fits d config
  config_new-Fits bs salt h =
      let (_, pow, twice, same, _, _) = config_new_facts bs salt h in
      let (log, small, e) = is_power_of_two_sound bs pow in
      let j = laws.output_log in
      let small_output : 2 ^ j ≤ 2 ^ log = omega (arith, laws.output_size_pow) in
      let whole = pow_multiple log j small_output in
      let multiple : bs ≡ 2 ^ (log - j) * d.output_size =
        e ∙ whole ∙ ap (λ (t : ℕ). 2 ^ (log - j) * t) (sym laws.output_size_pow) in
      record {
        factor = 2 ^ (log - j);
        factor_big =
            two_le (2 ^ (log - j)) d.output_size (omega (arith, multiple, twice))
              (omega (arith, pow_pos j, laws.output_size_pow));
        output_pos = omega (arith, pow_pos j, laws.output_size_pow);
        block_size_eq = same ∙ multiple;
        log = log;
        log_small = small;
        block_size_pow = same ∙ e;
      }
