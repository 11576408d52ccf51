-- ===== src/VerityCore/Digest/Capacity.antt =====
-- How many levels `FsVerityDigest` of verity-core/src/digest.rs needs: the `MAX_LEVELS` of its
-- assertion hold `block_size * (block_size / output_size) ^ 7` bytes.
use cryptpilot.Prelude.{
  ℕ, zero, suc, ◌+◌, ◌*◌, ◌^◌, ◌≤◌, ◌<◌, ◌≡◌, refl, ap, ◌∙◌, List, ◌∷◌, ◌++◌, length, concat, map,
  AllLength, AllLength-map, length-map, length-concat, length-append, arith,
}
use native.Mathlib.Decide.{dec_le}
use native.Mathlib.Nat.{pow-succ', pow-zero, pow-le-pow_right}
use cryptpilot.VerityCore.Config.{max_levels}
use cryptpilot.VerityCore.Hash.{InnerHash, HashLaws}
use cryptpilot.VerityCore.Block.{FsVerityConfig, FixedSizeBlock}
use cryptpilot.VerityCore.Block.Content.{Fits, block_hash, length-block_hash}
use cryptpilot.VerityCore.Digest.Invariant.{hashes_of, Eager, Streams}

pub mul_mono : (a b c : ℕ) → a ≤ b → a * c ≤ b * c
mul_mono a b c h = grind arith

-- A positive sum of multiples of `o` is not below `o`.
multiple_pos : (a b o n : ℕ) → n ≡ a * o + b * o → 0 < n → o ≤ n
multiple_pos zero zero o n e h = absurd (omega arith)
multiple_pos zero (suc b) o n e h = omega arith
multiple_pos (suc a) b o n e h = omega arith

module _ {d : InnerHash} (laws : HashLaws d) (config : FsVerityConfig d)
    (fits : Fits d config) where
  pub length-hashes_of :
      (blocks : List (List ℕ)) → length (hashes_of config blocks) ≡ length blocks * d.output_size
  length-hashes_of blocks =
      length-concat d.output_size (map (block_hash config) blocks)
        (AllLength-map d.output_size (block_hash config) blocks (length-block_hash laws config))
      ∙ ap (λ (t : ℕ). t * d.output_size) (length-map (block_hash config) blocks)

  -- The bytes of a level, counted by the bytes of the level above it.
  pub length-written :
      {written : List ℕ} (blocks : List (List ℕ)) (content : List ℕ)
      → written ≡ concat blocks ++ content
      → AllLength config.block_size blocks
      → length written ≡ length (hashes_of config blocks) * fits.factor + length content
  length-written {written} blocks content e all =
      ap (length {A = ℕ}) e
      ∙ length-append (concat blocks) content
      ∙ omega (
        arith,
        length-concat config.block_size blocks all,
        ap (λ (t : ℕ). length blocks * t) fits.block_size_eq,
        ap (λ (t : ℕ). t * fits.factor) (length-hashes_of blocks),
      )

  -- `n + 1` levels from level 1 up hold at least `output_size * factor ^ n` bytes.
  Eager-length :
      (n : ℕ) {levels : List (FixedSizeBlock d)} {written : List ℕ}
      → Eager config levels written
      → length levels ≡ suc n
      → d.output_size * fits.factor ^ n ≤ length written
  Eager-length n (Eager.none_yet e) h = absurd (omega arith)
  Eager-length zero {levels = top ∷ levels} {written}
        (Eager.level blocks content digests e pos is whole room all rest) h =
      omega (
        arith,
        ap (λ (t : ℕ). d.output_size * t) (pow-zero fits.factor),
        multiple_pos (length blocks * fits.factor) digests d.output_size (length written)
            (omega (
              arith,
              length-written blocks content e all,
              ap (λ (t : ℕ). t * fits.factor) (length-hashes_of blocks),
            ))
            pos,
      )
  Eager-length (suc n) {levels = top ∷ levels} {written}
        (Eager.level blocks content digests e pos is whole room all rest) h =
      omega (
        arith,
        ap (λ (t : ℕ). d.output_size * t) (pow-succ' fits.factor n),
        mul_mono (d.output_size * fits.factor ^ n) (length (hashes_of config blocks)) fits.factor
            (Eager-length n rest (omega arith)),
        length-written blocks content e all,
      )

  -- As many bytes as `MAX_LEVELS` levels hold make no more levels than that.
  pub Streams-length :
      {levels : List (FixedSizeBlock d)} {hashes : List (List ℕ)} {written : List ℕ}
      → Streams config levels hashes written
      → length written ≤ config.block_size * fits.factor ^ 7
      → length levels ≤ max_levels
  Streams-length (Streams.empty e w) h = omega arith
  Streams-length {levels = top ∷ levels} {written = written}
        (Streams.level blocks content e pos is room all recorded above) h =
      few (length levels) refl
    where
      bytes : (n : ℕ) → length levels ≡ suc n → config.block_size * fits.factor ^ n < length written
      bytes n same = omega (
        arith,
        mul_mono (d.output_size * fits.factor ^ n) (length (hashes_of config blocks)) fits.factor
            (Eager-length n above same),
        ap (λ (t : ℕ). t * fits.factor ^ n) fits.block_size_eq,
        length-written blocks content e all,
      )

      few : (n : ℕ) → length levels ≡ n → suc (length levels) ≤ max_levels
      few zero same = omega arith
      few (suc n) same = elim (dec_le n 6) [
        | yes p ↦ omega arith
        | no p ↦ absurd (
            omega (
              arith,
              bytes n same,
              mul_mono (fits.factor ^ 7) (fits.factor ^ n) config.block_size (
                  pow-le-pow_right {n = fits.factor} (omega (arith, fits.factor_big)) {i = 7}
                    {j = n} (omega arith)),
            ))
      ]
