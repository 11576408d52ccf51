-- ===== src/VerityCore/Digest/Invariant.antt =====
-- The levels of `FsVerityDigest` against the bytes that were written: what each level has hashed
-- already, and what it still holds.
use cryptpilot.Prelude.{
  ℕ, ◌+◌, ◌*◌, ◌≤◌, ◌<◌, ◌≡◌, List, [], ◌∷◌, ◌++◌, map, length, concat, chunks, AllLength,
  replicate,
}
use cryptpilot.VerityCore.Hash.{InnerHash}
use cryptpilot.VerityCore.Block.{FsVerityConfig, FixedSizeBlock}
use cryptpilot.VerityCore.Block.Content.{level_of, block_hash}

module _ {d : InnerHash} (config : FsVerityConfig d) where
  -- The level above a sequence of blocks: their hashes, one after the other.
  abbrev pub hashes_of : List (List ℕ) → List ℕ
  hashes_of blocks = concat (map (block_hash config) blocks)

  -- `Eager levels written`: the levels from 1 up after the bytes `written` went into the first of
  -- them. A level is hashed as soon as it has no room for one more digest.
  pub data Eager : List (FixedSizeBlock d) → List ℕ → Type 0 where
    none_yet : {written : List ℕ} → written ≡ [] → Eager [] written
    level :
        {top : FixedSizeBlock d} {levels : List (FixedSizeBlock d)} {written : List ℕ}
        (blocks : List (List ℕ)) (content : List ℕ) (digests : ℕ)
        → written ≡ concat blocks ++ content
        → 0 < length written
        → top ≡ level_of config content
        → length content ≡ digests * d.output_size
        → length content + d.output_size ≤ config.block_size
        → AllLength config.block_size blocks
        → Eager levels (hashes_of blocks)
        → Eager (top ∷ levels) written

  -- `Streams levels hashes written`: all levels and the recorded hashes of level 0 after the bytes
  -- `written` of input. Level 0 is hashed when more input comes, so it is never empty.
  pub data Streams : List (FixedSizeBlock d) → List (List ℕ) → List ℕ → Type 0 where
    empty :
        {hashes : List (List ℕ)} {written : List ℕ}
        → hashes ≡ []
        → written ≡ []
        → Streams [] hashes written
    level :
        {top : FixedSizeBlock d} {levels : List (FixedSizeBlock d)} {hashes : List (List ℕ)}
        {written : List ℕ} (blocks : List (List ℕ)) (content : List ℕ)
        → written ≡ concat blocks ++ content
        → 0 < length content
        → top ≡ level_of config content
        → length content ≤ config.block_size
        → AllLength config.block_size blocks
        → hashes ≡ map (block_hash config) blocks
        → Eager levels (hashes_of blocks)
        → Streams (top ∷ levels) hashes written

  -- The Merkle tree of fs-verity: the root of some bytes. One block is hashed; more are hashed one
  -- by one, and their hashes are the bytes of the next level. No bytes have a root of zeroes.
  pub data IsRoot : List ℕ → List ℕ → Type 0 where
    zeroes :
        {bytes root : List ℕ} → bytes ≡ [] → root ≡ replicate d.output_size 0 → IsRoot bytes root
    single :
        {bytes root : List ℕ}
        → 0 < length bytes
        → length bytes ≤ config.block_size
        → root ≡ block_hash config bytes
        → IsRoot bytes root
    above :
        {bytes root : List ℕ}
        → config.block_size < length bytes
        → IsRoot (hashes_of (chunks config.block_size bytes)) root
        → IsRoot bytes root
