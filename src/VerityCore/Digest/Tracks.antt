-- ===== src/VerityCore/Digest/Tracks.antt =====
-- `update` of verity-core/src/digest.rs against the bytes written so far.
use cryptpilot.Prelude.{
  ℕ, ◌*◌, ◌^◌, ◌≤◌, ◌<◌, ◌≡◌, refl, sym, ap, ◌∙◌, subst, false, some, List, [], ◌∷◌, ◌++◌, lt→ltb,
  length, concat, append-nil, append_assoc, length-append, chunks, concat-chunks, AllPieces,
  chunks-AllPieces, arith,
}
use cryptpilot.VerityCore.Config.{max_levels}
use cryptpilot.VerityCore.Hash.{InnerHash, HashLaws}
use cryptpilot.VerityCore.Block.{FsVerityConfig, FixedSizeBlock, append, block_new}
use cryptpilot.VerityCore.Block.Content.{Fits, level_of, append-block_new}
use cryptpilot.VerityCore.Merkle.{MerkleTree}
use cryptpilot.VerityCore.Digest.{
  FsVerityDigest, Climb, climb, update_chunk, update_loop, update, update_all,
}
use cryptpilot.VerityCore.Digest.Invariant.{Streams}
use cryptpilot.VerityCore.Digest.Climb.{seal}
use cryptpilot.VerityCore.Digest.Chunk.{climb-Streams}
use cryptpilot.VerityCore.Digest.Capacity.{Streams-length}

-- A digest of the configuration into which the bytes `written` went.
pub record Tracks (d : InnerHash) (config : FsVerityConfig d) (self : FsVerityDigest d)
    (written : List ℕ) : Type 0 where
  pub same_config : self.config ≡ config
  pub streams : Streams config self.levels self.merkle_tree.hashes written

module _ {d : InnerHash} (laws : HashLaws d) (config : FsVerityConfig d)
    (fits : Fits d config) where
  -- The bytes that the levels can count.
  abbrev pub Counts : List ℕ → Type 0
  Counts written = length written ≤ config.block_size * fits.factor ^ 7

  same_run :
      (self : FsVerityDigest d) (chunk : List ℕ) {r : Climb d}
      → self.config ≡ config
      → climb d config false 0 self.levels chunk self.merkle_tree ≡ some r
      → climb d self.config false 0 self.levels chunk self.merkle_tree ≡ some r
  same_run self chunk same run =
      ap (λ (c : FsVerityConfig d). climb d c false 0 self.levels chunk self.merkle_tree) same ∙ run

  add_level :
      (self : FsVerityDigest d) (levels : List (FixedSizeBlock d)) (overflow : List ℕ)
      (tree : MerkleTree) (chunk : List ℕ)
      → self.config ≡ config
      → climb d config false 0 self.levels chunk self.merkle_tree ≡ some (levels, overflow, tree)
      → length overflow ≤ config.block_size
      → length (seal laws config fits levels overflow) ≤ max_levels
      → update_chunk d self chunk
        ≡ some (record self { levels = seal laws config fits levels overflow; merkle_tree = tree })
  unfolding update_chunk
  add_level self levels [] tree chunk same run small few = rw (same_run self chunk same run) refl
  add_level self levels (x ∷ xs) tree chunk same run small few = rw (same_run self chunk same run) (
      rw
        (lt→ltb (length levels) max_levels
          (omega (arith, length-append levels (level_of config (x ∷ xs) ∷ []))))
        (rw (
          ap (λ (c : FsVerityConfig d). append d (block_new d c) (x ∷ xs)) same
          ∙ append-block_new laws config (x ∷ xs) small)))

  update_chunk-Tracks :
      (self : FsVerityDigest d) {written : List ℕ} (chunk : List ℕ)
      → Tracks d config self written
      → 0 < length chunk
      → length chunk ≤ config.block_size
      → Counts (written ++ chunk)
      → (self' : FsVerityDigest d) × (update_chunk d self chunk ≡ some self')
        × Tracks d config self' (written ++ chunk)
  update_chunk-Tracks self chunk t pos small counts =
      let (levels, overflow, tree, run, inv, fine) =
        climb-Streams laws config fits chunk self.merkle_tree pos small t.streams in
      (
        record self { levels = seal laws config fits levels overflow; merkle_tree = tree },
        add_level self levels overflow tree chunk t.same_config run fine
            (Streams-length laws config fits inv counts),
        record { same_config = t.same_config; streams = inv },
      )

  update_loop-Tracks :
      (self : FsVerityDigest d) (written : List ℕ) (pieces : List (List ℕ))
      → Tracks d config self written
      → AllPieces config.block_size pieces
      → Counts (written ++ concat pieces)
      → (self' : FsVerityDigest d) × (update_loop d self pieces ≡ some self')
        × Tracks d config self' (written ++ concat pieces)
  unfolding update_loop
  update_loop-Tracks self written [] t all counts = (self, refl, rw (append-nil written) t)
  update_loop-Tracks self written (piece ∷ rest) t all counts =
      let (self1, run1, t1) = update_chunk-Tracks self piece t all.0 all.1 (
        omega (
          arith,
          length-append written piece,
          length-append written (piece ++ concat rest),
          length-append piece (concat rest),
        )) in
      let (self2, run2, t2) =
        update_loop-Tracks self1 (written ++ piece) rest t1 all.2
          (subst Counts (sym (append_assoc written piece (concat rest))) counts) in
      (
        self2,
        rw run1 run2,
        subst (Tracks d config self2) (append_assoc written piece (concat rest)) t2,
      )

  pub block_size_pos : 0 < config.block_size
  block_size_pos = grind (arith, fits.block_size_eq, fits.output_pos, fits.factor_big)

  -- In a configuration that fits, `update` of a digest whose levels hold the bytes that were
  -- written returns, and the levels then hold those bytes and the new ones, as long as the levels
  -- can count them.
  pub update-Tracks :
      (self : FsVerityDigest d) (written content : List ℕ)
      → Tracks d config self written
      → Counts (written ++ content)
      → (self' : FsVerityDigest d) × (update d self content ≡ some self')
        × Tracks d config self' (written ++ content)
  unfolding update
  update-Tracks self written content t counts =
      let whole = concat-chunks config.block_size content block_size_pos in
      let (self', run, t') =
        update_loop-Tracks self written (chunks config.block_size content) t
          (chunks-AllPieces config.block_size content block_size_pos)
          (subst (λ (x : List ℕ). Counts (written ++ x)) (sym whole) counts) in
      (
        self',
        ap (λ (c : FsVerityConfig d). update_loop d self (chunks c.block_size content))
              t.same_config
            ∙ run,
        subst (λ (x : List ℕ). Tracks d config self' (written ++ x)) whole t',
      )

  pub update_all-Tracks :
      (self : FsVerityDigest d) (written : List ℕ) (pieces : List (List ℕ))
      → Tracks d config self written
      → Counts (written ++ concat pieces)
      → (self' : FsVerityDigest d) × (update_all d self pieces ≡ some self')
        × Tracks d config self' (written ++ concat pieces)
  unfolding update_all
  update_all-Tracks self written [] t counts = (self, refl, rw (append-nil written) t)
  update_all-Tracks self written (piece ∷ rest) t counts =
      let (self1, run1, t1) = update-Tracks self written piece t (
        omega (
          arith,
          length-append written piece,
          length-append written (piece ++ concat rest),
          length-append piece (concat rest),
        )) in
      let (self2, run2, t2) =
        update_all-Tracks self1 (written ++ piece) rest t1
          (subst Counts (sym (append_assoc written piece (concat rest))) counts) in
      (
        self2,
        rw run1 run2,
        subst (Tracks d config self2) (append_assoc written piece (concat rest)) t2,
      )
