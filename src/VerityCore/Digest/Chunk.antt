-- ===== src/VerityCore/Digest/Chunk.antt =====
-- One piece of the input in `update` of verity-core/src/digest.rs: level 0, and the new top level.
use cryptpilot.Prelude.{
  ℕ, ◌-◌, ◌≤◌, ◌<◌, ◌≡◌, refl, sym, ap, ◌∙◌, subst, inl, inr, true, false, Bool-cases, some, List,
  [], ◌∷◌, ◌++◌, ◌>>=◌, is_empty, empty_of, pos_of_nonempty, length, take, drop, min, concat, map,
  AllLength, AllLength-append, append_assoc, map-append, take-append-drop, length-take, length-drop,
  length-append, take_of_length-le, arith,
}
use cryptpilot.VerityCore.Hash.{InnerHash, HashLaws}
use cryptpilot.VerityCore.Block.{FsVerityConfig, FixedSizeBlock}
use cryptpilot.VerityCore.Block.Content.{
  Fits, level_of, block_hash, length-block_hash, append-block_new, overflowing_append-level_of,
  finalize_into_and_reset-level_of,
}
use cryptpilot.VerityCore.Merkle.{MerkleTree, append_level_1_hash, hashes-append_level_1_hash}
use cryptpilot.VerityCore.Digest.{climb}
use cryptpilot.VerityCore.Digest.Invariant.{hashes_of, Eager, Streams}
use cryptpilot.VerityCore.Digest.Climb.{seal, seal-cons, hashes_of-snoc, concat-snoc, climb-Eager}

module _ {d : InnerHash} (laws : HashLaws d) (config : FsVerityConfig d)
    (fits : Fits d config) where
  -- What the loop over the levels leaves for a piece of input.
  abbrev Climbed : List (FixedSizeBlock d) → MerkleTree → List ℕ → List ℕ → Type 0
  Climbed levels tree written chunk =
      (levels' : List (FixedSizeBlock d)) × (overflow : List ℕ) × (tree' : MerkleTree) × (climb d
          config false 0 levels chunk tree
        ≡ some (levels', overflow, tree'))
      × Streams config (seal laws config fits levels' overflow) tree'.hashes (written ++ chunk)
      × (length overflow ≤ config.block_size)

  first_chunk :
      (hashes : List (List ℕ)) (written chunk : List ℕ)
      → hashes ≡ []
      → written ≡ []
      → 0 < length chunk
      → length chunk ≤ config.block_size
      → Streams config (seal laws config fits [] chunk) hashes (written ++ chunk)
  first_chunk hashes written [] e w pos small = absurd (omega arith)
  first_chunk hashes written (x ∷ xs) e w pos small =
      Streams.level [] (x ∷ xs) (rw w) pos refl small tt e (Eager.none_yet refl)

  module _ (content chunk : List ℕ) (levels : List (FixedSizeBlock d)) (tree : MerkleTree) (fit : ℕ)
      (room : length content ≤ config.block_size)
      (e : fit ≡ min (config.block_size - length content) (length chunk)) where
    fill-stay :
        is_empty (drop fit chunk) ≡ true
        → climb d config false 0 (level_of config content ∷ levels) chunk tree
          ≡ some (level_of config (content ++ take fit chunk) ∷ levels, drop fit chunk, tree)
    unfolding climb
    fill-stay done = rw (overflowing_append-level_of laws config content chunk fit room e) (rw done)

    fill-flush :
        is_empty (drop fit chunk) ≡ false
        → length chunk ≤ config.block_size
        → climb d config false 0 (level_of config content ∷ levels) chunk tree ≡ (
            climb d config true 1 levels
              (block_hash config (content ++ take fit chunk))
              (append_level_1_hash tree (block_hash config (content ++ take fit chunk)))
            >>= λ (levels', overflow', tree').
                some (level_of config (drop fit chunk) ∷ levels', overflow', tree'))
    unfolding climb
    fill-flush more small = rw (overflowing_append-level_of laws config content chunk fit room e) (
        rw (
          more,
          finalize_into_and_reset-level_of laws config (content ++ take fit chunk),
          append-block_new laws config (drop fit chunk) (omega (arith, length-drop fit chunk)),
        ))

  module _ {written : List ℕ} {hashes : List (List ℕ)} (blocks : List (List ℕ))
      (content chunk : List ℕ) (fit : ℕ) (room : length content ≤ config.block_size)
      (is : fit ≡ min (config.block_size - length content) (length chunk))
      (e : written ≡ concat blocks ++ content) (pos : 0 < length content)
      (all : AllLength config.block_size blocks)
      (recorded : hashes ≡ map (block_hash config) blocks) where
    stay-Streams :
        {levels : List (FixedSizeBlock d)}
        → is_empty (drop fit chunk) ≡ true
        → Eager config levels (hashes_of config blocks)
        → Streams config
            (level_of config (content ++ take fit chunk) ∷ levels)
            hashes
            (written ++ chunk)
    stay-Streams done above =
        Streams.level blocks (content ++ take fit chunk)
          (ap (λ (t : List ℕ). t ++ chunk) e
            ∙ append_assoc (concat blocks) content chunk
            ∙ ap (λ (t : List ℕ). concat blocks ++ (content ++ t))
                (sym (take_of_length-le fit chunk whole)))
          (omega (arith, length-append content (take fit chunk))) refl
          (omega (arith, length-append content (take fit chunk), length-take fit chunk)) all
          recorded above
      where
        whole : length chunk ≤ fit
        whole =
            omega
              (arith, length-drop fit chunk, ap (length {A = ℕ}) (empty_of (drop fit chunk) done))

    flush-Streams :
        {levels' : List (FixedSizeBlock d)} {hashes' : List (List ℕ)}
        → hashes' ≡ hashes ++ block_hash config (content ++ take fit chunk) ∷ []
        → is_empty (drop fit chunk) ≡ false
        → length chunk ≤ config.block_size
        → Eager config levels'
            (hashes_of config blocks ++ block_hash config (content ++ take fit chunk))
        → Streams config (level_of config (drop fit chunk) ∷ levels') hashes' (written ++ chunk)
    flush-Streams grown more small above =
        Streams.level (blocks ++ (content ++ take fit chunk) ∷ []) (drop fit chunk)
          (ap (λ (t : List ℕ). t ++ chunk) e
            ∙ append_assoc (concat blocks) content chunk
            ∙ ap (λ (t : List ℕ). concat blocks ++ (content ++ t))
                (sym (take-append-drop fit chunk))
            ∙ ap (◌++◌ (concat blocks))
                (sym (append_assoc content (take fit chunk) (drop fit chunk)))
            ∙ sym (append_assoc (concat blocks) (content ++ take fit chunk) (drop fit chunk))
            ∙ ap (λ (t : List ℕ). t ++ drop fit chunk)
                (sym (concat-snoc laws config fits blocks (content ++ take fit chunk))))
          (pos_of_nonempty (drop fit chunk) more) refl (omega (arith, length-drop fit chunk))
          (AllLength-append config.block_size blocks ((content ++ take fit chunk) ∷ []) all
            (full_block, tt))
          (grown
            ∙ ap (λ (t : List (List ℕ)). t ++ block_hash config (content ++ take fit chunk) ∷ [])
                recorded
            ∙ sym (map-append (block_hash config) blocks ((content ++ take fit chunk) ∷ [])))
          (subst (Eager config _)
            (hashes_of-snoc laws config fits blocks (content ++ take fit chunk)) above)
      where
        full_block : length (content ++ take fit chunk) ≡ config.block_size
        full_block = omega (
          arith,
          length-append content (take fit chunk),
          length-take fit chunk,
          length-drop fit chunk,
          pos_of_nonempty (drop fit chunk) more,
        )

  -- A piece of input that is written into the levels.
  pub climb-Streams :
      {levels : List (FixedSizeBlock d)} {written : List ℕ} (chunk : List ℕ) (tree : MerkleTree)
      → 0 < length chunk
      → length chunk ≤ config.block_size
      → Streams config levels tree.hashes written
      → Climbed levels tree written chunk
  climb-Streams {written = written} chunk tree pos small (Streams.empty e w) = (
    [],
    chunk,
    tree,
    unfold climb in refl,
    first_chunk tree.hashes written chunk e w pos small,
    small,
  )
  climb-Streams {levels = top ∷ levels} {written} chunk tree pos small
        (Streams.level blocks content e some_content is room all recorded above) =
      elim (Bool-cases (is_empty (drop fit chunk))) [
        | inl done ↦ (
          level_of config (content ++ take fit chunk) ∷ levels,
          drop fit chunk,
          tree,
          start ∙ fill-stay content chunk levels tree fit room refl done,
          rw (empty_of (drop fit chunk) done) (
              stay-Streams blocks content chunk fit room refl e some_content all recorded done
                above),
          omega (arith, length-drop fit chunk),
        )
        | inr more ↦
            let (levels', overflow, run, inv, fine) =
              climb-Eager laws config fits 1 (block_hash config (content ++ take fit chunk))
                (append_level_1_hash tree (block_hash config (content ++ take fit chunk)))
                (omega arith) (length-block_hash laws config (content ++ take fit chunk)) above in
            (
              level_of config (drop fit chunk) ∷ levels',
              overflow,
              append_level_1_hash tree (block_hash config (content ++ take fit chunk)),
              start ∙ fill-flush content chunk levels tree fit room refl more small ∙ rw run,
              rw (seal-cons laws config fits (level_of config (drop fit chunk)) levels' overflow) (
                  flush-Streams blocks content chunk fit room refl e some_content all recorded
                    (hashes-append_level_1_hash tree
                      (block_hash config (content ++ take fit chunk)))
                    more small inv),
              fine,
            )
      ]
    where
      fit : ℕ
      fit = min (config.block_size - length content) (length chunk)

      start :
          climb d config false 0 (top ∷ levels) chunk tree
          ≡ climb d config false 0 (level_of config content ∷ levels) chunk tree
      start = ap (λ (t : FixedSizeBlock d). climb d config false 0 (t ∷ levels) chunk tree) is
