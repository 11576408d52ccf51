-- ===== src/VerityCore/Digest/Finish.antt =====
-- `finalize_into_fs_verity_stuffs` of verity-core/src/digest.rs: the flush of all levels gives the
-- root of the Merkle tree, and the bytes of the levels add up to the size of the input.
use cryptpilot.Prelude.{
  ℕ, zero, suc, ◌+◌, ◌-◌, ◌*◌, ◌%◌, ◌≤◌, ◌<◌, ◌≡◌, refl, sym, ap, ◌∙◌, subst, some, List, [], ◌∷◌,
  ◌++◌, ◌==◌, if◌then◌else◌, length, concat, map, AllLength, append-nil, append_assoc,
  length-append, chunks, chunks-concat, chunks_of_length-le, chunks-nil, length-concat, replicate,
  arith, map-append,
}
use native.Mathlib.Nat.{div-add-mod, pow-le-pow_right}
use cryptpilot.VerityCore.Config.{u64_mod}
use cryptpilot.VerityCore.Hash.{InnerHash, HashLaws}
use cryptpilot.VerityCore.Block.{FsVerityConfig, FixedSizeBlock}
use cryptpilot.VerityCore.Block.Content.{
  Fits, level_of, block_hash, length-block_hash, append-level_of, finalize_into-level_of,
}
use cryptpilot.VerityCore.Merkle.{MerkleTree, append_level_1_hash, hashes-append_level_1_hash}
use cryptpilot.VerityCore.Digest.{finalize_loop}
use cryptpilot.VerityCore.Digest.Invariant.{hashes_of, Eager, Streams, IsRoot}
use cryptpilot.VerityCore.Digest.Climb.{hashes_of-snoc, not_zero}
use cryptpilot.VerityCore.Digest.Capacity.{length-hashes_of, length-written}

-- The running total of one level and of all levels above it, at 64 bits.
total_step :
    (t s c f h w : ℕ)
    → w ≡ h * f + c
    → ((t + s * c) % u64_mod + s * f % u64_mod * h) % u64_mod ≡ (t + s * w) % u64_mod
total_step t s c f h w e =
    omega (arith, ap (λ (x : ℕ). x * h) (div-add-mod (s * f) u64_mod), ap (λ (x : ℕ). s * x) e)

some_le : (k o b : ℕ) → 0 < k * o → b ≤ k * b
some_le zero o b h = absurd (omega arith)
some_le (suc k) o b h = omega arith

-- `block_size - remaining` at 64 bits, for a block with `c` bytes.
used_bytes : (b c : ℕ) → c ≤ b → b < u64_mod → (b + u64_mod - (b - c)) % u64_mod ≡ c
used_bytes b c h small = omega arith

module _ {d : InnerHash} (laws : HashLaws d) (config : FsVerityConfig d)
    (fits : Fits d config) where
  block_size_small : config.block_size < u64_mod
  block_size_small = omega (
    arith,
    fits.block_size_pow,
    pow-le-pow_right {n = 2} (omega arith) {i = fits.log} {j = 63} (omega (arith, fits.log_small)),
  )

  -- The digest that the levels above end in, if `digest` is the last one of the level below them.
  abbrev EndsIn : List (FixedSizeBlock d) → List ℕ → List ℕ → List ℕ → Type 0
  EndsIn [] written digest root = root ≡ digest
  EndsIn (top ∷ levels) written digest root = IsRoot config (written ++ digest) root

  pub chunks_blocks :
      (blocks : List (List ℕ)) (content : List ℕ)
      → AllLength config.block_size blocks
      → 0 < length content
      → length content ≤ config.block_size
      → chunks config.block_size (concat blocks ++ content) ≡ blocks ++ content ∷ []
  chunks_blocks blocks content all pos small =
      chunks-concat config.block_size blocks content (omega arith) all
      ∙ ap (λ (t : List (List ℕ)). blocks ++ t)
          (chunks_of_length-le config.block_size content pos small)

  no_blocks : (blocks : List (List ℕ)) → hashes_of config blocks ≡ [] → blocks ≡ []
  no_blocks [] e = refl
  no_blocks (b ∷ blocks) e = absurd (
      omega (
        arith,
        ap (length {A = ℕ}) e,
        length-hashes_of laws config fits (b ∷ blocks),
        fits.output_pos,
      ))

  -- The last block of a level completes the level above it.
  root_step :
      {levels : List (FixedSizeBlock d)} {bytes root : List ℕ} (blocks : List (List ℕ))
      (content : List ℕ)
      → bytes ≡ concat blocks ++ content
      → AllLength config.block_size blocks
      → 0 < length content
      → length content ≤ config.block_size
      → Eager config levels (hashes_of config blocks)
      → EndsIn levels (hashes_of config blocks) (block_hash config content) root
      → IsRoot config bytes root
  root_step {bytes = bytes} blocks content e all pos small (Eager.none_yet none_there) end =
      let whole : bytes ≡ content =
        e ∙ ap (λ (t : List (List ℕ)). concat t ++ content) (no_blocks blocks none_there) in
      IsRoot.single (rw whole pos) (rw whole small) (end ∙ ap (block_hash config) (sym whole))
  root_step {bytes = bytes} {root} blocks content e all pos small
        (Eager.level blocks' content' digests e' pos' is whole room all' rest) end =
      IsRoot.above
        (omega (
          arith,
          ap (length {A = ℕ}) e,
          length-append (concat blocks) content,
          length-concat config.block_size blocks all,
          length-hashes_of laws config fits blocks,
          some_block,
        ))
        (subst (λ (t : List ℕ). IsRoot config t root) step end)
    where
      step :
          hashes_of config blocks ++ block_hash config content
          ≡ hashes_of config (chunks config.block_size bytes)
      step =
          hashes_of-snoc laws config fits blocks content
          ∙ ap (hashes_of config)
              (sym (ap (chunks config.block_size) e ∙ chunks_blocks blocks content all pos small))

      some_block : config.block_size ≤ length blocks * config.block_size
      some_block =
          some_le (length blocks) d.output_size config.block_size
            (omega (arith, length-hashes_of laws config fits blocks, pos'))

  module _ (factor : ℕ) where
    -- One level of the flush.
    finalize_loop-level :
        (index total scale : ℕ) (last content overflow : List ℕ) (tree : MerkleTree)
        (levels : List (FixedSizeBlock d))
        → length content + length overflow ≤ config.block_size
        → finalize_loop d config factor index total scale last overflow tree
            (level_of config content ∷ levels)
          ≡ finalize_loop d config factor
              (index + 1)
              ((total + scale * length content) % u64_mod)
              (scale * factor % u64_mod)
              (block_hash config (content ++ overflow))
              (block_hash config (content ++ overflow))
              (if index == 0
                then append_level_1_hash tree (block_hash config (content ++ overflow))
                else tree)
              levels
    unfolding finalize_loop
    finalize_loop-level index total scale last content overflow tree levels fit = rw (
      append-level_of laws config content overflow fit,
      finalize_into-level_of laws config (content ++ overflow),
      used_bytes config.block_size (length content) (omega arith) block_size_small,
    )

  pub finalize_loop-Eager :
      (index total scale : ℕ) (digest : List ℕ) (tree : MerkleTree)
      {levels : List (FixedSizeBlock d)} {written : List ℕ}
      → 0 < index
      → total < u64_mod
      → length digest ≡ d.output_size
      → Eager config levels written
      → (root : List ℕ) × (finalize_loop d config fits.factor index total scale digest digest tree
            levels
          ≡ some ((total + scale * length written) % u64_mod, root, tree))
        × EndsIn levels written digest root
  finalize_loop-Eager index total scale digest tree {written = written} p small len
        (Eager.none_yet e) =
      (
        digest,
        unfold finalize_loop in
            ap (λ (t : ℕ). some (t, digest, tree))
              (omega (arith, ap (λ (t : List ℕ). scale * length t) e)),
        refl,
      )
  finalize_loop-Eager index total scale digest tree {levels = top ∷ levels} {written} p small len
        (Eager.level blocks content digests e pos is whole room all rest) =
      let fit : length content + length digest ≤ config.block_size = omega arith in
      let (root, run, end) =
        finalize_loop-Eager (index + 1) ((total + scale * length content) % u64_mod)
          (scale * fits.factor % u64_mod) (block_hash config (content ++ digest)) tree (omega arith)
          (omega arith) (length-block_hash laws config (content ++ digest)) rest in
      (
        root,
        ap
              (λ (t : FixedSizeBlock d).
                finalize_loop d config fits.factor index total scale digest digest tree
                  (t ∷ levels))
              is
            ∙ finalize_loop-level fits.factor index total scale digest content digest tree levels
                fit
            ∙ rw (not_zero index p) run
            ∙ ap (λ (t : ℕ). some (t, root, tree))
                (total_step total scale (length content) fits.factor
                  (length (hashes_of config blocks)) (length written)
                  (length-written laws config fits blocks content e all)),
        root_step blocks (content ++ digest)
            (ap (λ (t : List ℕ). t ++ digest) e ∙ append_assoc (concat blocks) content digest) all
            (omega (arith, length-append content digest, fits.output_pos))
            (omega (arith, length-append content digest)) rest end,
      )

  -- The flush of all levels: the size of the input at 64 bits, its root, and the hashes of all its
  -- blocks.
  pub finalize_loop-Streams :
      (tree : MerkleTree) {levels : List (FixedSizeBlock d)} {written : List ℕ}
      → Streams config levels tree.hashes written
      → (root : List ℕ) × (tree' : MerkleTree) × (finalize_loop d config fits.factor 0 0 1
            (replicate d.output_size 0)
            []
            tree
            levels
          ≡ some (length written % u64_mod, root, tree'))
        × IsRoot config written root
        × (tree'.hashes ≡ map (block_hash config) (chunks config.block_size written))
  finalize_loop-Streams tree {written = written} (Streams.empty e w) = (
    replicate d.output_size 0,
    tree,
    unfold finalize_loop in
        ap (λ (t : ℕ). some (t, replicate d.output_size 0, tree))
          (omega (arith, ap (λ (t : List ℕ). length t % u64_mod) w)),
    IsRoot.zeroes w refl,
    e
        ∙ sym (
            ap (λ (t : List ℕ). map (block_hash config) (chunks config.block_size t)) w
            ∙ ap (map (block_hash config)) (chunks-nil config.block_size)),
  )
  finalize_loop-Streams tree {levels = top ∷ levels} {written}
        (Streams.level blocks content e pos is small all recorded above) =
      let tree' = append_level_1_hash tree (block_hash config content) in
      let (root, run, end) =
        finalize_loop-Eager 1 ((0 + 1 * length content) % u64_mod) (1 * fits.factor % u64_mod)
          (block_hash config content) tree' (omega arith) (omega arith)
          (length-block_hash laws config content) above in
      (
        root,
        tree',
        ap
              (λ (t : FixedSizeBlock d).
                finalize_loop d config fits.factor 0 0 1 (replicate d.output_size 0) [] tree
                  (t ∷ levels))
              is
            ∙ finalize_loop-level fits.factor 0 0 1 (replicate d.output_size 0) content [] tree
                levels (omega arith)
            ∙ rw (append-nil content) run
            ∙ ap (λ (t : ℕ). some (t, root, tree'))
                (total_step 0 1 (length content) fits.factor (length (hashes_of config blocks))
                    (length written) (length-written laws config fits blocks content e all)
                  ∙ omega arith),
        root_step blocks content e all pos small above end,
        hashes-append_level_1_hash tree (block_hash config content)
            ∙ ap (λ (t : List (List ℕ)). t ++ block_hash config content ∷ []) recorded
            ∙ sym (
                ap (map (block_hash config))
                  (ap (chunks config.block_size) e ∙ chunks_blocks blocks content all pos small)
                ∙ map-append (block_hash config) blocks (content ∷ [])),
      )
