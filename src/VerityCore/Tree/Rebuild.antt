-- ===== src/VerityCore/Tree/Rebuild.antt =====
-- `rebuild_root_hash` of verity-core/src/tree.rs against the digest that recorded the hashes.
use cryptpilot.Prelude.{
  ℕ, ◌+◌, ◌-◌, ◌*◌, ◌^◌, ◌≤◌, ◌<◌, ◌≡◌, refl, sym, ap, ◌∙◌, subst, some, List, [], ◌∷◌, ◌++◌,
  length, concat, map, chunks, chunks_of_length-le, chunks-nil, replicate, AllLength, length-concat,
  length-map, length-append, length-replicate, append-nil, arith, some_eq,
}
use native.Mathlib.Nat.{pow-succ', one-le-pow}
use cryptpilot.VerityCore.Hash.{InnerHash, HashLaws}
use cryptpilot.VerityCore.Block.{FsVerityConfig, config_new}
use cryptpilot.VerityCore.Block.Content.{Fits, block_hash}
use cryptpilot.VerityCore.Merkle.{MerkleTree}
use cryptpilot.VerityCore.Descriptor.{FsVerityDescriptor}
use cryptpilot.VerityCore.Digest.{
  FsVerityDigest, measure, new_with_salt_and_block_size, update_all, update,
  finalize_into_fs_verity_stuffs,
}
use cryptpilot.VerityCore.Digest.Invariant.{hashes_of, IsRoot}
use cryptpilot.VerityCore.Digest.Tracks.{block_size_pos, update_all-Tracks, update-Tracks}
use cryptpilot.VerityCore.Digest.Capacity.{length-hashes_of}
use cryptpilot.VerityCore.Digest.Finish.{chunks_blocks}
use cryptpilot.VerityCore.Digest.Root.{split, IsRoot-unique, IsRoot-zeroes}
use cryptpilot.VerityCore.Digest.Correct.{
  capacity, descriptor_of, new-Tracks, config-Fits, same_block_size, finalize-Tracks,
  Counts_of_capacity, capacity-eq, measure-IsRoot,
}
use cryptpilot.VerityCore.Tree.{rebuild_levels, rebuild_root_hash}
use cryptpilot.VerityCore.Tree.Padding.{
  padding_of, padding_last, padding_none, few_hashes, few_blocks,
}

-- `rebuild_levels`, by the results of its calls.
rebuild_levels_lem :
    {d : InnerHash} (tree : MerkleTree) (salt : List ℕ) (block_size padding : ℕ)
    (start self full : FsVerityDigest d) (descriptor : FsVerityDescriptor) (tree' : MerkleTree)
    → padding ≡ padding_of (length tree.hashes * d.output_size) block_size
    → new_with_salt_and_block_size d salt block_size ≡ some start
    → update_all d start tree.hashes ≡ some self
    → update d self (replicate padding 0) ≡ some full
    → finalize_into_fs_verity_stuffs d full ≡ some (descriptor, tree')
    → rebuild_levels d tree salt block_size ≡ some descriptor.root_hash
unfolding rebuild_levels padding_of
rebuild_levels_lem tree salt block_size padding start self full descriptor tree' e run1 run2 run3
      run4 =
    rw (run1, run2) (rw (← e) (rw run3 (rw run4)))

module _ {d : InnerHash} (laws : HashLaws d) (block_size : ℕ) (salt : List ℕ)
    {config : FsVerityConfig d} (made : config_new d block_size salt ≡ some config) where
  -- The digest over all hashes and the zero bytes after them.
  rebuild_levels-IsRoot :
      (tree : MerkleTree) (padding : ℕ)
      → padding ≡ padding_of (length tree.hashes * d.output_size) block_size
      → length (concat tree.hashes) + padding ≤ capacity d block_size
      → (root : List ℕ) × (rebuild_levels d tree salt block_size ≡ some root)
        × IsRoot config (concat tree.hashes ++ replicate padding 0) root
  rebuild_levels-IsRoot tree padding e counts =
      let (start, run1, t1) = new-Tracks laws block_size salt made in
      let fits = config-Fits laws block_size salt made in
      let (self, run2, t2) = update_all-Tracks laws config fits start [] tree.hashes t1 (
        Counts_of_capacity laws block_size salt made (length (concat tree.hashes)) (omega arith)) in
      let (full, run3, t3) =
        update-Tracks laws config fits self (concat tree.hashes) (replicate padding 0) t2 (
          Counts_of_capacity laws block_size salt made
            (length (concat tree.hashes ++ replicate padding 0))
            (omega (
              arith,
              length-append (concat tree.hashes) (replicate padding 0),
              length-replicate {A = ℕ} padding 0,
            ))) in
      let (root, tree', run4, is_root, _) = finalize-Tracks laws block_size salt made full t3 in
      (
        root,
        rebuild_levels_lem tree salt block_size padding start self full
            (descriptor_of d salt block_size (length (concat tree.hashes ++ replicate padding 0))
              root)
            tree' e run1 run2 run3 run4,
        is_root,
      )

  -- With no hash and with two or more the digest is computed; a single hash is the root.
  rebuild_none :
      (tree : MerkleTree)
      → tree.hashes ≡ []
      → rebuild_root_hash d tree salt block_size ≡ rebuild_levels d tree salt block_size
  unfolding rebuild_root_hash
  rebuild_none tree e = rw e refl

  rebuild_one :
      (tree : MerkleTree) {hash : List ℕ}
      → tree.hashes ≡ hash ∷ []
      → rebuild_root_hash d tree salt block_size ≡ some hash
  unfolding rebuild_root_hash
  rebuild_one tree e = rw e refl

  rebuild_many :
      (tree : MerkleTree) (hashes : List (List ℕ))
      → tree.hashes ≡ hashes
      → 2 ≤ length hashes
      → rebuild_root_hash d tree salt block_size ≡ rebuild_levels d tree salt block_size
  unfolding rebuild_root_hash
  rebuild_many tree [] e h = absurd (omega arith)
  rebuild_many tree (x ∷ []) e h = absurd (omega arith)
  rebuild_many tree (x ∷ y ∷ rest) e h = rw e refl

  abbrev fits : Fits d config
  fits = config-Fits laws block_size salt made

  module _ (tree : MerkleTree) (blocks : List (List ℕ)) (last : List ℕ)
      (recorded : tree.hashes ≡ map (block_hash config) (blocks ++ last ∷ []))
      (all : AllLength config.block_size blocks)
      (counts : length (concat blocks ++ last) ≤ capacity d block_size)
      (some_last : 0 < length last) where
    count : length tree.hashes ≡ length blocks + 1
    count =
        ap (length {A = List ℕ}) recorded
        ∙ length-map (block_hash config) (blocks ++ last ∷ [])
        ∙ length-append blocks (last ∷ [])

    hash_bytes : length (concat tree.hashes) ≡ length tree.hashes * d.output_size
    hash_bytes =
        ap (λ (t : List (List ℕ)). length (concat t)) recorded
        ∙ length-hashes_of laws config fits (blocks ++ last ∷ [])
        ∙ ap (λ (n : ℕ). n * d.output_size) (length-append blocks (last ∷ []) ∙ sym count)

    enough : length tree.hashes * d.output_size + config.block_size ≤ capacity d block_size
    enough =
        subst (λ (t : ℕ). length tree.hashes * d.output_size + config.block_size ≤ t)
          (ap (λ (t : ℕ). config.block_size * t) (sym (pow-succ' fits.factor 6))
            ∙ sym (capacity-eq laws block_size salt made))
          (few_hashes (length tree.hashes) d.output_size config.block_size fits.factor
            (fits.factor ^ 6)
            (omega (
              arith,
              count,
              pow-succ' fits.factor 6,
              few_blocks (length blocks) (length last) config.block_size (fits.factor ^ 7) within
                  some_last,
            ))
            fits.factor_big (one-le-pow 6 fits.factor (omega (arith, fits.factor_big)))
            fits.block_size_eq)
      where
        within :
            length blocks * config.block_size + length last ≤ config.block_size * fits.factor ^ 7
        within = omega (
          arith,
          Counts_of_capacity laws block_size salt made (length (concat blocks ++ last)) counts,
          length-append (concat blocks) last,
          length-concat config.block_size blocks all,
        )

    -- The hashes of two blocks or more rebuild to the root of their bytes.
    rebuild_above :
        {root : List ℕ}
        → 1 ≤ length blocks
        → IsRoot config (hashes_of config (blocks ++ last ∷ [])) root
        → rebuild_root_hash d tree salt block_size ≡ some root
    rebuild_above {root} more r =
        let size = same_block_size laws block_size salt made in
        let (blocks2, last2, e2, all2, some_last2, small2) =
          split config.block_size (concat tree.hashes) (block_size_pos laws config fits)
            (omega (arith, hash_bytes, ap (λ (n : ℕ). n * d.output_size) count, fits.output_pos)) in
        let padding = config.block_size - length last2 in
        let total : length tree.hashes * d.output_size
            ≡ length blocks2 * config.block_size + length last2 =
          omega (
            arith,
            hash_bytes,
            ap (length {A = ℕ}) e2,
            length-append (concat blocks2) last2,
            length-concat config.block_size blocks2 all2,
          ) in
        let (root', run, is_root) =
          rebuild_levels-IsRoot tree padding
            (sym (
                padding_last (length tree.hashes * d.output_size) (length blocks2) (length last2)
                  config.block_size total some_last2 small2)
              ∙ ap (padding_of (length tree.hashes * d.output_size)) size)
            (omega (arith, enough, hash_bytes)) in
        rebuild_many tree tree.hashes refl (omega (arith, count))
        ∙ run
        ∙ ap some (
            IsRoot-unique laws config fits is_root (
              IsRoot-zeroes laws config fits blocks2 last2 padding e2 all2 some_last2 (omega arith)
                (subst (λ (t : List ℕ). IsRoot config t root) (ap (concat {A = ℕ}) (sym recorded))
                  r)))

  -- The tree of an input rebuilds to the root of the input.
  rebuild-IsRoot :
      {written root : List ℕ} (tree : MerkleTree)
      → tree.hashes ≡ map (block_hash config) (chunks block_size written)
      → length written ≤ capacity d block_size
      → IsRoot config written root
      → rebuild_root_hash d tree salt block_size ≡ some root
  rebuild-IsRoot {written} {root} tree recorded counts (IsRoot.zeroes e h) =
      let none_recorded : tree.hashes ≡ [] =
        recorded
        ∙ ap (λ (t : List ℕ). map (block_hash config) (chunks block_size t)) e
        ∙ ap (map (block_hash config)) (chunks-nil block_size) in
      let (r, run, is_root) =
        rebuild_levels-IsRoot tree 0
          (sym (
            ap (λ (n : ℕ). padding_of n block_size)
              (let none_there : length tree.hashes * d.output_size ≡ 0 =
                  ap (λ (t : List (List ℕ)). length t * d.output_size) none_recorded
                  ∙ omega arith in
                none_there)
            ∙ padding_none block_size))
          (omega (arith, ap (λ (t : List (List ℕ)). length (concat t)) none_recorded)) in
      rebuild_none tree none_recorded
      ∙ run
      ∙ ap some (
          IsRoot-unique laws config fits is_root
            (IsRoot.zeroes (append-nil (concat tree.hashes) ∙ ap (concat {A = ℕ}) none_recorded) h))
  rebuild-IsRoot {written} {root} tree recorded counts (IsRoot.single pos small h) =
      rebuild_one tree (
        recorded
        ∙ ap (λ (n : ℕ). map (block_hash config) (chunks n written))
            (sym (same_block_size laws block_size salt made))
        ∙ ap (map (block_hash config)) (chunks_of_length-le config.block_size written pos small))
      ∙ ap some (sym h)
  rebuild-IsRoot {written} {root} tree recorded counts (IsRoot.above big r) =
      let (blocks, last, e, all, some_last, small) =
        split config.block_size written (block_size_pos laws config fits) (omega arith) in
      let pieces : chunks config.block_size written ≡ blocks ++ last ∷ [] =
        ap (chunks config.block_size) e
        ∙ chunks_blocks laws config fits blocks last all some_last small in
      rebuild_above tree blocks last
        (recorded
          ∙ ap (λ (n : ℕ). map (block_hash config) (chunks n written))
              (sym (same_block_size laws block_size salt made))
          ∙ ap (map (block_hash config)) pieces)
        all (subst (λ (t : List ℕ). length t ≤ capacity d block_size) e counts) some_last
        (more_blocks blocks (
          omega (
            arith,
            ap (length {A = ℕ}) e,
            length-append (concat blocks) last,
            length-concat config.block_size blocks all,
          )))
        (subst (λ (t : List (List ℕ)). IsRoot config (hashes_of config t) root) pieces r)
    where
      more_blocks : (bs : List (List ℕ)) → 0 < length bs * config.block_size → 1 ≤ length bs
      more_blocks [] h = absurd (omega arith)
      more_blocks (b ∷ bs) h = omega arith

  -- For a valid configuration and an input that the levels can count, the Merkle tree that a
  -- measurement records rebuilds to the root hash of its descriptor.
  pub rebuild-measure :
      (pieces : List (List ℕ)) {descriptor : FsVerityDescriptor} {tree : MerkleTree}
      → length (concat pieces) ≤ capacity d block_size
      → measure d salt block_size pieces ≡ some (descriptor, tree)
      → rebuild_root_hash d tree salt block_size ≡ some descriptor.root_hash
  rebuild-measure pieces {descriptor} {tree} counts run =
      let (root, tree', run', is_root, recorded) =
        measure-IsRoot laws block_size salt made pieces counts in
      let same = some_eq (sym run ∙ run') in
      ap (λ (t : MerkleTree). rebuild_root_hash d t salt block_size)
        (ap (λ (t : FsVerityDescriptor × MerkleTree). t.1) same)
      ∙ rebuild-IsRoot tree' recorded counts is_root
      ∙ ap (λ (t : FsVerityDescriptor × MerkleTree). some t.0.root_hash) (sym same)
