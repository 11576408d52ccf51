-- ===== src/VerityCore/Tree/Verify.antt =====
-- `verify_data_block` of verity-core/src/tree.rs: which data it accepts, and what an accepted block
-- says about the input that the tree was built over.
use cryptpilot.Prelude.{
  ℕ, ◌-◌, ◌≤◌, ◌<◌, ◌≡◌, ◌≢◌, refl, sym, ap, ◌∙◌, ◌⊎◌, inl, inr, true, false, some, none, List, [],
  ◌++◌, length, get_elem?, get_elem?-map, get_elem?_of_map, map, chunks, length-chunks-le, subst,
  replicate, bytes_eq, bytes_eq→eq, bytes_eq_refl, arith, some_eq, Option-cases, Bool-cases, concat,
}
use native.Mathlib.Decide.{dec_le}
use cryptpilot.VerityCore.Hash.{InnerHash, HashLaws, salt_to_digest}
use cryptpilot.VerityCore.Hash.Zeroes.{update_padded-replicate}
use cryptpilot.VerityCore.Block.{FsVerityConfig, config_new}
use cryptpilot.VerityCore.Block.Content.{block_hash, config_new_facts}
use cryptpilot.VerityCore.Merkle.{MerkleTree}
use cryptpilot.VerityCore.Descriptor.{FsVerityDescriptor}
use cryptpilot.VerityCore.Digest.{measure}
use cryptpilot.VerityCore.Digest.Tracks.{block_size_pos}
use cryptpilot.VerityCore.Digest.Correct.{capacity, measure-IsRoot, same_block_size, config-Fits}
use cryptpilot.VerityCore.Tree.{verify_data_block}

-- The two inputs are not the same and have the same hash.
abbrev pub Collision : InnerHash → List ℕ → List ℕ → Type 0
Collision d left right =
    (left ≢ right)
    × (d.finalize (d.update d.new_state left) ≡ d.finalize (d.update d.new_state right))

-- The bytes of a block, filled up with zero bytes.
abbrev pub padded : ℕ → List ℕ → List ℕ
padded n content = content ++ replicate (n - length content) 0

abbrev pub unsalted_hash : InnerHash → ℕ → List ℕ → List ℕ
unsalted_hash d n content = d.finalize (d.update d.new_state (padded n content))

-- What `verify_data_block` accepts.
abbrev pub Accepts : InnerHash → MerkleTree → ℕ → ℕ → List ℕ → Type 0
Accepts d tree index block_size content =
    (expected : List ℕ) × (get_elem? tree.hashes index ≡ some expected)
    × (length content ≤ block_size)
    × (expected ≡ unsalted_hash d block_size content)

module _ {d : InnerHash} (laws : HashLaws d) (tree : MerkleTree) (index block_size : ℕ)
    (content : List ℕ) where
  verify_by_hash :
      {expected : List ℕ}
      → get_elem? tree.hashes index ≡ some expected
      → length content ≤ block_size
      → verify_data_block d tree index block_size content
        ≡ some (bytes_eq expected (unsalted_hash d block_size content))
  unfolding verify_data_block
  verify_by_hash found fit =
      rw found (rw (update_padded-replicate laws d.new_state content block_size fit) (ground arith))

  verify_no_hash :
      get_elem? tree.hashes index ≡ none
      → verify_data_block d tree index block_size content ≡ some false
  unfolding verify_data_block
  verify_no_hash missing = ground arith

  verify_too_long :
      block_size < length content → verify_data_block d tree index block_size content ≡ some false
  unfolding verify_data_block
  verify_too_long long = ground arith

  -- `verify_data_block` never panics. It accepts exactly the data that fit into a block, for an index
  -- that the tree has, and whose hash, with zero bytes up to the block size and with no salt, is the
  -- hash of the tree at that index.
  pub verify_data_block-Accepts :
      ((verify_data_block d tree index block_size content ≡ some true)
        × Accepts d tree index block_size content)
      ⊎ ((verify_data_block d tree index block_size content ≡ some false)
          × (¬ Accepts d tree index block_size content))
  verify_data_block-Accepts = elim (Option-cases (get_elem? tree.hashes index)) [
    | inl missing ↦ inr (verify_no_hash missing, λ a. cc (missing, a.1))
    | inr (expected, found) ↦ elim (dec_le (length content) block_size) [
      | no long ↦ inr (verify_too_long (omega arith), λ a. absurd (long a.2))
      | yes fit ↦ elim (Bool-cases (bytes_eq expected (unsalted_hash d block_size content))) [
        | inl same ↦ inl (
          verify_by_hash found fit ∙ ap some same,
          (expected, found, fit, bytes_eq→eq expected _ same),
        )
        | inr other ↦ inr (
          verify_by_hash found fit ∙ ap some other,
          λ a.
              let same = some_eq (sym found ∙ a.1) ∙ a.3 in
              cc (
                other,
                ap (λ (t : List ℕ). bytes_eq t (unsalted_hash d block_size content)) same,
                bytes_eq_refl (unsalted_hash d block_size content),
              ),
        )
      ]
    ]
  ]

  Accepts-true :
      Accepts d tree index block_size content
      → verify_data_block d tree index block_size content ≡ some true
  Accepts-true a = elim verify_data_block-Accepts [ inl t ↦ t.0 | inr f ↦ absurd (f.1 a) ]

  true-Accepts :
      verify_data_block d tree index block_size content ≡ some true
      → Accepts d tree index block_size content
  true-Accepts h = elim verify_data_block-Accepts [ inl t ↦ t.1 | inr f ↦ cc (h, f.0) ]

module _ {d : InnerHash} (laws : HashLaws d) (block_size : ℕ) {config : FsVerityConfig d}
    (made : config_new d block_size [] ≡ some config) where
  -- Without a salt the two hashes of a block are one.
  no_salt : config.salted_digest ≡ d.new_state
  no_salt = some_eq (sym (config_new_facts laws config block_size [] made).5 ∙ start)
    where
      start : salt_to_digest d [] ≡ some d.new_state
      start = unfold salt_to_digest in refl

  block_hash-unsalted :
      (content : List ℕ) → block_hash config content ≡ unsalted_hash d block_size content
  unfolding block_hash
  block_hash-unsalted content =
      ap
        (λ (s : d.State).
          d.finalize (d.update s (content ++ replicate (config.block_size - length content) 0)))
        no_salt
      ∙ ap (λ (n : ℕ). unsalted_hash d n content) (same_block_size laws block_size [] made)

  module _ (pieces : List (List ℕ)) {descriptor : FsVerityDescriptor} {tree : MerkleTree}
      (counts : length (concat pieces) ≤ capacity d block_size)
      (run : measure d [] block_size pieces ≡ some (descriptor, tree)) where
    some_size : 0 < block_size
    some_size =
        subst (λ (n : ℕ). 0 < n) (same_block_size laws block_size [] made)
          (block_size_pos laws config (config-Fits laws block_size [] made))

    recorded : tree.hashes ≡ map (block_hash config) (chunks block_size (concat pieces))
    recorded =
        let (root, tree', run', is_root, hashes) =
          measure-IsRoot laws block_size [] made pieces counts in
        ap (λ (t : FsVerityDescriptor × MerkleTree). t.1.hashes) (some_eq (sym run ∙ run')) ∙ hashes

    -- In a tree that is measured without salt, with a valid configuration, over an input that the
    -- levels can count, every block of the input is accepted at its own index.
    pub verify-measure :
        (index : ℕ) {block : List ℕ}
        → get_elem? (chunks block_size (concat pieces)) index ≡ some block
        → verify_data_block d tree index block_size block ≡ some true
    verify-measure index {block} found = Accepts-true laws tree index block_size block (
      block_hash config block,
      ap (λ (t : List (List ℕ)). get_elem? t index) recorded
          ∙ get_elem?-map (block_hash config) (chunks block_size (concat pieces)) index found,
      length-chunks-le block_size index (concat pieces) some_size found,
      block_hash-unsalted block,
    )

    -- Let a tree be measured without salt, with a valid configuration, over an input that the
    -- levels can count. Data that is accepted at an index fits into a block and is the block of the
    -- input there, up to zero bytes at the end; or the data and the block of the input there, each
    -- filled up with zero bytes, are different and have the same hash.
    pub verify-measure_tampered :
        (index : ℕ) (content : List ℕ)
        → verify_data_block d tree index block_size content ≡ some true
        → (block : List ℕ) × (get_elem? (chunks block_size (concat pieces)) index ≡ some block)
          × (length content ≤ block_size)
          × ((padded block_size content ≡ padded block_size block)
              ⊎ Collision d (padded block_size content) (padded block_size block))
    verify-measure_tampered index content h =
        let (expected, found, fit, hash) = true-Accepts laws tree index block_size content h in
        let (block, there, same) =
          get_elem?_of_map (block_hash config) (chunks block_size (concat pieces)) index
            (sym (ap (λ (t : List (List ℕ)). get_elem? t index) recorded) ∙ found) in
        (
          block,
          there,
          fit,
          elim (Bool-cases (bytes_eq (padded block_size content) (padded block_size block))) [
            | inl equal ↦ inl (bytes_eq→eq _ _ equal)
            | inr other ↦ inr (
              λ e. cc (
                other,
                ap (λ (t : List ℕ). bytes_eq t (padded block_size block)) e,
                bytes_eq_refl (padded block_size block),
              ),
              sym hash ∙ same ∙ block_hash-unsalted block,
            )
          ],
        )
