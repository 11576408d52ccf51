-- ===== src/VerityCore/Digest/Correct.antt =====
-- `FsVerityDigest` of verity-core/src/digest.rs computes the Merkle tree of its input.
use cryptpilot.Prelude.{
  ℕ, zero, suc, ◌+◌, ◌*◌, ◌/◌, ◌%◌, ◌^◌, ◌≤◌, ◌<◌, ◌≡◌, refl, sym, ap, ◌∙◌, subst, some, List, [],
  length, concat, map, chunks, replicate, trailing_zeros, arith,
}
use native.Mathlib.Nat.{div-add-mod, mod-lt}
use cryptpilot.VerityCore.Config.{u64_mod, algorithm_to_u8}
use cryptpilot.VerityCore.Hash.{InnerHash, HashLaws}
use cryptpilot.VerityCore.Block.{FsVerityConfig, config_new}
use cryptpilot.VerityCore.Block.Content.{Fits, block_hash, config_new_facts, config_new-Fits}
use cryptpilot.VerityCore.Merkle.{MerkleTree, empty_tree}
use cryptpilot.VerityCore.Descriptor.{FsVerityDescriptor}
use cryptpilot.VerityCore.Digest.{
  FsVerityDigest, new_with_salt_and_block_size, finalize_loop, finalize_into_fs_verity_stuffs,
  measure,
}
use cryptpilot.VerityCore.Digest.Invariant.{Streams, IsRoot}
use cryptpilot.VerityCore.Digest.Tracks.{Tracks, update_all-Tracks}
use cryptpilot.VerityCore.Digest.Finish.{finalize_loop-Streams}

-- The bytes that `MAX_LEVELS` levels can count.
abbrev pub capacity : InnerHash → ℕ → ℕ
capacity d block_size = block_size * (block_size / d.output_size) ^ 7

-- The descriptor of an input of `size` bytes with the root `root`.
abbrev pub descriptor_of : InnerHash → List ℕ → ℕ → ℕ → List ℕ → FsVerityDescriptor
descriptor_of d salt block_size size root = record {
  version = 1;
  hash_algorithm = algorithm_to_u8 d.inner_hash_algorithm;
  log_blocksize = trailing_zeros block_size % 256;
  data_size = size % u64_mod;
  root_hash = root;
  salt = salt;
}

-- A quotient by `o` is the only one whose remainder is below `o`.
same_factor : (f q r o : ℕ) → f * o ≡ o * q + r → r < o → q ≡ f
same_factor zero zero r o e h = refl
same_factor zero (suc q) r o e h = absurd (omega arith)
same_factor (suc f) zero r o e h = absurd (omega arith)
same_factor (suc f) (suc q) r o e h = ap suc (same_factor f q r o (omega arith) h)

div_multiple : (b f o : ℕ) → 0 < o → b ≡ f * o → b / o ≡ f
div_multiple b f o p e =
    let r = div-add-mod b o in same_factor f (b / o) (b % o) o (omega (arith, r, e)) (mod-lt b p)

-- The flush, by the result of its loop.
finalize_lem :
    {d : InnerHash} (self : FsVerityDigest d) (factor n : ℕ) {root : List ℕ} {tree : MerkleTree}
    → self.config.block_size / d.output_size ≡ factor
    → finalize_loop d self.config factor 0 0 1
        (replicate d.output_size 0)
        []
        self.merkle_tree
        self.levels
      ≡ some (n % u64_mod, root, tree)
    → finalize_into_fs_verity_stuffs d self
      ≡ some (descriptor_of d self.config.salt self.config.block_size n root, tree)
unfolding finalize_into_fs_verity_stuffs
finalize_lem self factor n e run = rw e (rw run)

module _ {d : InnerHash} (laws : HashLaws d) (block_size : ℕ) (salt : List ℕ)
    {config : FsVerityConfig d} (made : config_new d block_size salt ≡ some config) where
  -- The state after `new` tracks no bytes.
  pub new-Tracks :
      (start : FsVerityDigest d) × (new_with_salt_and_block_size d salt block_size ≡ some start)
      × Tracks d config start []
  unfolding new_with_salt_and_block_size
  new-Tracks = (
    record { config = config; levels = []; merkle_tree = empty_tree },
    rw made,
    record { same_config = refl; streams = Streams.empty refl refl },
  )

  pub config-Fits : Fits d config
  config-Fits = config_new-Fits laws config block_size salt made

  pub same_block_size : config.block_size ≡ block_size
  same_block_size = (config_new_facts laws config block_size salt made).3

  pub same_salt : config.salt ≡ salt
  same_salt = (config_new_facts laws config block_size salt made).4

  pub factor-eq : block_size / d.output_size ≡ config-Fits.factor
  factor-eq =
      div_multiple block_size config-Fits.factor d.output_size config-Fits.output_pos
        (sym same_block_size ∙ config-Fits.block_size_eq)

  pub finalize-Tracks :
      (self : FsVerityDigest d) {written : List ℕ}
      → Tracks d config self written
      → (root : List ℕ) × (tree : MerkleTree) × (finalize_into_fs_verity_stuffs d self
          ≡ some (descriptor_of d salt block_size (length written) root, tree))
        × IsRoot config written root
        × (tree.hashes ≡ map (block_hash config) (chunks block_size written))
  finalize-Tracks self {written} t =
      let (root, tree, run, is_root, recorded) =
        finalize_loop-Streams laws config config-Fits self.merkle_tree t.streams in
      (
        root,
        tree,
        finalize_lem self config-Fits.factor (length written)
              (ap (λ (b : ℕ). b / d.output_size) same_size ∙ factor-eq)
              (ap
                  (λ (c : FsVerityConfig d).
                    finalize_loop d c config-Fits.factor 0 0 1 (replicate d.output_size 0) []
                      self.merkle_tree self.levels)
                  t.same_config
                ∙ run)
            ∙ ap (λ (b : ℕ). some (descriptor_of d self.config.salt b (length written) root, tree))
                same_size
            ∙ ap (λ (s : List ℕ). some (descriptor_of d s block_size (length written) root, tree))
                (ap (λ (c : FsVerityConfig d). c.salt) t.same_config ∙ same_salt),
        is_root,
        recorded ∙ ap (λ (n : ℕ). map (block_hash config) (chunks n written)) same_block_size,
      )
    where
      same_size : self.config.block_size ≡ block_size
      same_size = ap (λ (c : FsVerityConfig d). c.block_size) t.same_config ∙ same_block_size

  pub capacity-eq : capacity d block_size ≡ config.block_size * config-Fits.factor ^ 7
  capacity-eq =
      ap (λ (b : ℕ). b * (block_size / d.output_size) ^ 7) (sym same_block_size)
      ∙ ap (λ (f : ℕ). config.block_size * f ^ 7) factor-eq

  -- The levels can count as many bytes as `capacity` says.
  pub Counts_of_capacity :
      (n : ℕ) → n ≤ capacity d block_size → n ≤ config.block_size * config-Fits.factor ^ 7
  Counts_of_capacity n h = subst (λ (t : ℕ). n ≤ t) capacity-eq h

  -- A new digest of a valid configuration takes any input that its levels can count, in pieces of
  -- any size. The flush gives a descriptor with the root of the Merkle tree of all the bytes and
  -- with their number at 64 bits, and records the salted hash of every block of the input, in order.
  pub measure-IsRoot :
      (pieces : List (List ℕ))
      → length (concat pieces) ≤ capacity d block_size
      → (root : List ℕ) × (tree : MerkleTree) × (measure d salt block_size pieces
          ≡ some (descriptor_of d salt block_size (length (concat pieces)) root, tree))
        × IsRoot config (concat pieces) root
        × (tree.hashes ≡ map (block_hash config) (chunks block_size (concat pieces)))
  unfolding measure
  measure-IsRoot pieces counts =
      let (start, run1, t1) = new-Tracks in
      let (self, run2, t2) =
        update_all-Tracks laws config config-Fits start [] pieces t1
          (Counts_of_capacity (length (concat pieces)) counts) in
      let (root, tree, run3, is_root, recorded) = finalize-Tracks self t2 in
      (root, tree, rw run1 (rw run2 run3), is_root, recorded)
