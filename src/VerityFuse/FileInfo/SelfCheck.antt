-- ===== src/VerityFuse/FileInfo/SelfCheck.antt =====
-- `verify_self` of verity-fuse/src/file_verifier/file_verity_info.rs accepts what the digest made,
-- and what it accepts is consistent.
use Prim.Native.String.{String}
use text.Mathlib.Text.{◌==◌ as text_eq}
use text.Mathlib.TextEquality.{eq_iff}
use cryptpilot.Prelude.{
  ℕ, ◌%◌, ◌^◌, ◌≤◌, ◌≡◌, ◌↔◌, refl, sym, ap, ◌∙◌, some, List, true, length, concat, bytes_eq,
  bytes_eq_refl, bytes_eq→eq, arith, some_eq, trailing_zeros, trailing_zeros-pow, Option-cases, inl,
  inr,
}
use cryptpilot.VerityCore.Hash.{InnerHash, HashLaws, salt_to_digest}
use cryptpilot.VerityCore.Block.{FsVerityConfig, config_new}
use cryptpilot.VerityCore.Block.Content.{config_new_facts, config_new_output}
use cryptpilot.VerityCore.Merkle.{MerkleTree}
use cryptpilot.VerityCore.Descriptor.{FsVerityDescriptor, block_size, to_descriptor_hash}
use cryptpilot.VerityCore.Descriptor.Layout.{layout, to_descriptor_hash_lem}
use cryptpilot.VerityCore.Digest.{measure}
use cryptpilot.VerityCore.Digest.Root.{IsRoot-length}
use cryptpilot.VerityCore.Digest.Correct.{
  capacity, descriptor_of, measure-IsRoot, config-Fits, same_block_size,
}
use cryptpilot.VerityCore.Tree.{rebuild_root_hash}
use cryptpilot.VerityCore.Tree.Rebuild.{rebuild-measure}
use cryptpilot.VerityFuse.FileInfo.{FileVerityInfo, SelfResult, verify_self}

module _ {d : InnerHash} (laws : HashLaws d) (size : ℕ) (salt : List ℕ) {config : FsVerityConfig d}
    (made : config_new d size salt ≡ some config) where
  -- The descriptor gives back the block size of the digest that made it.
  pub block_size-descriptor_of :
      (n : ℕ) (root : List ℕ) → block_size (descriptor_of d salt size n root) ≡ size
  unfolding block_size
  block_size-descriptor_of n root =
      let fits = config-Fits laws size salt made in
      let power : size ≡ 2 ^ fits.log =
        sym (same_block_size laws size salt made) ∙ fits.block_size_pow in
      let zeros : trailing_zeros size ≡ fits.log =
        ap trailing_zeros power ∙ trailing_zeros-pow fits.log fits.log_small in
      ap (λ (k : ℕ). 2 ^ (k % 256 % 64)) zeros
      ∙ ap (λ (k : ℕ). 2 ^ k)
          (let small : fits.log % 256 % 64 ≡ fits.log = omega (arith, fits.log_small) in small)
      ∙ sym power

module _ {d : InnerHash} (laws : HashLaws d) (hex : List ℕ → String) where
  -- The stored hash is that of the descriptor, and the tree rebuilds to its root hash.
  abbrev pub Consistent : FileVerityInfo → Type 0
  Consistent info =
      (hash : List ℕ) × (to_descriptor_hash d info.descriptor ≡ some hash)
      × (hex hash ≡ info.descriptor_hash)
      × (rebuild_root_hash d info.merkle_tree info.descriptor.salt (block_size info.descriptor)
          ≡ some info.descriptor.root_hash)

  Consistent-of_valid :
      (info : FileVerityInfo) → verify_self d hex info ≡ some SelfResult.valid → Consistent info
  unfolding verify_self
  Consistent-of_valid info h = elim (Option-cases (to_descriptor_hash d info.descriptor)) [
    | inl panic ↦ absurd (ground arith)
    | inr (hash, hashed) ↦
        elim (Option-cases (
          rebuild_root_hash d info.merkle_tree info.descriptor.salt (block_size info.descriptor))) [
            | inl panic ↦ absurd (ground arith)
            | inr (root, rebuilt) ↦
                let same_root : bytes_eq root info.descriptor.root_hash ≡ true = ground arith in
                let same_text : text_eq (hex hash) info.descriptor_hash ≡ true = ground arith in
                (
                  hash,
                  hashed,
                  (eq_iff (hex hash) info.descriptor_hash).0 same_text,
                  rebuilt ∙ ap some (bytes_eq→eq root info.descriptor.root_hash same_root),
                )
          ]
  ]

  valid_of_Consistent :
      (info : FileVerityInfo) → Consistent info → verify_self d hex info ≡ some SelfResult.valid
  unfolding verify_self
  valid_of_Consistent info (hash, hashed, stored, rebuilt) = rw hashed (
      rw ((eq_iff (hex hash) info.descriptor_hash).1 stored)
        (rw rebuilt (rw (bytes_eq_refl info.descriptor.root_hash))))

  -- `verify_self` accepts exactly the information whose stored hash is the text of the hash of the
  -- descriptor and whose tree rebuilds to the root hash of the descriptor.
  pub verify_self-Consistent :
      (info : FileVerityInfo) → (verify_self d hex info ≡ some SelfResult.valid) ↔ Consistent info
  verify_self-Consistent info = (Consistent-of_valid info, valid_of_Consistent info)

  module _ (size : ℕ) (salt : List ℕ) {config : FsVerityConfig d}
      (made : config_new d size salt ≡ some config) where
    -- For a valid configuration and an input that the levels can count, the descriptor that the
    -- digest makes has a hash, and with the text of that hash descriptor and tree pass
    -- `verify_self`, under any path.
    pub verify_self-measure :
        (pieces : List (List ℕ)) (path : String) {descriptor : FsVerityDescriptor}
        {tree : MerkleTree}
        → length (concat pieces) ≤ capacity d size
        → measure d salt size pieces ≡ some (descriptor, tree)
        → (hash : List ℕ) × (to_descriptor_hash d descriptor ≡ some hash)
          × (verify_self d hex (record {
            path = path;
            descriptor = descriptor;
            merkle_tree = tree;
            descriptor_hash = hex hash;
          })
              ≡ some SelfResult.valid)
    verify_self-measure pieces path {descriptor} {tree} counts run =
        let (root, tree', run', is_root, recorded) =
          measure-IsRoot laws size salt made pieces counts in
        let same = some_eq (sym run ∙ run') in
        let facts = config_new_facts laws config size salt made in
        let n = length (concat pieces) in
        let descriptor_eq : descriptor ≡ descriptor_of d salt size n root =
          ap (λ (t : FsVerityDescriptor × MerkleTree). t.0) same in
        let same_salt : descriptor.salt ≡ salt =
          ap (λ (t : FsVerityDescriptor). t.salt) descriptor_eq in
        let same_size : block_size descriptor ≡ size =
          ap block_size descriptor_eq ∙ block_size-descriptor_of laws size salt made n root in
        let hashed =
          to_descriptor_hash_lem laws descriptor {s = config.salted_digest}
            (ap (salt_to_digest d) same_salt ∙ facts.5)
            (omega (
              arith,
              ap (λ (t : FsVerityDescriptor). length t.root_hash) descriptor_eq,
              IsRoot-length laws config (config-Fits laws size salt made) is_root,
              config_new_output laws config size salt made,
            ))
            (omega (arith, ap (length {A = ℕ}) same_salt, facts.0)) in
        (
          d.finalize (d.update config.salted_digest (layout descriptor)),
          hashed.0,
          valid_of_Consistent _ (
            d.finalize (d.update config.salted_digest (layout descriptor)),
            hashed.0,
            refl,
            ap (λ (t : List ℕ). rebuild_root_hash d tree t (block_size descriptor)) same_salt
                ∙ ap (rebuild_root_hash d tree salt) same_size
                ∙ rebuild-measure laws size salt made pieces counts run,
          ),
        )
