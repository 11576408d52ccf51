-- ===== src/VerityFuse/Filesystem/Authentic.antt =====
-- `read` of verity-fuse/src/filesystem.rs gives the bytes of the file that was measured.
use Prim.Native.String.{String}
use cryptpilot.Prelude.{
  ℕ, ◌+◌, ◌^◌, ◌≤◌, ◌≡◌, sym, ap, ◌∙◌, subst, some, some_eq, List, [], chunks, concat, get_elem?,
  length, inl, inr, ◌⊎◌,
}
use cryptpilot.Prelude.Int.{ℤ}
use cryptpilot.VerityCore.Block.{FsVerityConfig, config_new}
use cryptpilot.VerityCore.Merkle.{MerkleTree}
use cryptpilot.VerityCore.Descriptor.{FsVerityDescriptor, block_size}
use cryptpilot.VerityCore.Digest.{measure}
use cryptpilot.VerityCore.Digest.Correct.{capacity, measure-IsRoot}
use cryptpilot.VerityCore.Tree.{verify_data_block}
use cryptpilot.VerityCore.Tree.Verify.{Collision, padded, verify-measure_tampered}
use cryptpilot.VerityFuse.Paths.{RelativePaths}
use cryptpilot.VerityFuse.FileInfo.SelfCheck.{block_size-descriptor_of}
use cryptpilot.VerityFuse.Verifier.{FsEntry, lookup_by_ino}
use cryptpilot.VerityFuse.Verifier.Blocks.{file_of, entry_verify-file}
use cryptpilot.VerityFuse.Verifier.Register.{IsValid}
use cryptpilot.VerityFuse.Filesystem.{Runtime, VerityFs, read}
use cryptpilot.VerityFuse.Filesystem.Sound.{RuntimeLaws, Verified, IsSound, Good, Ends-map}
use cryptpilot.VerityFuse.Filesystem.Read.{Served, nothing, block}
use cryptpilot.VerityFuse.Filesystem.Request.{FileAnswer, ReadAnswer, read-IsSound}

module _ {V W : ℕ → List ℕ → Type 0}
    (go : (idx : ℕ) (content : List ℕ) → V idx content → W idx content) where
  Served-map :
      {size from end idx n : ℕ} {out : List ℕ}
      → Served V size from end idx n out
      → Served W size from end idx n out
  Served-map nothing = Served.nothing
  Served-map (block {idx = idx} content valid e rest) =
      Served.block content (go idx content valid) e (Served-map rest)

  FileAnswer-map :
      {r : RelativePaths} (file : FsEntry r) (offset : ℤ) (size : ℕ) (out : List ℕ)
      → FileAnswer file V offset size out
      → FileAnswer file W offset size out
  FileAnswer-map file offset size out (inl nothing_asked) = inl nothing_asked
  FileAnswer-map file offset size out (inr (b, e, (n, reach, served))) =
      inr (b, e, (n, reach, Served-map served))

module _ {t : Runtime} (laws : RuntimeLaws t) (size : ℕ) {config : FsVerityConfig t.hash}
    (made : config_new t.hash size [] ≡ some config) (pieces : List (List ℕ))
    {descriptor : FsVerityDescriptor} {tree : MerkleTree}
    (counts : length (concat pieces) ≤ capacity t.hash size)
    (run : measure t.hash [] size pieces ≡ some (descriptor, tree)) where
  -- The block of the measured input with this number, up to zero bytes at the end; or else a collision
  -- with that block.
  abbrev pub Original : ℕ → List ℕ → Type 0
  Original index content =
      (block : List ℕ) × (get_elem? (chunks size (concat pieces)) index ≡ some block)
      × (length content ≤ size)
      × ((padded size content ≡ padded size block)
          ⊎ Collision t.hash (padded size content) (padded size block))

  same_block_size : block_size descriptor ≡ size
  same_block_size =
      let (root, tree', run', is_root, recorded) =
        measure-IsRoot laws.hash_laws size [] made pieces counts in
      ap (λ (p : FsVerityDescriptor × MerkleTree). block_size p.0) (some_eq (sym run ∙ run'))
      ∙ block_size-descriptor_of laws.hash_laws size [] made (length (concat pieces)) root

  module _ (path hash : String) (ino : ℕ) where
    -- The file with the metadata of the measurement.
    abbrev pub measured_file : FsEntry t.paths
    measured_file = file_of t.paths t.hash ino (record {
      path = path;
      descriptor = descriptor;
      merkle_tree = tree;
      descriptor_hash = hash;
    })

    Original-of_Verified :
        (index : ℕ) (content : List ℕ)
        → Verified t measured_file index content
        → Original index content
    Original-of_Verified index content valid =
        verify-measure_tampered laws.hash_laws size made pieces counts run index content (
          ap (λ (b : ℕ). verify_data_block t.hash tree index b content) (sym same_block_size)
          ∙ sym (entry_verify-file t.paths t.hash ino _ index content)
          ∙ valid)

    -- Let a file stand in a valid verifier with the descriptor and the tree of a measurement without
    -- salt of bytes that the digest can count, and let the cache hold valid blocks only. With fuel for a
    -- block and for the interrupts that are left, a read of the file returns and keeps the cache valid,
    -- whatever bytes the directory below gives. If it answers with bytes, then the request was empty, or
    -- they are, byte for byte, those at the places that the request asks for of blocks that reach to its
    -- end; and each of these blocks is the measured one with the same number, up to zero bytes at its
    -- end, or differs from that one and has the same hash.
    pub read-Original :
        (fuel : ℕ) (fs : VerityFs t)
        → IsSound laws fs
        → IsValid fs.verifier
        → lookup_by_ino fs.verifier ino ≡ some measured_file
        → 2 ^ 32 + laws.source_laws.patience fs.world ≤ fuel
        → (offset : ℤ) (count : ℕ)
        → Good laws
            (FileAnswer measured_file Original offset count)
            fs
            (read t fuel ino offset count fs)
    read-Original fuel fs sound valid known enough offset count =
        let (kept, ends) = read-IsSound laws fuel fs sound valid enough ino offset count in
        (
          kept,
          Ends-map laws (ReadAnswer laws fuel fs ino offset count)
              (FileAnswer measured_file Original offset count)
              (λ out (file, found, answer).
                FileAnswer-map Original-of_Verified measured_file offset count out (
                  subst (λ (f : FsEntry t.paths). FileAnswer f (Verified t f) offset count out)
                    (some_eq (sym found ∙ known)) answer))
              _ ends,
        )
