-- ===== src/VerityFuse/Verifier/Blocks.antt =====
-- `verify_data_block` of the entries of verity-fuse/src/file_verifier/verity_verifier.rs.
use cryptpilot.Prelude.{ℕ, ◌<◌, ◌^◌, some_eq, arith, ◌≡◌, ◌≢◌, none, some, List, refl, inl, inr}
use cryptpilot.VerityCore.Hash.{InnerHash, HashLaws}
use cryptpilot.VerityCore.Descriptor.{block_size}
use cryptpilot.VerityCore.Tree.Verify.{verify_data_block-Accepts}
use cryptpilot.VerityCore.Tree.{verify_data_block}
use cryptpilot.VerityFuse.FileInfo.{FileVerityInfo}
use cryptpilot.VerityFuse.Paths.{RelativePaths}
use cryptpilot.VerityFuse.Verifier.{
  EntryKind, verity_enabled, directory, FsEntry, verify_kind, entry_verify, kind_block_size,
  entry_block_size,
}

module _ {r : RelativePaths} {d : InnerHash} (laws : HashLaws d) where
  verify_kind-returns :
      (kind : EntryKind r) (index : ℕ) (content : List ℕ) → verify_kind d kind index content ≢ none
  unfolding verify_kind
  verify_kind-returns (verity_enabled info) index content e =
      elim (verify_data_block-Accepts laws info.merkle_tree index (block_size info.descriptor)
        content) [ inl t ↦ cc (t.0, e) | inr f ↦ cc (f.0, e) ]
  verify_kind-returns (directory path) index content e = cc e

  -- The check of a block of an entry never panics.
  pub entry_verify-returns :
      (e : FsEntry r) (index : ℕ) (content : List ℕ) → entry_verify d e index content ≢ none
  unfolding entry_verify
  entry_verify-returns e index content = verify_kind-returns e.kind index content

module _ {r : RelativePaths} where
  kind_block_size-bound : (kind : EntryKind r) (b : ℕ) → kind_block_size kind ≡ some b → b < 2 ^ 32
  unfolding kind_block_size
  kind_block_size-bound (verity_enabled info) b e = omega (arith, some_eq e)
  kind_block_size-bound (directory path) b e = cc e

  -- A block size has 32 bits.
  pub entry_block_size-bound : (e : FsEntry r) (b : ℕ) → entry_block_size e ≡ some b → b < 2 ^ 32
  unfolding entry_block_size
  entry_block_size-bound e b h = kind_block_size-bound e.kind b h

module _ (r : RelativePaths) (d : InnerHash) (ino : ℕ) (info : FileVerityInfo) where
  abbrev pub file_of : FsEntry r
  file_of = record { ino = ino; kind = EntryKind.verity_enabled info }

  -- A file checks a block against its own tree.
  pub entry_verify-file :
      (index : ℕ) (content : List ℕ)
      → entry_verify {r = r} d file_of index content
        ≡ verify_data_block d info.merkle_tree index (block_size info.descriptor) content
  unfolding entry_verify verify_kind
  entry_verify-file index content = refl
