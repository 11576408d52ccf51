-- ===== src/VerityFuse/Filesystem/Read.antt =====
-- `read` of verity-fuse/src/filesystem.rs returns, and gives bytes of valid blocks only.
use cryptpilot.Prelude.{
  div_ceil, ℕ, zero, suc, ◌+◌, ◌-◌, ◌*◌, ◌/◌, ◌^◌, ◌≤◌, ◌<◌, ◌≡◌, refl, sym, ap, ◌∙◌, subst, min,
  max, false, some, List, [], ◌++◌, append-nil, append_assoc, leb, arith,
}
use native.Mathlib.Nat.{lt-div-mul-add}
use cryptpilot.VerityFuse.Outcome.{ok}
use cryptpilot.VerityFuse.Verifier.{FsEntry, VerityVerifier, lookup_by_ino}
use cryptpilot.VerityFuse.Filesystem.{
  Runtime, VerityFs, and_then, open_file_cached, block_data, block_slice, read_block, read_blocks,
  read_range,
}
use cryptpilot.VerityFuse.Filesystem.Slice.{requested, block_slice-requested}
use cryptpilot.VerityFuse.Filesystem.Range.{blocks_end, blocks_reach, overlap}
use cryptpilot.VerityFuse.Filesystem.Sound.{
  RuntimeLaws, Verified, IsSound, Kept-refl, Good, and_then-Good, Ends-map, block_data-Good,
}
use cryptpilot.VerityFuse.Filesystem.Opening.{open_file_cached-Good}

-- `Served Valid size from end idx n out`: `out` holds, of `n` blocks from number `idx` on, one after the
-- other, the bytes at the places from `from` to `end`, where block `idx` has the `size` places from
-- `idx * size` on, and all of the blocks satisfy `Valid`.
pub data Served (Valid : ℕ → List ℕ → Type 0) (size from end : ℕ) : ℕ → ℕ → List ℕ → Type 0 where
  nothing : {idx : ℕ} → Served Valid size from end idx 0 []
  block :
      {idx n : ℕ} {rest out : List ℕ} (content : List ℕ)
      → Valid idx content
      → out ≡ requested from (min end (idx * size + size)) (idx * size) content ++ rest
      → Served Valid size from end (idx + 1) n rest
      → Served Valid size from end idx (suc n) out

module _ {t : Runtime} (laws : RuntimeLaws t) (fuel : ℕ) (file : FsEntry t.paths)
    (size from end : ℕ) (some_byte : 0 < size) (some_request : from < end) where
  abbrev Blocks : ℕ → ℕ → List ℕ → Type 0
  Blocks = Served (Verified t file) size from end

  -- What one block adds.
  abbrev Piece : ℕ → List ℕ → Type 0
  Piece idx piece =
      (content : List ℕ) × Verified t file idx content
      × (piece ≡ requested from (min end (idx * size + size)) (idx * size) content)

  module _ (handle : t.source.Handle) (idx : ℕ) (fs : VerityFs t) where
    overlapping :
        leb (min end (idx * size + size)) (max from (idx * size)) ≡ false
        → read_block t fuel file handle size from end idx fs
          ≡ and_then t (block_data t fuel file handle size idx fs) (λ fs' content. (
            fs',
            ok (
                block_slice
                  (idx * size)
                  (max from (idx * size))
                  (min end (idx * size + size))
                  content),
          ))
    unfolding read_block
    overlapping e = rw (e, read_block) refl

    read_block-Good :
        IsSound laws fs
        → lookup_by_ino fs.verifier file.ino ≡ some file
        → size + laws.source_laws.patience fs.world < fuel
        → from < idx * size + size
        → idx * size < end
        → Good laws (Piece idx) fs (read_block t fuel file handle size from end idx fs)
    read_block-Good sound known enough starts ends =
        subst (Good laws (Piece idx) fs)
          (sym
            (overlapping (overlap from end (idx * size) size starts ends some_request some_byte)))
          (and_then-Good laws (Verified t file idx) (Piece idx)
            (block_data t fuel file handle size idx fs) _
            (block_data-Good laws fs sound file known handle fuel size idx enough)
            (λ fs' content kept valid. (
              Kept-refl laws fs' kept.sound,
              (
                content,
                valid,
                block_slice-requested from (min end (idx * size + size)) (idx * size) (omega arith)
                    (omega arith) content,
              ),
            )))

  -- The loop adds `n` blocks to the output.
  abbrev Added : ℕ → ℕ → List ℕ → List ℕ → Type 0
  Added idx n output out = (rest : List ℕ) × (out ≡ output ++ rest) × Blocks idx n rest

  read_blocks-Good :
      (handle : t.source.Handle) (n idx : ℕ) (output : List ℕ) (fs : VerityFs t)
      → IsSound laws fs
      → lookup_by_ino fs.verifier file.ino ≡ some file
      → size + laws.source_laws.patience fs.world < fuel
      → from < idx * size + size
      → (idx + n) * size < end + size
      → Good laws
          (Added idx n output)
          fs
          (read_blocks t fuel file handle size from end n idx output fs)
  unfolding read_blocks
  read_blocks-Good handle zero idx output fs sound known enough starts ends =
      (Kept-refl laws fs sound, ([], sym (append-nil output), Served.nothing))
  read_blocks-Good handle (suc n) idx output fs sound known enough starts ends =
      and_then-Good laws (Piece idx) (Added idx (suc n) output)
        (read_block t fuel file handle size from end idx fs) _
        (read_block-Good handle idx fs sound known enough starts (omega arith))
        (λ fs' piece kept (content, valid, e).
          let (kept', ends') =
            read_blocks-Good handle n (idx + 1) (output ++ piece) fs' kept.sound
              (ap (λ (v : VerityVerifier t.paths). lookup_by_ino v file.ino) kept.same_verifier
                ∙ known)
              (omega (arith, kept.patient)) (omega arith) (omega arith) in
          (
            kept',
            Ends-map laws (Added (idx + 1) n (output ++ piece)) (Added idx (suc n) output)
                (λ out (rest, same, served). (
                  piece ++ rest,
                  same ∙ append_assoc output piece rest,
                  Served.block content valid (ap (λ (p : List ℕ). p ++ rest) e) served,
                ))
                _ ends',
          ))

-- The request: all bytes from `offset` on, taken of the blocks that hold them. An empty request has no
-- bytes.
abbrev pub Answer : (ℕ → List ℕ → Type 0) → ℕ → ℕ → ℕ → List ℕ → Type 0
Answer Valid block_size offset size out =
    (n : ℕ) × (offset + size ≤ (offset / block_size + n) * block_size)
    × Served Valid block_size offset (offset + size) (offset / block_size) n out

module _ {t : Runtime} (laws : RuntimeLaws t) (fuel : ℕ) (file : FsEntry t.paths) (fs : VerityFs t)
    (sound : IsSound laws fs) (known : lookup_by_ino fs.verifier file.ino ≡ some file)
    (enough : 2 ^ 32 + laws.source_laws.patience fs.world ≤ fuel) where
  pub read_range-Good :
      (block_size offset size : ℕ)
      → 0 < block_size
      → block_size < 2 ^ 32
      → 0 < size
      → Good laws
          (Answer (Verified t file) block_size offset size)
          fs
          (read_range t fuel file block_size offset size fs)
  unfolding read_range
  read_range-Good block_size offset size some_byte small some_size =
      let n = div_ceil (offset + size) block_size - offset / block_size in
      and_then-Good laws (λ (h : t.source.Handle). Unit)
        (Answer (Verified t file) block_size offset size) (open_file_cached t file fs) _
        (open_file_cached-Good laws fs sound file)
        (λ fs' handle kept _.
          let (kept', ends) =
            read_blocks-Good laws fuel file block_size offset (offset + size) some_byte
              (omega arith) handle n (offset / block_size) [] fs' kept.sound
              (ap (λ (v : VerityVerifier t.paths). lookup_by_ino v file.ino) kept.same_verifier
                ∙ known)
              (omega (arith, kept.patient)) (lt-div-mul-add some_byte)
              (blocks_end offset size block_size some_byte) in
          (
            kept',
            Ends-map laws
                (Added laws fuel file block_size offset (offset + size) some_byte (omega arith)
                  (offset / block_size) n [])
                (Answer (Verified t file) block_size offset size)
                (λ out (rest, same, served). (
                  n,
                  blocks_reach offset size block_size some_byte,
                  subst
                      (Served (Verified t file) block_size offset (offset + size)
                        (offset / block_size) n)
                      (sym same) served,
                ))
                _ ends,
          ))
