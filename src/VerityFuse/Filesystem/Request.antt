-- ===== src/VerityFuse/Filesystem/Request.antt =====
-- The requests of `read` of verity-fuse/src/filesystem.rs: its checks, and what it answers.
use cryptpilot.Prelude.{
  ℕ, ◌+◌, ◌^◌, ◌≤◌, ◌<◌, ◌≡◌, refl, sym, ap, ◌∙◌, subst, true, false, Bool-cases, none, some,
  Option-cases, List, [], ◌==◌, ==_iff, arith, inl, inr, ◌⊎◌,
}
use cryptpilot.Prelude.Int.{ℤ, pos, negsuc, to_nat}
use cryptpilot.VerityFuse.Paths.{RelativePaths}
use cryptpilot.VerityFuse.Outcome.{Outcome, eisdir, einval}
use cryptpilot.VerityFuse.Verifier.{FsEntry, entry_block_size, lookup_by_ino}
use cryptpilot.VerityFuse.Verifier.Blocks.{entry_block_size-bound}
use cryptpilot.VerityFuse.Verifier.Register.{IsValid}
use cryptpilot.VerityFuse.Filesystem.{Runtime, VerityFs, read_range, read_file, read}
use cryptpilot.VerityFuse.Filesystem.Sound.{
  RuntimeLaws, Verified, IsSound, Kept-refl, Good, Ends-map,
}
use cryptpilot.VerityFuse.Filesystem.Read.{Answer, read_range-Good}

-- What a read of a file may answer, if `Valid` says which blocks it has.
abbrev pub FileAnswer :
    {r : RelativePaths} → FsEntry r → (ℕ → List ℕ → Type 0) → ℤ → ℕ → List ℕ → Type 0
FileAnswer file Valid offset size out =
    ((size ≡ 0) × (out ≡ []))
    ⊎ ((block_size : ℕ) × (entry_block_size file ≡ some block_size)
        × Answer Valid block_size (to_nat offset) size out)

module _ {t : Runtime} (laws : RuntimeLaws t) (fuel : ℕ) (file : FsEntry t.paths) (fs : VerityFs t)
    (sound : IsSound laws fs) (known : lookup_by_ino fs.verifier file.ino ≡ some file)
    (enough : 2 ^ 32 + laws.source_laws.patience fs.world ≤ fuel) where
  module _ (offset size : ℕ) where
    empty_request :
        (size == 0) ≡ true → read_file t fuel file (ℤ.pos offset) size fs ≡ (fs, Outcome.ok [])
    unfolding read_file
    empty_request e = rw e refl

    module _ (some_size : (size == 0) ≡ false) where
      of_directory :
          entry_block_size file ≡ none
          → read_file t fuel file (ℤ.pos offset) size fs ≡ (fs, Outcome.err eisdir)
      unfolding read_file
      of_directory e = rw some_size (rw e refl)

      no_block_size :
          {b : ℕ}
          → entry_block_size file ≡ some b
          → (b == 0) ≡ true
          → read_file t fuel file (ℤ.pos offset) size fs ≡ (fs, Outcome.err einval)
      unfolding read_file
      no_block_size e z = rw some_size (rw e (rw z refl))

      in_range :
          {b : ℕ}
          → entry_block_size file ≡ some b
          → (b == 0) ≡ false
          → read_file t fuel file (ℤ.pos offset) size fs ≡ read_range t fuel file b offset size fs
      unfolding read_file
      in_range e z = rw some_size (rw e (rw z refl))

  positive : (n : ℕ) → (n == 0) ≡ false → 0 < n
  positive n h = ground arith

  abbrev FileGood : ℤ → ℕ → Type 0
  FileGood offset size =
      Good laws (FileAnswer file (Verified t file) offset size) fs
        (read_file t fuel file offset size fs)

  read_file-some :
      (offset size b : ℕ)
      → (size == 0) ≡ false
      → entry_block_size file ≡ some b
      → FileGood (ℤ.pos offset) size
  read_file-some offset size b some_size e = elim (Bool-cases (b == 0)) [
    | inl z ↦
        subst (Good laws (FileAnswer file (Verified t file) (ℤ.pos offset) size) fs)
          (sym (no_block_size offset size some_size e z)) (Kept-refl laws fs sound, tt)
    | inr z ↦
        subst (Good laws (FileAnswer file (Verified t file) (ℤ.pos offset) size) fs)
          (sym (in_range offset size some_size e z))
          (let (kept, ends) =
              read_range-Good laws fuel file fs sound known enough b offset size (positive b z)
                (entry_block_size-bound file b e) (positive size some_size) in
            (
              kept,
              Ends-map laws (Answer (Verified t file) b offset size)
                  (FileAnswer file (Verified t file) (ℤ.pos offset) size)
                  (λ out answer. inr (b, e, answer)) _ ends,
            ))
  ]

  read_file-Good : (offset : ℤ) (size : ℕ) → FileGood offset size
  read_file-Good (negsuc n) size = unfold read_file in (Kept-refl laws fs sound, tt)
  read_file-Good (pos offset) size = elim (Bool-cases (size == 0)) [
    | inl zero_size ↦
        subst (Good laws (FileAnswer file (Verified t file) (ℤ.pos offset) size) fs)
          (sym (empty_request offset size zero_size))
          (Kept-refl laws fs sound, inl ((==_iff size 0).0 zero_size, refl))
    | inr some_size ↦ elim (Option-cases (entry_block_size file)) [
      | inl no_blocks ↦
          subst (Good laws (FileAnswer file (Verified t file) (ℤ.pos offset) size) fs)
            (sym (of_directory offset size some_size no_blocks)) (Kept-refl laws fs sound, tt)
      | inr (b, e) ↦ read_file-some offset size b some_size e
    ]
  ]

module _ {t : Runtime} (laws : RuntimeLaws t) (fuel : ℕ) (fs : VerityFs t) where
  -- What `read` may answer for an inode number.
  abbrev pub ReadAnswer : ℕ → ℤ → ℕ → List ℕ → Type 0
  ReadAnswer ino offset size out =
      (file : FsEntry t.paths) × (lookup_by_ino fs.verifier ino ≡ some file)
      × FileAnswer file (Verified t file) offset size out

  read_unknown :
      (ino : ℕ) (offset : ℤ) (size : ℕ)
      → lookup_by_ino fs.verifier ino ≡ none
      → read t fuel ino offset size fs ≡ (fs, Outcome.err einval)
  unfolding read
  read_unknown ino offset size e = rw (e, read) refl

  read_known :
      {file : FsEntry t.paths} (ino : ℕ) (offset : ℤ) (size : ℕ)
      → lookup_by_ino fs.verifier ino ≡ some file
      → read t fuel ino offset size fs ≡ read_file t fuel file offset size fs
  unfolding read
  read_known ino offset size e = rw (e, read) refl

  own_number :
      {file : FsEntry t.paths} (ino : ℕ)
      → IsValid fs.verifier
      → lookup_by_ino fs.verifier ino ≡ some file
      → file.ino ≡ ino
  unfolding lookup_by_ino
  own_number {file} ino valid e = (valid.numbered ino file e).1

  -- With fuel for a block and for the interrupts that are left, a read of a file system with a valid
  -- verifier and valid blocks in its cache returns and keeps the cache valid. If it answers with bytes,
  -- then the request was empty, or they are, byte for byte, those at the places that the request asks
  -- for of blocks that reach to its end, all of which are valid for the file with the number.
  pub read-IsSound :
      IsSound laws fs
      → IsValid fs.verifier
      → 2 ^ 32 + laws.source_laws.patience fs.world ≤ fuel
      → (ino : ℕ) (offset : ℤ) (size : ℕ)
      → Good laws (ReadAnswer ino offset size) fs (read t fuel ino offset size fs)
  read-IsSound sound valid enough ino offset size =
      elim (Option-cases (lookup_by_ino fs.verifier ino)) [
        | inl unknown ↦
            subst (Good laws (ReadAnswer ino offset size) fs)
              (sym (read_unknown ino offset size unknown)) (Kept-refl laws fs sound, tt)
        | inr (file, found) ↦
            subst (Good laws (ReadAnswer ino offset size) fs)
              (sym (read_known ino offset size found))
              (let (kept, ends) =
                  read_file-Good laws fuel file fs sound
                    (ap (lookup_by_ino fs.verifier) (own_number ino valid found) ∙ found) enough
                    offset size in
                (
                  kept,
                  Ends-map laws (FileAnswer file (Verified t file) offset size)
                      (ReadAnswer ino offset size) (λ out answer. (file, found, answer)) _ ends,
                ))
      ]
