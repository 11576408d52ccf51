-- ===== src/VerityFuse/Filesystem.antt =====
-- `VerityFS` of verity-fuse/src/filesystem.rs: the file system over a directory that is not trusted.
-- An offset is below 2^63 and a size below 2^32, as is a block size, so no sum of them reaches 2^64.
pub mod Attributes
pub mod Range
pub mod Slice
pub mod Sound
pub mod Start
pub mod Opening
pub mod Read
pub mod Request
pub mod Authentic
pub mod Session
use Prim.Native.String.{String}
use cryptpilot.Prelude.{
  ℕ, zero, suc, ◌+◌, ◌-◌, ◌*◌, ◌/◌, ◌%◌, min, max, Bool, true, false, Option, none, some, List, [],
  ◌∷◌, ◌++◌, leb, ◌==◌, if◌then◌else◌, length, take, drop, div_ceil,
}
use cryptpilot.Prelude.Int.{ℤ, is_negative, to_nat}
use cryptpilot.VerityCore.Hash.{InnerHash}
use cryptpilot.VerityFuse.Outcome.{
  Outcome, ok, err, fault, enoent, eio, eisdir, einval, eopnotsupp, enotdir,
}
use cryptpilot.VerityFuse.Paths.{RelativePaths}
use cryptpilot.VerityFuse.Source.{
  IoResult, done, failed, FileKind, is_dir, is_file, is_symlink, is_other, Metadata, DirEntry,
  Source, LruCache,
}
use cryptpilot.VerityFuse.Cache.{
  BlockKey, default_handle_cache_size, default_block_cache_size, with_capacity, pread_file_data,
  get_or_open,
}
use cryptpilot.VerityFuse.Verifier.{
  FsEntry, VerityVerifier, entry_path, expected_size, entry_block_size, entry_verify, lookup_by_ino,
  lookup_by_path,
}

-- The crates that the file system runs on.
pub record Runtime : Type 1 where
  pub hash : InnerHash
  pub paths : RelativePaths
  pub source : Source paths
  pub blocks : LruCache BlockKey (List ℕ)
  pub handles : LruCache ℕ source.Handle

-- The bytes of a block that a request takes, for the ends of the overlap.
unfoldable pub block_slice : ℕ → ℕ → ℕ → List ℕ → List ℕ
block_slice block_offset copy_start copy_end content =
    let src_start = copy_start - block_offset in
    let src_end = min (copy_end - block_offset) (length content) in
    if leb src_end src_start then [] else take (src_end - src_start) (drop src_start content)

module _ (t : Runtime) where
  -- The fields of `VerityFS`, with the world in which the directory `source` stands.
  pub record VerityFs : Type 0 where
    pub verifier : VerityVerifier t.paths
    pub block_cache : t.blocks.Cache
    pub handle_cache : t.handles.Cache
    pub world : t.source.World

  -- A call: the file system after it, and how it ended.
  abbrev pub Call : Type 0 → Type 0
  Call A = VerityFs × Outcome A

  -- `?`.
  abbrev pub and_then : {A B : Type 0} → Call A → (VerityFs → A → Call B) → Call B
  and_then (fs, ok a) f = f fs a
  and_then (fs, err e) f = (fs, err e)
  and_then (fs, fault) f = (fs, fault)

  -- `raw_os_error().unwrap_or(libc::EIO)`.
  abbrev pub errno_of : Option ℕ → ℕ
  errno_of none = eio
  errno_of (some e) = e

  -- `VerityFS::new_with_block_cache`; an error of the directory is passed on.
  unfoldable pub new_with_block_cache :
      String → VerityVerifier t.paths → ℕ → t.source.World → IoResult VerityFs
  new_with_block_cache source verifier capacity w =
      let (w', opened) = t.source.open_ambient_dir w source in
      elim opened [
        | failed e ↦ IoResult.failed e
        | done _ ↦ IoResult.done (record {
          verifier = verifier;
          block_cache = with_capacity t.blocks capacity;
          handle_cache = with_capacity t.handles default_handle_cache_size;
          world = w';
        })
      ]

  -- `VerityFS::new`.
  unfoldable pub new_fs : String → VerityVerifier t.paths → t.source.World → IoResult VerityFs
  new_fs source verifier w = new_with_block_cache source verifier default_block_cache_size w

  -- The closure of `open_file_cached`: every error of `open` is wrapped in a new one without number.
  abbrev pub wrapped : {A : Type 0} → t.source.World × IoResult A → t.source.World × IoResult A
  wrapped (w, done handle) = (w, IoResult.done handle)
  wrapped (w, failed e) = (w, IoResult.failed none)

  abbrev pub with_handle :
      VerityFs → t.handles.Cache × t.source.World × IoResult t.source.Handle → Call t.source.Handle
  with_handle fs (cache, w, done handle) =
      (record fs { handle_cache = cache; world = w }, ok handle)
  with_handle fs (cache, w, failed e) =
      (record fs { handle_cache = cache; world = w }, err (errno_of e))

  unfoldable pub open_file_cached : FsEntry t.paths → VerityFs → Call t.source.Handle
  open_file_cached file fs = with_handle fs (
      get_or_open t.source t.handles fs.handle_cache file.ino fs.world
        (λ w. wrapped (t.source.open_file w (entry_path file))))

  -- A block that is not in the cache: read, checked, and stored.
  unfoldable pub fetch_block :
      ℕ → FsEntry t.paths → t.source.Handle → ℕ → ℕ → VerityFs → Call (List ℕ)
  fetch_block fuel file handle block_size block_idx fs =
      elim (pread_file_data t.source fuel fs.world handle (block_idx * block_size) block_size) [
        | none ↦ (fs, fault)
        | some (w, failed e) ↦ (record fs { world = w }, err (errno_of e))
        | some (w, done raw_block) ↦ elim (entry_verify t.hash file block_idx raw_block) [
          | none ↦ (record fs { world = w }, fault)
          | some false ↦ (record fs { world = w }, err eio)
          | some true ↦ (
            record fs {
              block_cache =
                  t.blocks.put fs.block_cache (record { ino = file.ino; block_index = block_idx })
                    raw_block;
              world = w;
            },
            ok raw_block,
          )
        ]
      ]

  -- `block_data`: from the cache, or read.
  unfoldable pub block_data :
      ℕ → FsEntry t.paths → t.source.Handle → ℕ → ℕ → VerityFs → Call (List ℕ)
  block_data fuel file handle block_size block_idx fs =
      let (cache, hit) =
        t.blocks.get fs.block_cache (record { ino = file.ino; block_index = block_idx }) in
      elim hit [
        | some cached ↦ (record fs { block_cache = cache }, ok cached)
        | none ↦
            fetch_block fuel file handle block_size block_idx (record fs { block_cache = cache })
      ]

  -- One round of the loop over the blocks: the bytes that it appends to the output.
  unfoldable pub read_block :
      ℕ → FsEntry t.paths → t.source.Handle → ℕ → ℕ → ℕ → ℕ → VerityFs → Call (List ℕ)
  read_block fuel file handle block_size requested_offset requested_end block_idx fs =
      let block_offset = block_idx * block_size in
      let copy_start = max requested_offset block_offset in
      let copy_end = min requested_end (block_offset + block_size) in
      elim (leb copy_end copy_start) [
        | true ↦ (fs, ok [])
        | false ↦
            and_then (block_data fuel file handle block_size block_idx fs)
              (λ fs' content. (fs', ok (block_slice block_offset copy_start copy_end content)))
      ]

  -- The loop over `num_blocks` blocks from `block_idx` on, with the output so far.
  unfoldable pub read_blocks :
      ℕ → FsEntry t.paths → t.source.Handle → ℕ → ℕ → ℕ → ℕ → ℕ → List ℕ → VerityFs → Call (List ℕ)
  read_blocks fuel file handle block_size requested_offset requested_end zero block_idx output fs =
      (fs, ok output)
  read_blocks fuel file handle block_size requested_offset requested_end (suc n) block_idx output
        fs =
      and_then (read_block fuel file handle block_size requested_offset requested_end block_idx fs)
        (λ fs' piece.
          read_blocks fuel file handle block_size requested_offset requested_end n (block_idx + 1)
            (output ++ piece) fs')

  -- The part of `read_file` after the checks.
  unfoldable pub read_range : ℕ → FsEntry t.paths → ℕ → ℕ → ℕ → VerityFs → Call (List ℕ)
  read_range fuel file block_size requested_offset size fs =
      let requested_end = requested_offset + size in
      let start_block = requested_offset / block_size in
      let num_blocks = div_ceil requested_end block_size - start_block in
      and_then (open_file_cached file fs) (λ fs' handle.
        read_blocks fuel file handle block_size requested_offset requested_end num_blocks
          start_block [] fs')

  unfoldable pub read_file : ℕ → FsEntry t.paths → ℤ → ℕ → VerityFs → Call (List ℕ)
  read_file fuel file offset size fs =
      if is_negative offset
      then (fs, err einval)
      else (if size == 0 then (fs, ok []) else elim (entry_block_size file) [
        | none ↦ (fs, err eisdir)
        | some block_size ↦
            if block_size == 0
            then (fs, err einval)
            else read_range fuel file block_size (to_nat offset) size fs
      ])

  -- `Filesystem::read`.
  unfoldable pub read : ℕ → ℕ → ℤ → ℕ → VerityFs → Call (List ℕ)
  read fuel ino offset size fs = elim (lookup_by_ino fs.verifier ino) [
    | none ↦ (fs, err einval)
    | some file ↦ read_file fuel file offset size fs
  ]

  -- `Filesystem::open`.
  unfoldable pub open_entry : ℕ → VerityFs → Call (FsEntry t.paths)
  open_entry ino fs = elim (lookup_by_ino fs.verifier ino) [
    | none ↦ (fs, err enoent)
    | some file ↦ and_then (open_file_cached file fs) (λ fs' handle. (fs', ok file))
  ]

  -- `Filesystem::readlink`.
  unfoldable pub readlink : ℕ → VerityFs → Call String
  readlink ino fs = elim (lookup_by_ino fs.verifier ino) [
    | none ↦ (fs, err enoent)
    | some file ↦
        let (w, res) = t.source.read_link fs.world (entry_path file) in
        elim res [
          | failed e ↦ (record fs { world = w }, err (errno_of e))
          | done target ↦ (record fs { world = w }, ok target)
        ]
  ]
