-- ===== src/VerityFuse/Filesystem/Attributes.antt =====
-- The metadata calls of verity-fuse/src/filesystem.rs: lookup, getattr and readdir.
pub mod Listing
pub mod Sizes
use Prim.Native.String.{String}
use cryptpilot.Prelude.{
  ℕ, zero, suc, ◌+◌, ◌*◌, ◌/◌, ◌%◌, ◌^◌, Bool, true, false, Option, none, some, List, [], ◌∷◌, ◌++◌,
  ◌==◌, ltb, if◌then◌else◌, drop,
}
use cryptpilot.Prelude.Int.{ℤ, to_nat, at_most}
use cryptpilot.VerityFuse.Outcome.{
  Outcome, ok, err, fault, enoent, eio, enotdir, einval, eopnotsupp,
}
use cryptpilot.VerityFuse.Paths.{RelativePaths}
use cryptpilot.VerityFuse.Source.{
  IoResult, done, failed, FileKind, is_dir, is_file, is_symlink, is_other, Metadata, DirEntry,
  Source,
}
use cryptpilot.VerityFuse.Verifier.{
  FsEntry, VerityVerifier, entry_path, expected_size, lookup_by_ino, lookup_by_path,
}
use cryptpilot.VerityFuse.Filesystem.{Runtime, VerityFs, Call, and_then, errno_of}

abbrev pub fs_block_size : ℕ
fs_block_size = 4096

pub data FileType : Type 0 where
  directory_type regular_file symlink : FileType

pub record FileAttr : Type 0 where
  pub ino : ℕ
  pub size : ℕ
  pub block_count : ℕ
  pub atime : ℕ
  pub mtime : ℕ
  pub ctime : ℕ
  pub crtime : ℕ
  pub kind : FileType
  pub perm : ℕ
  pub nlink : ℕ
  pub uid : ℕ
  pub gid : ℕ
  pub rdev : ℕ
  pub flags : ℕ
  pub blksize : ℕ

abbrev pub file_type : FileKind → Option FileType
file_type is_dir = some FileType.directory_type
file_type is_file = some FileType.regular_file
file_type is_symlink = some FileType.symlink
file_type is_other = none

-- `unwrap_or_else(|_| SystemTime::now())`.
abbrev pub time_or : ℕ → Option ℕ → ℕ
time_or now none = now
time_or now (some x) = x

-- The attributes of a file of a kind.
abbrev pub attr_of : ℕ → ℕ → Metadata → FileType → FileAttr
attr_of now ino metadata kind = record {
  ino = ino;
  size = metadata.len;
  block_count = metadata.len / 512 + 1;
  atime = time_or now metadata.accessed;
  mtime = time_or now metadata.modified;
  ctime = time_or now metadata.created;
  crtime = time_or now metadata.created;
  kind = kind;
  perm = metadata.mode % 512;
  nlink = metadata.nlink % 2 ^ 32;
  uid = metadata.uid;
  gid = metadata.gid;
  rdev = 0;
  flags = 0;
  blksize = fs_block_size;
}

-- `metadata_to_attr`, with the time that the clock shows.
unfoldable pub metadata_to_attr : ℕ → Metadata → ℕ → Outcome FileAttr
metadata_to_attr now metadata ino = elim (file_type metadata.kind) [
  | none ↦ Outcome.err eopnotsupp
  | some kind ↦ Outcome.ok (attr_of now ino metadata kind)
]

-- Whether the size of an item of this kind is checked.
abbrev pub has_size : FileKind → Bool
has_size is_dir = false
has_size is_file = true
has_size is_symlink = true
has_size is_other = false

-- `check_metadata_file_size`.
unfoldable pub check_metadata_file_size :
    {r : RelativePaths} → FsEntry r → Metadata → Outcome (Unit {0})
check_metadata_file_size file metadata =
    if has_size metadata.kind
    then elim (expected_size file) [
      | none ↦ Outcome.err eio
      | some expected ↦ if metadata.len == expected then Outcome.ok tt else Outcome.err eio
    ]
    else Outcome.ok tt

module _ (t : Runtime) where
  -- A result that changes nothing.
  abbrev pub lift : {A : Type 0} → VerityFs t → Outcome A → Call t A
  lift fs o = (fs, o)

  unfoldable pub get_metadata : FsEntry t.paths → VerityFs t → Call t Metadata
  get_metadata file fs =
      let (w, res) = t.source.symlink_metadata fs.world (entry_path file) in
      elim res [
        | failed e ↦ (record fs { world = w }, err (errno_of t e))
        | done metadata ↦
            and_then t (lift (record fs { world = w }) (check_metadata_file_size file metadata))
              (λ fs' _. (fs', ok metadata))
      ]

  -- `Filesystem::getattr`.
  unfoldable pub getattr : ℕ → VerityFs t → Call t FileAttr
  getattr ino fs = elim (lookup_by_ino fs.verifier ino) [
    | none ↦ (fs, err enoent)
    | some file ↦
        and_then t (get_metadata file fs)
          (λ fs' metadata. (fs', metadata_to_attr (t.source.now fs'.world) metadata ino))
  ]

  -- `Filesystem::lookup`, of a name in a directory.
  unfoldable pub lookup_entry : ℕ → String → VerityFs t → Call t FileAttr
  lookup_entry parent name fs = elim (lookup_by_ino fs.verifier parent) [
    | none ↦ (fs, err enoent)
    | some parent_file ↦ elim (t.paths.from_path name) [
      | none ↦ (fs, err einval)
      | some path ↦ elim (lookup_by_path fs.verifier (t.paths.join (entry_path parent_file) path)) [
        | none ↦ (fs, err enoent)
        | some child ↦
            and_then t (get_metadata child fs)
              (λ fs' metadata. (fs', metadata_to_attr (t.source.now fs'.world) metadata child.ino))
      ]
    ]
  ]

-- An entry of a listing.
pub record Listed : Type 0 where
  pub ino : ℕ
  pub kind : FileType
  pub name : String

module _ {r : RelativePaths} where
  -- The closure of `readdir` for an entry of the directory: what it pushes, if anything.
  unfoldable pub list_entry : VerityVerifier r → r.RelPath → DirEntry → Option Listed
  list_entry verifier dir_path entry = elim (r.from_path entry.file_name) [
    | none ↦ none
    | some path ↦ elim entry.metadata [
      | failed _ ↦ none
      | done metadata ↦ elim (lookup_by_path verifier (r.join dir_path path)) [
        | none ↦ none
        | some child ↦ elim (check_metadata_file_size child metadata) [
          | err _ ↦ none
          | fault ↦ none
          | ok _ ↦ elim (file_type metadata.kind) [
            | none ↦ none
            | some kind ↦ some (record { ino = child.ino; kind = kind; name = entry.file_name })
          ]
        ]
      ]
    ]
  ]

  -- `dir_iter.flatten().for_each(...)`.
  unfoldable pub list_entries : VerityVerifier r → r.RelPath → List (Option DirEntry) → List Listed
  list_entries verifier dir_path [] = []
  list_entries verifier dir_path (none ∷ rest) = list_entries verifier dir_path rest
  list_entries verifier dir_path (some entry ∷ rest) =
      let later = list_entries verifier dir_path rest in
      elim (list_entry verifier dir_path entry) [ none ↦ later | some listed ↦ listed ∷ later ]

-- The entries for the directory itself and the one above it.
unfoldable pub dot_entries : ℕ → ℤ → List Listed
dot_entries ino offset =
    (if at_most offset 0
      then record { ino = ino; kind = FileType.directory_type; name = "." } ∷ []
      else [])
    ++ (if at_most offset 1
        then record { ino = ino; kind = FileType.directory_type; name = ".." } ∷ []
        else [])

-- The loop over `reply.add`: `full` tells whether the buffer of the reply has no room for an entry
-- after the given ones. The entries of the reply have the offsets at which a listing goes on.
unfoldable pub add_entries :
    (List (ℕ × Listed) → Listed → Bool) → ℕ → List (ℕ × Listed) → List Listed → List (ℕ × Listed)
add_entries full index added [] = added
add_entries full index added (entry ∷ rest) =
    if full added entry
    then added
    else add_entries full (index + 1) (added ++ (index, entry) ∷ []) rest

module _ (t : Runtime) where
  -- The entries of the directory that `readdir` collects.
  unfoldable pub dir_children : ℕ → VerityFs t → Call t (List Listed)
  dir_children ino fs = elim (lookup_by_ino fs.verifier ino) [
    | none ↦ (fs, err enoent)
    | some file ↦ and_then t (get_metadata t file fs) (λ fs' metadata. elim metadata.kind [
      | is_dir ↦
          let (w, res) = t.source.read_dir fs'.world (entry_path file) in
          elim res [
            | failed e ↦ (record fs' { world = w }, err (errno_of t e))
            | done items ↦
                (record fs' { world = w }, ok (list_entries fs'.verifier (entry_path file) items))
          ]
      | _ ↦ (fs', err enotdir)
    ])
  ]

  -- All entries that `readdir` collects, after those for the directory and the one above it.
  unfoldable pub dir_entries : ℕ → ℤ → VerityFs t → Call t (List Listed)
  dir_entries ino offset fs =
      and_then t (dir_children ino fs)
        (λ fs' children. (fs', ok (dot_entries ino offset ++ children)))

  -- `Filesystem::readdir`.
  unfoldable pub readdir :
      (List (ℕ × Listed) → Listed → Bool) → ℕ → ℤ → VerityFs t → Call t (List (ℕ × Listed))
  readdir full ino offset fs =
      let start = to_nat offset in
      and_then t (dir_entries ino offset fs)
        (λ fs' entries. (fs', ok (add_entries full (start + 1) [] (drop start entries))))
