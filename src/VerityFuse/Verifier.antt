-- ===== src/VerityFuse/Verifier.antt =====
-- `VerityVerifier` and `FsEntry` of verity-fuse/src/file_verifier/verity_verifier.rs.
pub mod Register
pub mod Parents
pub mod Files
pub mod Blocks
use Prim.Native.String.{String}
use cryptpilot.Prelude.{
  ℕ, zero, suc, ◌+◌, ◌*◌, ◌%◌, ◌^◌, Bool, true, false, Option, none, some, List, [], ◌∷◌, ◌>>=◌,
  ◌==◌, if◌then◌else◌,
}
use cryptpilot.Prelude.Dict.{lookup, insert, contains_key}
use cryptpilot.VerityCore.Config.{u64_mod}
use cryptpilot.VerityCore.Hash.{InnerHash}
use cryptpilot.VerityCore.Descriptor.{block_size}
use cryptpilot.VerityCore.Tree.{verify_data_block}
use cryptpilot.VerityFuse.Outcome.{Outcome, ok, err, fault}
use cryptpilot.VerityFuse.FileInfo.{FileVerityInfo}
use cryptpilot.VerityFuse.Paths.{RelativePaths}

abbrev pub root_ino : ℕ
root_ino = 1

abbrev pub root_path : String
root_path = ""

pub data EntryKind (r : RelativePaths) : Type 0 where
  verity_enabled : FileVerityInfo → EntryKind r
  directory : r.RelPath → EntryKind r

pub record FsEntry (r : RelativePaths) : Type 0 where
  pub ino : ℕ
  pub kind : EntryKind r

pub record VerityVerifier (r : RelativePaths) : Type 0 where
  pub path_to_ino : List (r.RelPath × ℕ)
  pub ino_to_file : List (ℕ × FsEntry r)
  pub next_ino : ℕ

module _ {r : RelativePaths} where
  -- The methods of `VerifiableFile` for `FsEntry`.
  abbrev pub kind_path : EntryKind r → r.RelPath
  kind_path (EntryKind.verity_enabled info) = r.from_text info.path
  kind_path (EntryKind.directory path) = path

  abbrev pub entry_path : FsEntry r → r.RelPath
  entry_path e = kind_path e.kind

  kind_size : EntryKind r → Option ℕ
  kind_size (EntryKind.verity_enabled info) = some info.descriptor.data_size
  kind_size (EntryKind.directory path) = none

  unfoldable pub expected_size : FsEntry r → Option ℕ
  unfolding kind_size
  expected_size e = kind_size e.kind

  -- `info.descriptor.block_size() as u32`.
  kind_block_size : EntryKind r → Option ℕ
  kind_block_size (EntryKind.verity_enabled info) = some (block_size info.descriptor % 2 ^ 32)
  kind_block_size (EntryKind.directory path) = none

  unfoldable pub entry_block_size : FsEntry r → Option ℕ
  unfolding kind_block_size
  entry_block_size e = kind_block_size e.kind

  -- `false` is the error of a block that is not valid, or of a directory.
  verify_kind : InnerHash → EntryKind r → ℕ → List ℕ → Option Bool
  verify_kind d (EntryKind.verity_enabled info) index content =
      verify_data_block d info.merkle_tree index (block_size info.descriptor) content
  verify_kind d (EntryKind.directory path) index content = some false

  unfoldable pub entry_verify : InnerHash → FsEntry r → ℕ → List ℕ → Option Bool
  unfolding verify_kind
  entry_verify d e index content = verify_kind d e.kind index content

  unfoldable pub register_entry : VerityVerifier r → r.RelPath → EntryKind r → VerityVerifier r
  register_entry v path kind = record {
    path_to_ino = insert path v.next_ino v.path_to_ino;
    ino_to_file = insert v.next_ino (record { ino = v.next_ino; kind = kind }) v.ino_to_file;
    next_ino = (v.next_ino + 1) % u64_mod;
  }

  abbrev pub has_path : VerityVerifier r → r.RelPath → Bool
  has_path v path = contains_key r.path_eq path v.path_to_ino

  -- The `while let Some(parent) = current.parent()`; `none` is that the fuel ran out.
  unfoldable pub register_parents : ℕ → VerityVerifier r → r.RelPath → Option (VerityVerifier r)
  register_parents zero v current = none
  register_parents (suc fuel) v current = elim (r.parent current) [
    | none ↦ some v
    | some parent ↦ elim (r.is_empty_text parent) [
      | true ↦ some v
      | false ↦
          register_parents fuel
            (if has_path v parent then v else register_entry v parent (EntryKind.directory parent))
            parent
    ]
  ]

  -- One round of the loop over the files.
  unfoldable pub register_file : VerityVerifier r → FileVerityInfo → Option (VerityVerifier r)
  register_file v info =
      let path = r.from_text info.path in
      register_parents (r.depth path + 1) v path >>= λ v'.
      some (register_entry v' path (EntryKind.verity_enabled info))

  unfoldable pub register_files : VerityVerifier r → List FileVerityInfo → Option (VerityVerifier r)
  register_files v [] = some v
  register_files v (info ∷ rest) = register_file v info >>= λ v'. register_files v' rest

  abbrev pub empty_verifier : VerityVerifier r
  empty_verifier = record { path_to_ino = []; ino_to_file = []; next_ino = root_ino }

  -- `VerityVerifier::new`.
  unfoldable pub new : List FileVerityInfo → Option (VerityVerifier r)
  new file_infos =
      register_files
        (register_entry empty_verifier (r.from_text root_path)
          (EntryKind.directory (r.from_text root_path)))
        file_infos

  unfoldable pub lookup_by_ino : VerityVerifier r → ℕ → Option (FsEntry r)
  lookup_by_ino v ino = lookup ◌==◌ ino v.ino_to_file

  unfoldable pub lookup_by_path : VerityVerifier r → r.RelPath → Option (FsEntry r)
  lookup_by_path v path =
      lookup r.path_eq path v.path_to_ino >>= λ ino. lookup ◌==◌ ino v.ino_to_file
