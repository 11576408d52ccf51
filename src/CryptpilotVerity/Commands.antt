-- ===== src/CryptpilotVerity/Commands.antt =====
-- The commands of cryptpilot-verity/src/cmd: format, verify, open and dump. What a command reads of
-- the system is an argument, and what it leaves is its result.
pub mod Check
pub mod Format
use Prim.Native.String.{String}
use text.Mathlib.Text.{◌==◌ as text_eq}
use cryptpilot.Prelude.{
  ℕ, zero, suc, ◌+◌, ◌*◌, ◌≡◌, Bool, true, false, not, ◌&&◌, Option, none, some, List, [], ◌∷◌,
  if◌then◌else◌,
}
use cryptpilot.VerityCore.Descriptor.{to_descriptor_hash}
use cryptpilot.VerityFuse.FileInfo.{
  FileVerityInfo, SelfError, SelfResult, valid, invalid, verify_self,
}
use cryptpilot.VerityFuse.Paths.{RelativePaths}
use cryptpilot.VerityFuse.Verifier.{VerityVerifier, new}
use cryptpilot.CryptpilotVerity.Answer.{
  Problem, Answer, fine, problem, panic, ◌>>=◌, ◌>>◌, require, or_panic,
}
use cryptpilot.CryptpilotVerity.Metadata.{
  Formats, Labels, insert_label, MetadataInfo, calculate_fsverity_hash, serialize_metadata,
  deserialize_metadata, calculate_metadata_hash,
}

-- A test that must hold.
abbrev pub ensure : Bool → Problem → Answer (Unit {0})
ensure true p = fine tt
ensure false p = problem p

-- The labels of the command line, as a map.
abbrev pub collect_labels : List (String × String) → Labels → Labels
collect_labels [] labels = labels
collect_labels ((key, value) ∷ rest) labels = collect_labels rest (insert_label key value labels)

module _ (t : Formats) where
  abbrev pub self_answer : Option SelfResult → Answer (Unit {0})
  self_answer none = panic
  self_answer (some valid) = fine tt
  self_answer (some (invalid e)) = problem (Problem.entry_invalid e)

  -- The loop over `verify_self`.
  unfoldable pub check_entries : List FileVerityInfo → Answer (Unit {0})
  check_entries [] = fine tt
  check_entries (info ∷ rest) = self_answer (verify_self t.hash t.hex info) >> check_entries rest

  -- What `verify` and `open` do with the bytes of the metadata: compare the hash, parse, check every
  -- entry.
  unfoldable pub check_metadata : t.Bytes → String → Answer MetadataInfo
  check_metadata bytes expected = calculate_metadata_hash t bytes >>= λ root_hash.
      ensure (text_eq root_hash expected) Problem.root_hash_mismatch
      >> (deserialize_metadata t bytes >>= λ info. check_entries info.file_infos >> fine info)

  -- The text of the hash of the descriptor of a content.
  unfoldable pub content_hash : List ℕ → Answer String
  content_hash content = or_panic (calculate_fsverity_hash t content) >>= λ (descriptor, tree).
      or_panic (to_descriptor_hash t.hash descriptor) >>= λ hash. fine (t.hex hash)

  -- The loop of `verify` over the files, whose contents are mapped into memory.
  unfoldable pub check_contents :
      (String → Option (List ℕ)) → List FileVerityInfo → Answer (Unit {0})
  check_contents open_file [] = fine tt
  check_contents open_file (info ∷ rest) =
      require (open_file info.path) Problem.io_failed >>= λ content.
      content_hash content >>= λ hash.
      ensure (text_eq hash info.descriptor_hash) Problem.descriptor_mismatch
      >> check_contents open_file rest

  -- `VerifyCommand::run`, for the metadata if they can be read.
  unfoldable pub verify :
      Option t.Bytes → String → Bool → (String → Option (List ℕ)) → Answer (Unit {0})
  verify metadata expected metadata_only open_file = require metadata Problem.io_failed >>= λ bytes.
      check_metadata bytes expected >>= λ info.
      if metadata_only then fine tt else check_contents open_file info.file_infos

  -- `OpenCommand::run` up to the mount: the paths must be directories, and nothing mounted there.
  unfoldable pub open_verifier :
      {r : RelativePaths}
      → Bool
      → Bool
      → Bool
      → Bool
      → Option Bool
      → Option t.Bytes
      → String
      → Answer (VerityVerifier r)
  open_verifier data_exists data_is_dir mount_exists mount_is_dir mounted metadata expected = do
    ensure data_exists Problem.io_failed
    ensure data_is_dir Problem.io_failed
    ensure mount_exists Problem.io_failed
    ensure mount_is_dir Problem.io_failed
    is_mounted ← require mounted Problem.io_failed
    ensure (not is_mounted) Problem.io_failed
    bytes ← require metadata Problem.io_failed
    info ← check_metadata bytes expected
    or_panic (new info.file_infos)

  -- One round of the loop of `format` over the files, for a relative path and what was read.
  unfoldable pub format_file : String × Option (List ℕ) → Answer FileVerityInfo
  format_file (path, read) = require read Problem.io_failed >>= λ content.
      or_panic (calculate_fsverity_hash t content) >>= λ (descriptor, tree).
      or_panic (to_descriptor_hash t.hash descriptor) >>= λ hash. fine (record {
        path = path;
        descriptor = descriptor;
        merkle_tree = tree;
        descriptor_hash = t.hex hash;
      })

  unfoldable pub format_files : List (String × Option (List ℕ)) → Answer (List FileVerityInfo)
  format_files [] = fine []
  format_files (file ∷ rest) =
      format_file file >>= λ info. format_files rest >>= λ infos. fine (info ∷ infos)

  -- `FormatCommand::run`, for the files in the order of their paths: the bytes of the metadata file and
  -- the root hash. `write` says whether the metadata file was written.
  unfoldable pub format :
      Bool
      → Bool
      → List (String × Option (List ℕ))
      → List (String × String)
      → Bool
      → Answer (t.Bytes × String)
  format exists force files label_options write = do
    ensure (not (exists && not force)) Problem.metadata_exists
    file_infos ← format_files files
    let bytes = serialize_metadata t file_infos (collect_labels label_options [])
    ensure write Problem.io_failed
    root_hash ← calculate_metadata_hash t bytes
    fine (bytes, root_hash)
