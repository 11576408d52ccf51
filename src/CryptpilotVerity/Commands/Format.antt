-- ===== src/CryptpilotVerity/Commands/Format.antt =====
-- What `format` of cryptpilot-verity/src/cmd/format.rs writes, `verify` accepts.
use Prim.Native.String.{String}
use cryptpilot.Prelude.{
  ℕ, ◌≤◌, ◌<◌, ◌≡◌, refl, sym, subst, Bool, true, false, not, ◌&&◌, Option, some, List, [], ◌∷◌,
  append-nil, length, map, concat, chunks, AllLength,
}
use cryptpilot.VerityCore.Config.{default_block_size}
use cryptpilot.VerityCore.Hash.{HashLaws}
use cryptpilot.VerityCore.Block.{FsVerityConfig, config_new}
use cryptpilot.VerityCore.Block.Content.{block_hash, length-block_hash}
use cryptpilot.VerityCore.Digest.Root.{IsRoot-length}
use cryptpilot.VerityCore.Digest.Correct.{capacity, descriptor_of, measure-IsRoot, config-Fits}
use cryptpilot.VerityFuse.FileInfo.{FileVerityInfo}
use cryptpilot.VerityFuse.FileInfo.SelfCheck.{verify_self-measure}
use cryptpilot.CryptpilotVerity.Answer.{fine}
use cryptpilot.CryptpilotVerity.Metadata.{
  Formats, FormatLaws, Labels, FileHashJsonEntry, fb_of_info, metadata_of, json_entry, json_entries,
  calculate_fsverity_hash, serialize_metadata, calculate_metadata_hash,
}
use cryptpilot.Prelude.Sort.{AllOf, sort_by, sort_by-AllOf}
use cryptpilot.CryptpilotVerity.Metadata.RoundTrip.{Sized, Ascends, deserialize-serialize}
use cryptpilot.CryptpilotVerity.Commands.{
  content_hash, verify, format_file, format_files, collect_labels, format,
}
use cryptpilot.CryptpilotVerity.Commands.Check.{PassesSelf, HasContent, verify_of}

AllLength-map :
    {A : Type 0} (n : ℕ) (f : A → List ℕ) (xs : List A)
    → ((x : A) → length (f x) ≡ n)
    → AllLength n (map f xs)
AllLength-map n f [] same = tt
AllLength-map n f (x ∷ xs) same = (same x, AllLength-map n f xs same)

AllOf-map :
    {A : Type 0} (P Q : A → Type 0) (go : (a : A) → P a → Q a) (xs : List A)
    → AllOf P xs
    → AllOf Q xs
AllOf-map P Q go [] all = tt
AllOf-map P Q go (x ∷ xs) (p, all) = (go x p, AllOf-map P Q go xs all)

-- The files of a directory, all of which can be read.
abbrev pub all_read : List (String × List ℕ) → List (String × Option (List ℕ))
all_read [] = []
all_read ((path, content) ∷ rest) = (path, some content) ∷ all_read rest

abbrev entry_of : FileVerityInfo → FileHashJsonEntry
entry_of info = record { descriptor_hash = info.descriptor_hash; path = info.path }

json_entries-map :
    (infos : List FileVerityInfo) → json_entries (map fb_of_info infos) ≡ fine (map entry_of infos)
unfolding json_entries json_entry
json_entries-map [] = refl
json_entries-map (info ∷ rest) = rw (json_entries-map rest) refl

module _ (t : Formats) (hash_laws : HashLaws t.hash) (laws : FormatLaws t)
    {config : FsVerityConfig t.hash} (made : config_new t.hash default_block_size [] ≡ some config)
    (open_file : String → Option (List ℕ)) where
  -- What `format` makes of a file.
  abbrev Formatted : FileVerityInfo → Type 0
  Formatted info = Sized t info × PassesSelf t info × HasContent t open_file info

  -- The file can be counted by the digest, and is there when it is verified.
  abbrev pub Stored : String × List ℕ → Type 0
  Stored (path, content) =
      (length content ≤ capacity t.hash default_block_size) × (open_file path ≡ some content)

  format_file-fine :
      (path : String) (content : List ℕ)
      → Stored (path, content)
      → (info : FileVerityInfo) × (format_file t (path, some content) ≡ fine info) × Formatted info
  unfolding format_file content_hash calculate_fsverity_hash
  format_file-fine path content (small, opened) =
      let fits : length (concat (content ∷ [])) ≤ capacity t.hash default_block_size =
        subst (λ (c : List ℕ). length c ≤ capacity t.hash default_block_size)
          (sym (append-nil content)) small in
      let (root, tree, run, is_root, recorded) =
        measure-IsRoot hash_laws default_block_size [] made (content ∷ []) fits in
      let (hash, hashed, valid) =
        verify_self-measure hash_laws t.hex default_block_size [] made (content ∷ []) path fits
          run in
      (
        record {
          path = path;
          descriptor =
              descriptor_of t.hash [] default_block_size (length (concat (content ∷ []))) root;
          merkle_tree = tree;
          descriptor_hash = t.hex hash;
        },
        rw run (rw hashed refl),
        (
          (
            IsRoot-length hash_laws config (config-Fits hash_laws default_block_size [] made)
                is_root,
            subst (AllLength t.hash.output_size) (sym recorded) (
                AllLength-map t.hash.output_size (block_hash config)
                  (chunks default_block_size (concat (content ∷ [])))
                  (λ b. length-block_hash hash_laws config b)),
          ),
          valid,
          (content, opened, rw run (rw hashed refl)),
        ),
      )

  format_files-fine :
      (files : List (String × List ℕ))
      → AllOf Stored files
      → (infos : List FileVerityInfo) × (format_files t (all_read files) ≡ fine infos)
        × AllOf Formatted infos
  unfolding format_files
  format_files-fine [] all = ([], refl, tt)
  format_files-fine ((path, content) ∷ rest) (stored, all) =
      let (info, one, formatted) = format_file-fine path content stored in
      let (infos, later, all_formatted) = format_files-fine rest all in
      (info ∷ infos, rw one (rw later refl), (formatted, all_formatted))

  some_output : 0 < t.hash.output_size
  some_output = (config-Fits hash_laws default_block_size [] made).output_pos

  hash-returns :
      (infos : List FileVerityInfo) (labels : Labels)
      → (root_hash : String) × (calculate_metadata_hash t (serialize_metadata t infos labels)
          ≡ fine root_hash)
  unfolding calculate_metadata_hash serialize_metadata
  hash-returns infos labels =
      let sorted : List FileVerityInfo = sort_by (λ (info : FileVerityInfo). info.path) infos in
      let (json, there) =
        laws.to_canon_json-returns
          (sort_by (λ (e : FileHashJsonEntry). e.path) (map entry_of sorted)) in
      (
        t.hex (t.hash.finalize (t.hash.update t.hash.new_state json)),
        rw (laws.decode-encode (metadata_of infos labels))
            (rw (json_entries-map sorted) (rw there refl)),
      )

  -- For a hash with a valid configuration, `format` succeeds on files that can all be read and
  -- counted, if nothing is overwritten without force, the metadata file can be written and the
  -- labels are a map, whose keys ascend. If every file still has its content, `verify` with the
  -- root hash succeeds on the metadata.
  pub verify-format :
      (exists force : Bool) (files : List (String × List ℕ))
      (label_options : List (String × String))
      → (exists && not force) ≡ false
      → AllOf Stored files
      → Ascends [] (collect_labels label_options [])
      → (bytes : t.Bytes) × (root_hash : String) × (format t exists force
            (all_read files)
            label_options
            true
          ≡ fine (bytes, root_hash))
        × (verify t (some bytes) root_hash false open_file ≡ fine tt)
  unfolding format
  verify-format exists force files label_options fresh stored ascends =
      let (infos, formatted, all) = format_files-fine files stored in
      let labels = collect_labels label_options [] in
      let (root_hash, hashed) = hash-returns infos labels in
      (
        serialize_metadata t infos labels,
        root_hash,
        rw fresh (rw formatted (rw hashed refl)),
        verify_of t open_file (serialize_metadata t infos labels) root_hash
            (record {
              file_infos = sort_by (λ (info : FileVerityInfo). info.path) infos;
              labels = labels;
            })
            (
              hashed,
              deserialize-serialize t some_output laws infos labels
                  (AllOf-map Formatted (Sized t) (λ info f. f.0) infos all) ascends,
              sort_by-AllOf (λ (info : FileVerityInfo). info.path) (PassesSelf t) infos
                  (AllOf-map Formatted (PassesSelf t) (λ info f. f.1) infos all),
            )
            (sort_by-AllOf (λ (info : FileVerityInfo). info.path) (HasContent t open_file) infos
              (AllOf-map Formatted (HasContent t open_file) (λ info f. f.2) infos all)),
      )
