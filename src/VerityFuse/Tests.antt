-- ===== src/VerityFuse/Tests.antt =====
-- The theorems of verity-fuse at concrete inputs, with the hash of the tests of verity-core.
use Prim.Native.String.{String}
use cryptpilot.Prelude.{
  ℕ, ◌+◌, ◌^◌, ◌≡◌, ◌↔◌, ◌⊎◌, refl, sym, ◌∙◌, subst, Option, some, none, List, [], ◌∷◌, ◌++◌,
  length, take, drop, leb, some_eq, arith,
}
use cryptpilot.VerityCore.Descriptor.{to_descriptor_hash}
use cryptpilot.VerityCore.Tests.{toy, toy_laws, toy_made, pieces, pieces_descriptor, measured}
use cryptpilot.VerityFuse.FileInfo.{FileVerityInfo, SelfResult, verify_self}
use cryptpilot.VerityFuse.FileInfo.SelfCheck.{
  Consistent, verify_self-Consistent, verify_self-measure,
}
use cryptpilot.VerityFuse.Verifier.{
  EntryKind, FsEntry, VerityVerifier, register_entry, register_parents, register_file,
  register_files, expected_size, new, lookup_by_ino, lookup_by_path,
}
use cryptpilot.Prelude.Int.{ℤ}
use cryptpilot.VerityFuse.Source.{IoResult, FileKind, Metadata, DirEntry}
use cryptpilot.VerityFuse.Cache.{pread_file_data}
use cryptpilot.VerityFuse.Cache.Pread.{Returns, pread_file_data-Returns}
use cryptpilot.VerityFuse.Filesystem.{Runtime, VerityFs, read, readlink, open_entry}
use cryptpilot.VerityFuse.Filesystem.Sound.{Good}
use cryptpilot.VerityFuse.Outcome.{Outcome}
use cryptpilot.VerityFuse.Filesystem.Session.{mounted, looked_up, asked, opened, followed}
use cryptpilot.VerityFuse.Filesystem.Session.Answers.{Session-Original}
use cryptpilot.VerityFuse.Filesystem.Authentic.{Original, measured_file, read-Original}
use cryptpilot.VerityFuse.Filesystem.Attributes.{
  lookup_entry, FileType, Listed, attr_of, check_metadata_file_size, metadata_to_attr, get_metadata,
  getattr, list_entry, list_entries, dir_children, readdir,
}
use cryptpilot.VerityFuse.Filesystem.Attributes.Listing.{
  numbered, dots, readdir-start, readdir-skips,
}
use cryptpilot.VerityFuse.Filesystem.Attributes.Sizes.{getattr-size}
use cryptpilot.VerityFuse.Cache.{with_capacity}
use cryptpilot.VerityFuse.Filesystem.{new_with_block_cache}
use cryptpilot.VerityFuse.Filesystem.Request.{FileAnswer, ReadAnswer, read-IsSound}
use cryptpilot.VerityFuse.Verifier.Register.{IsValid}
use cryptpilot.VerityFuse.Verifier.Parents.{Closed}
use cryptpilot.VerityFuse.Verifier.Files.{new-IsValid, lookup_by_path-new}
use cryptpilot.VerityFuse.Toy.{
  hex_text, some_info, toy_paths, toy_path_laws, some_metadata, toy_source, toy_source_laws,
  toy_runtime, toy_runtime_laws,
}

verify_self-measure_example :
    (hash : List ℕ) × (to_descriptor_hash toy pieces_descriptor ≡ some hash)
    × (verify_self toy hex_text some_info ≡ some SelfResult.valid)
verify_self-measure_example =
    verify_self-measure toy_laws hex_text 4 [] toy_made pieces "dir/file" (omega arith) measured

verify_self-Consistent_example :
    (verify_self toy hex_text some_info ≡ some SelfResult.valid)
    ↔ Consistent toy_laws hex_text some_info
verify_self-Consistent_example = verify_self-Consistent toy_laws hex_text some_info

abbrev other_info : FileVerityInfo
other_info = record some_info { path = "other" }

new-IsValid_example :
    (v : VerityVerifier toy_paths) × (new (some_info ∷ other_info ∷ []) ≡ some v)
    × IsValid v
    × Closed v
new-IsValid_example = new-IsValid toy_path_laws (some_info ∷ other_info ∷ []) (omega arith)

lookup_by_path-new_example :
    (v : VerityVerifier toy_paths) × (e : FsEntry toy_paths) × (new (some_info ∷ other_info ∷ [])
      ≡ some v)
    × (lookup_by_path v (2 ∷ 1 ∷ []) ≡ some e)
    × (e.kind ≡ EntryKind.verity_enabled some_info)
lookup_by_path-new_example =
    lookup_by_path-new toy_path_laws [] some_info (other_info ∷ []) (omega arith) (λ e. cc e, tt)

pread_file_data-Returns_example :
    Returns toy_source_laws 3 4 (pread_file_data toy_source 9 3 tt 8 4)
pread_file_data-Returns_example = pread_file_data-Returns toy_source_laws 9 3 tt 8 4 (omega arith)

abbrev one_file : VerityVerifier toy_paths
one_file = record {
  path_to_ino = (2 ∷ 1 ∷ [], 3) ∷ (1 ∷ [], 2) ∷ ([], 1) ∷ [];
  ino_to_file =
      (3, record { ino = 3; kind = EntryKind.verity_enabled some_info })
      ∷ (2, record { ino = 2; kind = EntryKind.directory (1 ∷ []) })
      ∷ (1, record { ino = 1; kind = EntryKind.directory [] })
      ∷ [];
  next_ino = 4;
}

one_file_new : new (some_info ∷ []) ≡ some one_file
unfolding new register_files register_file register_parents register_entry
one_file_new = refl

one_file-IsValid : IsValid one_file
one_file-IsValid =
    let (v, run, valid, closed) = new-IsValid toy_path_laws (some_info ∷ []) (omega arith) in
    subst (IsValid {r = toy_paths}) (some_eq (sym run ∙ one_file_new)) valid

abbrev toy_fs : VerityFs toy_runtime
toy_fs = record { verifier = one_file; block_cache = none; handle_cache = none; world = 2 }

read-IsSound_example :
    Good toy_runtime_laws
      (ReadAnswer toy_runtime_laws 4_294_967_300 toy_fs 3 (ℤ.pos 2) 7)
      toy_fs
      (read toy_runtime 4_294_967_300 3 (ℤ.pos 2) 7 toy_fs)
read-IsSound_example =
    read-IsSound toy_runtime_laws 4_294_967_300 toy_fs (λ key content file held found. cc held)
      one_file-IsValid (omega arith) 3 (ℤ.pos 2) 7

third_file :
    lookup_by_ino one_file 3 ≡ some (record { ino = 3; kind = EntryKind.verity_enabled some_info })
unfolding lookup_by_ino
third_file = refl

read-Original_example :
    Good toy_runtime_laws
      (FileAnswer
        (measured_file toy_runtime_laws 4 toy_made pieces
          (omega arith)
          measured
          "dir/file"
          "digest"
          3)
        (Original toy_runtime_laws 4 toy_made pieces (omega arith) measured)
        (ℤ.pos 2)
        7)
      toy_fs
      (read toy_runtime 4_294_967_300 3 (ℤ.pos 2) 7 toy_fs)
read-Original_example =
    read-Original toy_runtime_laws 4 toy_made pieces (omega arith) measured "dir/file" "digest" 3
      4_294_967_300 toy_fs (λ key content file held found. cc held) one_file-IsValid third_file
      (omega arith) (ℤ.pos 2) 7

-- A directory that holds five entries, all of them directories.
abbrev sub_metadata : Metadata
sub_metadata = record some_metadata { kind = FileKind.is_dir }

abbrev sub_entry : String → Option DirEntry
sub_entry name = some (record { file_name = name; metadata = IoResult.done sub_metadata })

abbrev dir_runtime : Runtime
dir_runtime = record toy_runtime {
  source = record toy_source {
    symlink_metadata = λ w p. (w, IoResult.done sub_metadata);
    read_dir = λ w p. (
      w,
      IoResult.done
          (sub_entry "dir" ∷ none ∷ sub_entry "dir/file" ∷ sub_entry "dir" ∷ sub_entry "" ∷ []),
    );
  };
}

abbrev dir_fs : VerityFs dir_runtime
dir_fs = record { verifier = one_file; block_cache = none; handle_cache = none; world = 0 }

abbrev dir_listed : List Listed
dir_listed =
    record { ino = 2; kind = FileType.directory_type; name = "dir" }
    ∷ record { ino = 3; kind = FileType.directory_type; name = "dir/file" }
    ∷ record { ino = 2; kind = FileType.directory_type; name = "dir" }
    ∷ record { ino = 1; kind = FileType.directory_type; name = "" }
    ∷ []

dir_fs_children : dir_children dir_runtime 1 dir_fs ≡ (dir_fs, Outcome.ok dir_listed)
unfolding dir_children get_metadata check_metadata_file_size list_entries list_entry lookup_by_ino
    lookup_by_path
dir_fs_children = refl

readdir-start_example :
    (n : ℕ) × (readdir dir_runtime (λ added entry. leb 3 (length added)) 1 (ℤ.pos 0) dir_fs
      ≡ (dir_fs, Outcome.ok (numbered 1 (take n (dots 1 ++ dir_listed)))))
readdir-start_example =
    readdir-start dir_runtime (λ added entry. leb 3 (length added)) 1 dir_fs dir_fs_children

readdir-skips_example :
    ((n : ℕ) × (readdir dir_runtime (λ added entry. leb 3 (length added)) 1 (ℤ.pos 3) dir_fs
        ≡ (dir_fs, Outcome.ok (numbered 4 (take n (drop 3 dir_listed))))))
    × (drop 3 (dots 1 ++ dir_listed) ≡ drop 1 dir_listed)
readdir-skips_example =
    readdir-skips dir_runtime (λ added entry. leb 3 (length added)) 1 dir_fs dir_fs_children 1

some_attr :
    getattr toy_runtime 3 toy_fs
    ≡ (toy_fs, Outcome.ok (attr_of 100 3 some_metadata FileType.regular_file))
unfolding getattr get_metadata check_metadata_file_size metadata_to_attr lookup_by_ino expected_size
some_attr = refl

getattr-size_example :
    (file : FsEntry toy_paths) × (lookup_by_ino one_file 3 ≡ some file)
    × ((attr_of 100 3 some_metadata FileType.regular_file).ino ≡ 3)
    × ((FileType.regular_file ≡ FileType.directory_type) ⊎ (expected_size file ≡ some 11))
getattr-size_example = getattr-size toy_runtime 3 toy_fs some_attr

abbrev new_toy_fs : VerityFs toy_runtime
new_toy_fs = record { verifier = one_file; block_cache = none; handle_cache = none; world = 2 }

toy_fs_made : new_with_block_cache toy_runtime "/data" one_file 0 2 ≡ IoResult.done new_toy_fs
unfolding new_with_block_cache with_capacity
toy_fs_made = refl

-- The state after a file was looked up, asked for its attributes and opened, and a link was followed.
abbrev used_fs : VerityFs toy_runtime
used_fs =
    (readlink toy_runtime 3
      (open_entry toy_runtime 3
        (getattr toy_runtime 3 (lookup_entry toy_runtime 1 "dir/file" new_toy_fs).0).0).0).0

abbrev used_fuel : ℕ
used_fuel = 2 ^ 32 + toy_runtime_laws.source_laws.patience used_fs.world

Session-Original_example :
    Good toy_runtime_laws
      (FileAnswer
        (measured_file toy_runtime_laws 4 toy_made pieces
          (omega arith)
          measured
          "dir/file"
          "digest"
          3)
        (Original toy_runtime_laws 4 toy_made pieces (omega arith) measured)
        (ℤ.pos 2)
        7)
      used_fs
      (read toy_runtime used_fuel 3 (ℤ.pos 2) 7 used_fs)
Session-Original_example =
    Session-Original toy_runtime_laws 4 toy_made pieces (omega arith) measured "dir/file" "digest" 3
      "/data" one_file 0 2 one_file-IsValid third_file toy_fs_made
      (followed (opened (asked (looked_up mounted 1 "dir/file") 3) 3) 3) used_fuel (omega arith)
      (ℤ.pos 2) 7
