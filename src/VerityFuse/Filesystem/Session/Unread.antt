-- ===== src/VerityFuse/Filesystem/Session/Unread.antt =====
-- The requests of verity-fuse/src/filesystem.rs that read no block leave the block cache alone.
use Prim.Native.String.{String}
use cryptpilot.Prelude.{ℕ, ◌≡◌, refl, ◌∙◌, Bool, Option, none, some, List}
use cryptpilot.Prelude.Int.{ℤ}
use cryptpilot.VerityFuse.Outcome.{Outcome, ok, err, fault, enotdir}
use cryptpilot.VerityFuse.Source.{
  IoResult, done, failed, Metadata, DirEntry, FileKind, is_dir, is_file, is_symlink, is_other,
}
use cryptpilot.VerityFuse.Verifier.{FsEntry, entry_path, lookup_by_ino, lookup_by_path}
use cryptpilot.VerityFuse.Filesystem.{Runtime, VerityFs, Call, and_then, errno_of, readlink}
use cryptpilot.VerityFuse.Filesystem.Attributes.{
  Listed, get_metadata, getattr, lookup_entry, dir_children, dir_entries, readdir, lift,
  list_entries, check_metadata_file_size,
}

module _ {t : Runtime} where
  -- The call changes neither the verifier nor the block cache.
  abbrev pub Unread : {A : Type 0} → VerityFs t → Call t A → Type 0
  Unread fs call = (call.0.verifier ≡ fs.verifier) × (call.0.block_cache ≡ fs.block_cache)

  and_then-Unread :
      {A B : Type 0} (fs : VerityFs t) (c : Call t A) (f : VerityFs t → A → Call t B)
      → Unread fs c
      → ((fs' : VerityFs t) (a : A) → Unread fs' (f fs' a))
      → Unread fs (and_then t c f)
  and_then-Unread fs (fs', ok a) f h go = let (v, b) = go fs' a in (v ∙ h.0, b ∙ h.1)
  and_then-Unread fs (fs', err e) f h go = h
  and_then-Unread fs (fs', fault) f h go = h

  module _ (fs : VerityFs t) where
    abbrev metadata_read : FsEntry t.paths → VerityFs t
    metadata_read file = record fs {
      world = (t.source.symlink_metadata fs.world (entry_path file)).0;
    }

    get_metadata-Unread : (file : FsEntry t.paths) → Unread fs (get_metadata t file fs)
    unfolding get_metadata
    get_metadata-Unread file = by_result _ refl
      where
        by_result :
            (res : IoResult Metadata)
            → (t.source.symlink_metadata fs.world (entry_path file)).1 ≡ res
            → Unread fs (get_metadata t file fs)
        by_result (failed e) h = rw (h, get_metadata) (refl, refl)
        by_result (done metadata) h =
            rw (h, get_metadata)
              (and_then-Unread (metadata_read file)
                (lift t (metadata_read file) (check_metadata_file_size file metadata)) _
                (refl, refl) (λ fs' u. (refl, refl)))

    pub getattr-Unread : (ino : ℕ) → Unread fs (getattr t ino fs)
    unfolding getattr
    getattr-Unread ino = by_entry _ refl
      where
        by_entry :
            (found : Option (FsEntry t.paths))
            → lookup_by_ino fs.verifier ino ≡ found
            → Unread fs (getattr t ino fs)
        by_entry none h = rw (h, getattr) (refl, refl)
        by_entry (some file) h =
            rw (h, getattr)
              (and_then-Unread fs (get_metadata t file fs) _ (get_metadata-Unread file)
                (λ fs' metadata. (refl, refl)))

    pub readlink-Unread : (ino : ℕ) → Unread fs (readlink t ino fs)
    unfolding readlink
    readlink-Unread ino = by_entry _ refl
      where
        by_target :
            (file : FsEntry t.paths) (res : IoResult String)
            → lookup_by_ino fs.verifier ino ≡ some file
            → (t.source.read_link fs.world (entry_path file)).1 ≡ res
            → Unread fs (readlink t ino fs)
        by_target file (failed e) h g = rw (h, readlink) (rw (g, readlink) (refl, refl))
        by_target file (done target) h g = rw (h, readlink) (rw (g, readlink) (refl, refl))

        by_entry :
            (found : Option (FsEntry t.paths))
            → lookup_by_ino fs.verifier ino ≡ found
            → Unread fs (readlink t ino fs)
        by_entry none h = rw (h, readlink) (refl, refl)
        by_entry (some file) h = by_target file _ h refl

    pub lookup_entry-Unread :
        (parent : ℕ) (name : String) → Unread fs (lookup_entry t parent name fs)
    unfolding lookup_entry
    lookup_entry-Unread parent name = by_parent _ refl
      where
        by_child :
            (file : FsEntry t.paths) (path : t.paths.RelPath) (found : Option (FsEntry t.paths))
            → lookup_by_ino fs.verifier parent ≡ some file
            → t.paths.from_path name ≡ some path
            → lookup_by_path fs.verifier (t.paths.join (entry_path file) path) ≡ found
            → Unread fs (lookup_entry t parent name fs)
        by_child file path none h g c =
            rw (h, lookup_entry) (rw (g, lookup_entry) (rw (c, lookup_entry) (refl, refl)))
        by_child file path (some child) h g c =
            rw (h, lookup_entry)
              (rw (g, lookup_entry)
                (rw (c, lookup_entry)
                  (and_then-Unread fs (get_metadata t child fs) _ (get_metadata-Unread child)
                    (λ fs' metadata. (refl, refl)))))

        by_path :
            (file : FsEntry t.paths) (path : Option t.paths.RelPath)
            → lookup_by_ino fs.verifier parent ≡ some file
            → t.paths.from_path name ≡ path
            → Unread fs (lookup_entry t parent name fs)
        by_path file none h g = rw (h, lookup_entry) (rw (g, lookup_entry) (refl, refl))
        by_path file (some path) h g = by_child file path _ h g refl

        by_parent :
            (found : Option (FsEntry t.paths))
            → lookup_by_ino fs.verifier parent ≡ found
            → Unread fs (lookup_entry t parent name fs)
        by_parent none h = rw (h, lookup_entry) (refl, refl)
        by_parent (some file) h = by_path file _ h refl

    dir_children-Unread : (ino : ℕ) → Unread fs (dir_children t ino fs)
    unfolding dir_children
    dir_children-Unread ino = by_entry _ refl
      where
        by_items :
            (file : FsEntry t.paths) (fs' : VerityFs t)
            (read : t.source.World × IoResult (List (Option DirEntry)))
            → Unread fs' (elim read.1 [
              | failed e ↦ (record fs' { world = read.0 }, Outcome.err (errno_of t e))
              | done items ↦ (
                record fs' { world = read.0 },
                Outcome.ok (list_entries fs'.verifier (entry_path file) items),
              )
            ])
        by_items file fs' (w, failed e) = (refl, refl)
        by_items file fs' (w, done items) = (refl, refl)

        by_kind :
            (file : FsEntry t.paths) (fs' : VerityFs t) (kind : FileKind)
            → Unread fs' (elim kind [
              | is_dir ↦
                  let (w, res) = t.source.read_dir fs'.world (entry_path file) in
                  elim res [
                    | failed e ↦ (record fs' { world = w }, Outcome.err (errno_of t e))
                    | done items ↦ (
                      record fs' { world = w },
                      Outcome.ok (list_entries fs'.verifier (entry_path file) items),
                    )
                  ]
              | _ ↦ (fs', Outcome.err enotdir)
            ])
        by_kind file fs' is_dir = by_items file fs' (t.source.read_dir fs'.world (entry_path file))
        by_kind file fs' is_file = (refl, refl)
        by_kind file fs' is_symlink = (refl, refl)
        by_kind file fs' is_other = (refl, refl)

        by_entry :
            (found : Option (FsEntry t.paths))
            → lookup_by_ino fs.verifier ino ≡ found
            → Unread fs (dir_children t ino fs)
        by_entry none h = rw (h, dir_children) (refl, refl)
        by_entry (some file) h =
            rw (h, dir_children)
              (and_then-Unread fs (get_metadata t file fs) _ (get_metadata-Unread file)
                (λ fs' metadata. by_kind file fs' metadata.kind))

    pub readdir-Unread :
        (full : List (ℕ × Listed) → Listed → Bool) (ino : ℕ) (offset : ℤ)
        → Unread fs (readdir t full ino offset fs)
    unfolding readdir dir_entries
    readdir-Unread full ino offset =
        and_then-Unread fs (dir_entries t ino offset fs) _
          (and_then-Unread fs (dir_children t ino fs) _ (dir_children-Unread ino)
            (λ fs' children. (refl, refl)))
          (λ fs' entries. (refl, refl))
