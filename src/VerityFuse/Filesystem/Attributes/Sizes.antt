-- ===== src/VerityFuse/Filesystem/Attributes/Sizes.antt =====
-- `getattr` of verity-fuse/src/filesystem.rs: the sizes that are reported.
use cryptpilot.Prelude.{
  ℕ, ◌≡◌, refl, sym, ap, ◌∙◌, false, Bool-cases, Option, none, some, some_eq, Option-cases, ◌==◌,
  ==_iff, arith, inl, inr, ◌⊎◌,
}
use cryptpilot.VerityFuse.Outcome.{Outcome, ok, err, fault, enoent}
use cryptpilot.VerityFuse.Paths.{RelativePaths}
use cryptpilot.VerityFuse.Source.{
  IoResult, done, failed, FileKind, is_dir, is_file, is_symlink, is_other, Metadata,
}
use cryptpilot.VerityFuse.Verifier.{FsEntry, entry_path, expected_size, lookup_by_ino}
use cryptpilot.VerityFuse.Filesystem.{Runtime, VerityFs, Call, and_then, errno_of}
use cryptpilot.VerityFuse.Filesystem.Attributes.{
  FileType, FileAttr, file_type, has_size, check_metadata_file_size, attr_of, metadata_to_attr,
  get_metadata, getattr,
}

-- A call that returned a value went through its first part.
and_then-ok :
    {t : Runtime} {A B : Type 0} (call : Call t A) (f : VerityFs t → A → Call t B)
    {fs' : VerityFs t} {b : B}
    → and_then t call f ≡ (fs', Outcome.ok b)
    → (fs1 : VerityFs t) × (a : A) × (call ≡ (fs1, Outcome.ok a)) × (f fs1 a ≡ (fs', Outcome.ok b))
and_then-ok (fs1, ok a) f h = (fs1, a, refl, h)
and_then-ok {t} {A} {B} (fs1, err e) f h = let bad = ap (λ (c : Call t B). c.1) h in cc bad
and_then-ok {t} {A} {B} (fs1, fault) f h = let bad = ap (λ (c : Call t B). c.1) h in cc bad

module _ {r : RelativePaths} (file : FsEntry r) (metadata : Metadata) where
  -- What passes the check has no size to check, or the size that was recorded.
  check-size :
      check_metadata_file_size file metadata ≡ Outcome.ok tt
      → (has_size metadata.kind ≡ false) ⊎ (expected_size file ≡ some metadata.len)
  unfolding check_metadata_file_size
  check-size h = elim (Bool-cases (has_size metadata.kind)) [
    | inr no_size ↦ inl no_size
    | inl sized ↦ elim (Option-cases (expected_size file)) [
      | inl unknown ↦ absurd (ground arith)
      | inr (n, known) ↦ elim (Bool-cases (metadata.len == n)) [
        | inl same ↦ inr (known ∙ ap some (sym ((==_iff metadata.len n).0 same)))
        | inr other ↦ absurd (ground arith)
      ]
    ]
  ]

ok_eq : {A : Type 0} {a b : A} → Outcome.ok a ≡ Outcome.ok b → a ≡ b
ok_eq {a = a} e = ap (λ o. elim o [ ok x ↦ x | err n ↦ a | fault ↦ a ]) e

-- The attributes are those of the metadata.
attr_lem :
    (now ino : ℕ) (metadata : Metadata) {attr : FileAttr}
    → metadata_to_attr now metadata ino ≡ Outcome.ok attr
    → (attr.ino ≡ ino) × (attr.size ≡ metadata.len) × (file_type metadata.kind ≡ some attr.kind)
unfolding metadata_to_attr
attr_lem now ino metadata {attr} h = elim (Option-cases (file_type metadata.kind)) [
  | inl unknown ↦ absurd (ground arith)
  | inr (kind, known) ↦
      let made : metadata_to_attr now metadata ino ≡ Outcome.ok (attr_of now ino metadata kind) =
        rw (known, metadata_to_attr) refl in
      let same : attr_of now ino metadata kind ≡ attr = ok_eq (sym made ∙ h) in
      (
        ap (λ (a : FileAttr). a.ino) (sym same),
        ap (λ (a : FileAttr). a.size) (sym same),
        known ∙ ap (λ (a : FileAttr). some a.kind) same,
      )
]

-- Without a checked size it is a directory, if it has a type.
no_size_lem :
    (kind : FileKind) {type : FileType}
    → has_size kind ≡ false
    → file_type kind ≡ some type
    → type ≡ FileType.directory_type
no_size_lem is_dir h e = sym (some_eq e)
no_size_lem is_file h e = cc h
no_size_lem is_symlink h e = cc h
no_size_lem is_other h e = cc e

module _ (t : Runtime) (file : FsEntry t.paths) (fs : VerityFs t) where
  metadata_failed :
      {e : Option ℕ}
      → (t.source.symlink_metadata fs.world (entry_path file)).1 ≡ IoResult.failed e
      → (get_metadata t file fs).1 ≡ Outcome.err (errno_of t e)
  unfolding get_metadata
  metadata_failed h = rw (h, get_metadata) refl

  metadata_read :
      {metadata : Metadata}
      → (t.source.symlink_metadata fs.world (entry_path file)).1 ≡ IoResult.done metadata
      → get_metadata t file fs
        ≡ and_then t
            (
              record fs { world = (t.source.symlink_metadata fs.world (entry_path file)).0 },
              check_metadata_file_size file metadata,
            )
            (λ fs' _. (fs', Outcome.ok metadata))
  unfolding get_metadata
  metadata_read h = rw (h, get_metadata) refl

  -- Metadata that is given passed the check.
  get_metadata-checked :
      {fs' : VerityFs t} {metadata : Metadata}
      → get_metadata t file fs ≡ (fs', Outcome.ok metadata)
      → check_metadata_file_size file metadata ≡ Outcome.ok tt
  get_metadata-checked {fs'} {metadata} h =
      by_result (t.source.symlink_metadata fs.world (entry_path file)).1 refl
    where
      by_result :
          (res : IoResult Metadata)
          → (t.source.symlink_metadata fs.world (entry_path file)).1 ≡ res
          → check_metadata_file_size file metadata ≡ Outcome.ok tt
      by_result (failed e) read =
          let bad = sym (metadata_failed read) ∙ ap (λ (c : Call t Metadata). c.1) h in cc bad
      by_result (done m) read =
          let (fs1, u, passed, same) =
            and_then-ok {t = t}
              (
                record fs { world = (t.source.symlink_metadata fs.world (entry_path file)).0 },
                check_metadata_file_size file m,
              )
              (λ fs' _. (fs', Outcome.ok m)) (sym (metadata_read read) ∙ h) in
          ap (check_metadata_file_size file) (sym (ok_eq (ap (λ (c : Call t Metadata). c.1) same)))
          ∙ ap (λ (c : Call t (Unit {0})). c.1) passed

module _ (t : Runtime) (ino : ℕ) (fs : VerityFs t) where
  getattr_unknown :
      lookup_by_ino fs.verifier ino ≡ none → getattr t ino fs ≡ (fs, Outcome.err enoent)
  unfolding getattr
  getattr_unknown e = rw (e, getattr) refl

  getattr_known :
      {file : FsEntry t.paths}
      → lookup_by_ino fs.verifier ino ≡ some file
      → getattr t ino fs
        ≡ and_then t
            (get_metadata t file fs)
            (λ fs2 metadata. (fs2, metadata_to_attr (t.source.now fs2.world) metadata ino))
  unfolding getattr
  getattr_known e = rw (e, getattr) refl

  -- If `getattr` answers, then the attributes are about the file with the number, and the size is
  -- the one that was recorded, unless the directory below says that it is a directory.
  pub getattr-size :
      {fs' : VerityFs t} {attr : FileAttr}
      → getattr t ino fs ≡ (fs', Outcome.ok attr)
      → (file : FsEntry t.paths) × (lookup_by_ino fs.verifier ino ≡ some file)
        × (attr.ino ≡ ino)
        × ((attr.kind ≡ FileType.directory_type) ⊎ (expected_size file ≡ some attr.size))
  getattr-size h = elim (Option-cases (lookup_by_ino fs.verifier ino)) [
    | inl unknown ↦
        let bad = ap (λ (c : Call t FileAttr). c.1) (sym (getattr_unknown unknown) ∙ h) in cc bad
    | inr (file, found) ↦
        let (fs1, metadata, checked, made) =
          and_then-ok {t = t} (get_metadata t file fs)
            (λ fs2 metadata. (fs2, metadata_to_attr (t.source.now fs2.world) metadata ino))
            (sym (getattr_known found) ∙ h) in
        let (same_ino, same_size, type) =
          attr_lem (t.source.now fs1.world) ino metadata (ap (λ (c : Call t FileAttr). c.1) made) in
        (
          file,
          found,
          same_ino,
          elim (check-size file metadata (get_metadata-checked t file fs checked)) [
            | inl no_size ↦ inl (no_size_lem metadata.kind no_size type)
            | inr sized ↦ inr (sized ∙ ap some (sym same_size))
          ],
        )
  ]
