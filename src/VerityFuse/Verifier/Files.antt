-- ===== src/VerityFuse/Verifier/Files.antt =====
-- `VerityVerifier::new` of verity-fuse/src/file_verifier/verity_verifier.rs: all files are found, and
-- so are the directories above them.
use cryptpilot.Prelude.{
  ℕ, ◌+◌, ◌≤◌, ◌<◌, ◌≡◌, ◌≢◌, refl, sym, ap, ◌∙◌, subst, inl, inr, Bool, true, Bool-cases, some,
  List, [], ◌∷◌, ◌++◌, ◌==◌, if◌then◌else◌, arith,
}
use cryptpilot.Prelude.Dict.{lookup}
use cryptpilot.VerityCore.Config.{u64_mod}
use cryptpilot.VerityFuse.FileInfo.{FileVerityInfo}
use cryptpilot.VerityFuse.Paths.{RelativePaths, PathLaws}
use cryptpilot.VerityFuse.Verifier.{
  EntryKind, FsEntry, VerityVerifier, entry_path, register_entry, register_file, register_files,
  new, has_path, lookup_by_path, root_path, empty_verifier,
}
use cryptpilot.VerityFuse.Verifier.Register.{
  IsValid, next_ino-register_entry, register_entry-IsValid, lookup_by_path-register_entry,
  has_path-register_entry,
}
use cryptpilot.VerityFuse.Verifier.Parents.{Closed, Parents, register_parents-Parents}

nil_ne : {A : Type 0} (before : List A) (x : A) (after : List A) → [] ≡ before ++ x ∷ after → ⊥
nil_ne [] x after e = cc
nil_ne (b ∷ before) x after e = cc

head_eq : {A : Type 0} {x y : A} {xs ys : List A} → x ∷ xs ≡ y ∷ ys → x ≡ y
head_eq {x = x} e = ap (λ l. elim l [ [] ↦ x | h ∷ t ↦ h ]) e

tail_eq : {A : Type 0} {x y : A} {xs ys : List A} → x ∷ xs ≡ y ∷ ys → xs ≡ ys
tail_eq {xs = xs} e = ap (λ l. elim l [ [] ↦ xs | h ∷ t ↦ t ]) e

module _ (r : RelativePaths) where
  abbrev pub info_path : FileVerityInfo → r.RelPath
  info_path info = r.from_text info.path

  -- The most entries that the files can make: each file, and the directories above it.
  abbrev pub entries : List FileVerityInfo → ℕ
  entries [] = 0
  entries (info ∷ rest) = r.depth (info_path info) + 2 + entries rest

module _ {r : RelativePaths} (laws : PathLaws r) where
  -- What one file leaves.
  record Registered (v : VerityVerifier r) (info : FileVerityInfo) (v' : VerityVerifier r)
      : Type 0 where
    valid : IsValid v'
    closed : Closed v'
    bounded : v'.next_ino ≤ v.next_ino + (r.depth (info_path r info) + 2)
    found :
        (e : FsEntry r) × (lookup_by_path v' (info_path r info) ≡ some e)
        × (e.kind ≡ EntryKind.verity_enabled info)
    others :
        (p : r.RelPath) (e : FsEntry r)
        → info_path r info ≢ p
        → lookup_by_path v p ≡ some e
        → lookup_by_path v' p ≡ some e

  register_file-Registered :
      (v : VerityVerifier r) (info : FileVerityInfo)
      → IsValid v
      → Closed v
      → v.next_ino + (r.depth (info_path r info) + 2) < u64_mod
      → (v' : VerityVerifier r) × (register_file v info ≡ some v') × Registered v info v'
  unfolding register_file
  register_file-Registered v info valid closed room =
      let path = info_path r info in
      let kind : EntryKind r = EntryKind.verity_enabled info in
      let (w, run, p) =
        register_parents-Parents laws (r.depth path + 1) v path valid (omega arith) (omega arith)
          (λ p q h e n. inl (closed p q h e n)) in
      let room1 : w.next_ino + 1 < u64_mod = omega (arith, p.bounded) in
      (
        register_entry w path kind,
        rw run,
        record {
          valid = register_entry-IsValid laws w p.valid room1 path kind refl;
          closed = closed_file w p room1;
          bounded =
              omega (arith, p.bounded, next_ino-register_entry laws w p.valid room1 path kind);
          found = (
            record { ino = w.next_ino; kind = kind },
            lookup_by_path-register_entry laws w p.valid room1 path kind path
                ∙ rw ((laws.path_eq_iff path path).1 refl),
            refl,
          );
          others = λ q e other h.
              lookup_by_path-register_entry laws w p.valid room1 path kind q
              ∙ elim (Bool-cases (r.path_eq path q)) [
                | inl same ↦ absurd (other ((laws.path_eq_iff path q).0 same))
                | inr no_match ↦ rw no_match (p.extends.finds q e h)
              ];
        },
      )
    where
      closed_file :
          (w : VerityVerifier r)
          → (p : Parents laws (r.depth (info_path r info) + 1) v (info_path r info) w)
          → w.next_ino + 1 < u64_mod
          → Closed (register_entry w (info_path r info) (EntryKind.verity_enabled info))
      closed_file w p room1 a b h e n =
          let path : r.RelPath = info_path r info in
          let kind : EntryKind r = EntryKind.verity_enabled info in
          let has = has_path-register_entry laws w p.valid room1 path kind in
          let there : has_path w b ≡ true = elim (Bool-cases (r.path_eq path a)) [
            | inl same ↦ p.parent_there b (ap r.parent ((laws.path_eq_iff path a).0 same) ∙ e) n
            | inr other ↦
                p.closed a b
                  (sym (has a ∙ ap (λ (t : Bool). if t then true else has_path w a) other) ∙ h) e n
          ] in
          has b ∙ ground arith

  -- No later file takes the path `p`.
  abbrev pub NoneAt : r.RelPath → List FileVerityInfo → Type 0
  NoneAt p [] = Unit
  NoneAt p (info ∷ rest) = (info_path r info ≢ p) × NoneAt p rest

  -- What a list of files leaves.
  record AllRegistered (v : VerityVerifier r) (infos : List FileVerityInfo) (v' : VerityVerifier r)
      : Type 0 where
    valid : IsValid v'
    closed : Closed v'
    others :
        (p : r.RelPath) (e : FsEntry r)
        → NoneAt p infos
        → lookup_by_path v p ≡ some e
        → lookup_by_path v' p ≡ some e
    found :
        (before : List FileVerityInfo) (info : FileVerityInfo) (after : List FileVerityInfo)
        → infos ≡ before ++ info ∷ after
        → NoneAt (info_path r info) after
        → (e : FsEntry r) × (lookup_by_path v' (info_path r info) ≡ some e)
          × (e.kind ≡ EntryKind.verity_enabled info)

  register_files-AllRegistered :
      (v : VerityVerifier r) (infos : List FileVerityInfo)
      → IsValid v
      → Closed v
      → v.next_ino + entries r infos < u64_mod
      → (v' : VerityVerifier r) × (register_files v infos ≡ some v') × AllRegistered v infos v'
  unfolding register_files
  register_files-AllRegistered v [] valid closed room = (
    v,
    refl,
    record {
      valid = valid;
      closed = closed;
      others = λ p e none_at h. h;
      found = λ before info after e none_at. absurd (nil_ne before info after e);
    },
  )
  register_files-AllRegistered v (info ∷ rest) valid closed room =
      let (v1, run1, one) = register_file-Registered v info valid closed (omega arith) in
      let (v2, run2, all) =
        register_files-AllRegistered v1 rest one.valid one.closed (omega (arith, one.bounded)) in
      (
        v2,
        rw run1 run2,
        record {
          valid = all.valid;
          closed = all.closed;
          others = λ p e none_at h. all.others p e none_at.1 (one.others p e none_at.0 h);
          found = found_in v1 v2 one all;
        },
      )
    where
      found_in :
          (v1 v2 : VerityVerifier r)
          → Registered v info v1
          → AllRegistered v1 rest v2
          → (before : List FileVerityInfo) (i : FileVerityInfo) (after : List FileVerityInfo)
          → info ∷ rest ≡ before ++ i ∷ after
          → NoneAt (info_path r i) after
          → (e : FsEntry r) × (lookup_by_path v2 (info_path r i) ≡ some e)
            × (e.kind ≡ EntryKind.verity_enabled i)
      found_in v1 v2 one all [] i after e none_at =
          let (entry, here, kind) = one.found in
          let same : info ≡ i = head_eq e in
          let same_rest : rest ≡ after = tail_eq e in
          (
            entry,
            ap (λ (t : FileVerityInfo). lookup_by_path v2 (info_path r t)) (sym same)
                ∙ all.others (info_path r info) entry
                    (subst (λ (t : FileVerityInfo). NoneAt (info_path r t) rest) (sym same)
                      (subst (NoneAt (info_path r i)) (sym same_rest) none_at))
                    here,
            kind ∙ ap EntryKind.verity_enabled same,
          )
      found_in v1 v2 one all (x ∷ before) i after e none_at =
          all.found before i after (tail_eq e) none_at

  abbrev root : r.RelPath
  root = r.from_text root_path

  abbrev start : VerityVerifier r
  start = register_entry empty_verifier root (EntryKind.directory root)

  next_ino-start : start.next_ino ≡ 2
  unfolding register_entry
  next_ino-start = refl

  start-IsValid : IsValid start
  unfolding register_entry
  start-IsValid = record {
    numbered = λ i e h. numbered_one i e h;
    linked = λ p i h. linked_one p i h;
    root_entry = refl;
  }
    where
      entry : FsEntry r
      entry = record { ino = 1; kind = EntryKind.directory root }

      numbered_one :
          (i : ℕ) (e : FsEntry r)
          → lookup ◌==◌ i start.ino_to_file ≡ some e
          → (i < start.next_ino) × (e.ino ≡ i)
      numbered_one i e h = ground arith

      linked_one :
          (p : r.RelPath) (i : ℕ)
          → lookup r.path_eq p start.path_to_ino ≡ some i
          → (e : FsEntry r) × (lookup ◌==◌ i start.ino_to_file ≡ some e) × (entry_path e ≡ p)
      linked_one p i h =
          let same : r.path_eq root p ≡ true = ground arith in
          let one : 1 ≡ i = ground arith in (entry, ground arith, (laws.path_eq_iff root p).0 same)

  start-Closed : Closed start
  unfolding register_entry
  start-Closed p q h e n =
      let same : r.path_eq root p ≡ true = ground arith in
      cc (laws.parent_root, e, ap r.parent ((laws.path_eq_iff root p).0 same))

  -- The verifier of the files, with all that the loop over them leaves.
  built :
      (infos : List FileVerityInfo)
      → 2 + entries r infos < u64_mod
      → (v : VerityVerifier r) × (new infos ≡ some v) × AllRegistered start infos v
  unfolding new
  built infos room =
      register_files-AllRegistered start infos start-IsValid start-Closed
        (omega (arith, next_ino-start))

  -- As long as the numbers do not run out, the verifier of any files is built. Its numbers and paths
  -- are in step with the entries and with the root as number 1, and the directory above every
  -- registered path is registered too.
  pub new-IsValid :
      (infos : List FileVerityInfo)
      → 2 + entries r infos < u64_mod
      → (v : VerityVerifier r) × (new infos ≡ some v) × IsValid v × Closed v
  new-IsValid infos room = let (v, run, all) = built infos room in (v, run, all.valid, all.closed)

  -- As long as the numbers do not run out, the verifier of a list of files is built and finds a
  -- file at its path, with all its information, unless a later file has the same path.
  pub lookup_by_path-new :
      (before : List FileVerityInfo) (info : FileVerityInfo) (after : List FileVerityInfo)
      → 2 + entries r (before ++ info ∷ after) < u64_mod
      → NoneAt (info_path r info) after
      → (v : VerityVerifier r) × (e : FsEntry r) × (new (before ++ info ∷ after) ≡ some v)
        × (lookup_by_path v (info_path r info) ≡ some e)
        × (e.kind ≡ EntryKind.verity_enabled info)
  lookup_by_path-new before info after room none_at =
      let (v, run, all) = built (before ++ info ∷ after) room in
      let (e, found, kind) = all.found before info after refl none_at in (v, e, run, found, kind)
