-- ===== src/VerityFuse/Verifier/Register.antt =====
-- `register_entry` of verity-fuse/src/file_verifier/verity_verifier.rs keeps the two maps in step.
use cryptpilot.Prelude.{
  ℕ, ◌+◌, ◌<◌, ◌≡◌, refl, sym, ap, ◌∙◌, inl, inr, Bool, true, Bool-cases, Option-cases, some, ◌==◌,
  ==_iff, if◌then◌else◌, some_eq, arith,
}
use native.Mathlib.Nat.{mod-eq_of_lt}
use cryptpilot.Prelude.Dict.{lookup, is_some}
use cryptpilot.VerityCore.Config.{u64_mod}
use cryptpilot.VerityFuse.Paths.{RelativePaths, PathLaws}
use cryptpilot.VerityFuse.Verifier.{
  EntryKind, FsEntry, VerityVerifier, kind_path, entry_path, register_entry, has_path,
  lookup_by_path, root_path,
}

-- Every number leads to an entry of that number below the next free one, and every path to a number
-- whose entry has that path. The root is number 1.
pub record IsValid {r : RelativePaths} (v : VerityVerifier r) : Type 0 where
  pub numbered :
      (i : ℕ) (e : FsEntry r)
      → lookup ◌==◌ i v.ino_to_file ≡ some e
      → (i < v.next_ino) × (e.ino ≡ i)
  pub linked :
      (p : r.RelPath) (i : ℕ)
      → lookup r.path_eq p v.path_to_ino ≡ some i
      → (e : FsEntry r) × (lookup ◌==◌ i v.ino_to_file ≡ some e) × (entry_path e ≡ p)
  pub root_entry :
      lookup ◌==◌ 1 v.ino_to_file
      ≡ some (record { ino = 1; kind = EntryKind.directory (r.from_text root_path) })

module _ {r : RelativePaths} (laws : PathLaws r) (v : VerityVerifier r) (valid : IsValid v)
    (room : v.next_ino + 1 < u64_mod) (path : r.RelPath) (kind : EntryKind r) where
  pub next_ino-register_entry : (register_entry v path kind).next_ino ≡ v.next_ino + 1
  unfolding register_entry
  next_ino-register_entry = mod-eq_of_lt room

  -- An entry that is there stays there.
  pub lookup-register_entry :
      (i : ℕ) {e : FsEntry r}
      → lookup ◌==◌ i v.ino_to_file ≡ some e
      → lookup ◌==◌ i (register_entry v path kind).ino_to_file ≡ some e
  unfolding register_entry
  lookup-register_entry i {e} h = let fact = valid.numbered i e h in ground arith

  abbrev new_entry : FsEntry r
  new_entry = record { ino = v.next_ino; kind = kind }

  ino_lookup :
      (i : ℕ)
      → lookup ◌==◌ i (register_entry v path kind).ino_to_file
        ≡ (if v.next_ino == i then some new_entry else lookup ◌==◌ i v.ino_to_file)
  unfolding register_entry
  ino_lookup i = refl

  pub path_lookup :
      (p : r.RelPath)
      → lookup r.path_eq p (register_entry v path kind).path_to_ino
        ≡ (if r.path_eq path p then some v.next_ino else lookup r.path_eq p v.path_to_ino)
  unfolding register_entry
  path_lookup p = refl

  numbered-register_entry :
      (i : ℕ) (e : FsEntry r)
      → lookup ◌==◌ i (register_entry v path kind).ino_to_file ≡ some e
      → (i < (register_entry v path kind).next_ino) × (e.ino ≡ i)
  numbered-register_entry i e h = elim (Bool-cases (v.next_ino == i)) [
    | inl new ↦
        let here : some new_entry ≡ some e =
          sym (
            ino_lookup i
            ∙ ap (λ (b : Bool). if b then some new_entry else lookup ◌==◌ i v.ino_to_file) new)
          ∙ h in
        let same = (==_iff v.next_ino i).0 new in
        (
          omega (arith, next_ino-register_entry),
          sym (ap (λ (t : FsEntry r). t.ino) (some_eq here)) ∙ same,
        )
    | inr old ↦
        let fact = valid.numbered i e (
          sym (
            ino_lookup i
            ∙ ap (λ (b : Bool). if b then some new_entry else lookup ◌==◌ i v.ino_to_file) old)
          ∙ h) in
        (omega (arith, next_ino-register_entry, fact.0), fact.1)
  ]

  pub new_number : lookup ◌==◌ v.next_ino (register_entry v path kind).ino_to_file ≡ some new_entry
  new_number =
      ino_lookup v.next_ino
      ∙ ap (λ (b : Bool). if b then some new_entry else lookup ◌==◌ v.next_ino v.ino_to_file)
          ((==_iff v.next_ino v.next_ino).1 refl)

  linked-register_entry :
      kind_path kind ≡ path
      → (p : r.RelPath) (i : ℕ)
      → lookup r.path_eq p (register_entry v path kind).path_to_ino ≡ some i
      → (e : FsEntry r) × (lookup ◌==◌ i (register_entry v path kind).ino_to_file ≡ some e)
        × (entry_path e ≡ p)
  linked-register_entry named p i h = elim (Bool-cases (r.path_eq path p)) [
    | inl same ↦
        let number : v.next_ino ≡ i = some_eq (
          sym (
            path_lookup p
            ∙ ap (λ (b : Bool). if b then some v.next_ino else lookup r.path_eq p v.path_to_ino)
                same)
          ∙ h) in
        (
          new_entry,
          ap (λ (k : ℕ). lookup ◌==◌ k (register_entry v path kind).ino_to_file) (sym number)
              ∙ new_number,
          named ∙ (laws.path_eq_iff path p).0 same,
        )
    | inr other ↦
        let (e, found, at_path) = valid.linked p i (
          sym (
            path_lookup p
            ∙ ap (λ (b : Bool). if b then some v.next_ino else lookup r.path_eq p v.path_to_ino)
                other)
          ∙ h) in
        (e, lookup-register_entry i found, at_path)
  ]

  pub register_entry-IsValid : kind_path kind ≡ path → IsValid (register_entry v path kind)
  register_entry-IsValid named = record {
    numbered = numbered-register_entry;
    linked = linked-register_entry named;
    root_entry = lookup-register_entry 1 valid.root_entry;
  }

  -- What a path leads to after an entry was added.
  pub lookup_by_path-register_entry :
      (p : r.RelPath)
      → lookup_by_path (register_entry v path kind) p
        ≡ (if r.path_eq path p then some new_entry else lookup_by_path v p)
  unfolding lookup_by_path
  lookup_by_path-register_entry p = elim (Bool-cases (r.path_eq path p)) [
    | inl same ↦ rw (path_lookup p) (rw same new_number)
    | inr other ↦ rw (path_lookup p) (
        rw other (elim (Option-cases (lookup r.path_eq p v.path_to_ino)) [
          | inl missing ↦ rw missing refl
          | inr (i, found) ↦
              let (e, there, _) = valid.linked p i found in
              rw found (lookup-register_entry i there ∙ sym there)
        ]))
  ]

  pub has_path-register_entry :
      (p : r.RelPath)
      → has_path (register_entry v path kind) p ≡ (if r.path_eq path p then true else has_path v p)
  has_path-register_entry p = elim (Bool-cases (r.path_eq path p)) [
    | inl same ↦ ap is_some (path_lookup p) ∙ rw same
    | inr other ↦ ap is_some (path_lookup p) ∙ rw other
  ]
