-- ===== src/VerityFuse/Verifier/Parents.antt =====
-- The loop of `VerityVerifier::new` of verity-fuse/src/file_verifier/verity_verifier.rs that registers
-- the directories above a file.
use cryptpilot.Prelude.{
  ℕ, zero, suc, ◌+◌, ◌≤◌, ◌<◌, ◌≡◌, refl, sym, ap, ◌∙◌, inl, inr, ◌⊎◌, Bool, true, false,
  Bool-cases, Option-cases, none, some, if◌then◌else◌, some_eq, arith,
}
use cryptpilot.Prelude.Dict.{lookup, is_some}
use cryptpilot.VerityCore.Config.{u64_mod}
use cryptpilot.VerityFuse.Paths.{RelativePaths, PathLaws}
use cryptpilot.VerityFuse.Verifier.{
  EntryKind, FsEntry, VerityVerifier, register_entry, register_parents, has_path, lookup_by_path,
}
use cryptpilot.VerityFuse.Verifier.Register.{
  IsValid, next_ino-register_entry, register_entry-IsValid, lookup_by_path-register_entry,
  has_path-register_entry,
}

module _ {r : RelativePaths} where
  -- The directory above every registered path is registered; only that of `current` may be missing.
  abbrev pub OpenAt : VerityVerifier r → r.RelPath → Type 0
  OpenAt v current =
      (p q : r.RelPath)
      → has_path v p ≡ true
      → r.parent p ≡ some q
      → r.is_empty_text q ≡ false
      → (has_path v q ≡ true) ⊎ (p ≡ current)

  abbrev pub Closed : VerityVerifier r → Type 0
  Closed v =
      (p q : r.RelPath)
      → has_path v p ≡ true
      → r.parent p ≡ some q
      → r.is_empty_text q ≡ false
      → has_path v q ≡ true

-- What is found in `v` is found in `v'`.
pub record Extends {r : RelativePaths} (v v' : VerityVerifier r) : Type 0 where
  pub finds :
      (p : r.RelPath) (e : FsEntry r) → lookup_by_path v p ≡ some e → lookup_by_path v' p ≡ some e
  pub keeps : (p : r.RelPath) → has_path v p ≡ true → has_path v' p ≡ true

module _ {r : RelativePaths} (v : VerityVerifier r) (current : r.RelPath) (fuel : ℕ) where
  stop_at_top : r.parent current ≡ none → register_parents (suc fuel) v current ≡ some v
  unfolding register_parents
  stop_at_top top = rw (top, register_parents) refl

  module _ {q : r.RelPath} (up : r.parent current ≡ some q) where
    stop_at_root : r.is_empty_text q ≡ true → register_parents (suc fuel) v current ≡ some v
    unfolding register_parents
    stop_at_root root = rw (up, register_parents) (rw (root, register_parents) refl)

    go_on :
        r.is_empty_text q ≡ false
        → register_parents (suc fuel) v current
          ≡ register_parents fuel
              (if has_path v q then v else register_entry v q (EntryKind.directory q))
              q
    unfolding register_parents
    go_on below = rw (up, register_parents) (rw (below, register_parents) refl)

pub found_has :
    {r : RelativePaths} (v : VerityVerifier r) (p : r.RelPath) {e : FsEntry r}
    → lookup_by_path v p ≡ some e
    → has_path v p ≡ true
unfolding lookup_by_path
found_has {r} v p h = elim (Option-cases (lookup r.path_eq p v.path_to_ino)) [
  | inl missing ↦ absurd (ground arith)
  | inr (i, found) ↦ ap is_some found
]

-- One more directory, above `current`.
module _ {r : RelativePaths} (laws : PathLaws r) (v : VerityVerifier r) (valid : IsValid v)
    (room : v.next_ino + 1 < u64_mod) (q : r.RelPath) (missing : has_path v q ≡ false) where
  abbrev with_directory : VerityVerifier r
  with_directory = register_entry v q (EntryKind.directory q)

  has_new :
      (p : r.RelPath) → has_path with_directory p ≡ (if r.path_eq q p then true else has_path v p)
  has_new p = has_path-register_entry laws v valid room q (EntryKind.directory q) p

  directory-keeps : (p : r.RelPath) → has_path v p ≡ true → has_path with_directory p ≡ true
  directory-keeps p h = has_new p ∙ ground arith

  directory-finds :
      (p : r.RelPath) (e : FsEntry r)
      → lookup_by_path v p ≡ some e
      → lookup_by_path with_directory p ≡ some e
  directory-finds p e h =
      lookup_by_path-register_entry laws v valid room q (EntryKind.directory q) p
      ∙ elim (Bool-cases (r.path_eq q p)) [
        | inl same ↦
            let there : has_path v q ≡ true =
              ap (has_path v) ((laws.path_eq_iff q p).0 same) ∙ found_has v p h in
            cc (there, missing)
        | inr other ↦ rw other h
      ]

  directory-Extends : Extends v with_directory
  directory-Extends = record { finds = directory-finds; keeps = directory-keeps }

  has_directory : has_path with_directory q ≡ true
  has_directory = has_new q ∙ rw ((laws.path_eq_iff q q).1 refl)

  directory-OpenAt :
      {current : r.RelPath} → r.parent current ≡ some q → OpenAt v current → OpenAt with_directory q
  directory-OpenAt {current} up open_at p q' h e n = elim (Bool-cases (r.path_eq q p)) [
    | inl same ↦ inr (sym ((laws.path_eq_iff q p).0 same))
    | inr other ↦
        let old : has_path v p ≡ true =
          sym (has_new p ∙ ap (λ (b : Bool). if b then true else has_path v p) other) ∙ h in
        elim (open_at p q' old e n) [
          | inl there ↦ inl (directory-keeps q' there)
          | inr here ↦ inl (
              ap (has_path with_directory) (some_eq (sym e ∙ ap r.parent here ∙ up))
              ∙ has_directory)
        ]
  ]

module _ {r : RelativePaths} (laws : PathLaws r) where
  -- What `register_parents` leaves, starting at `v` and `current` with `fuel`.
  pub record Parents (fuel : ℕ) (v : VerityVerifier r) (current : r.RelPath) (v' : VerityVerifier r)
      : Type 0 where
    pub valid : IsValid v'
    pub bounded : v'.next_ino ≤ v.next_ino + fuel
    pub extends : Extends v v'
    pub closed : Closed v'
    pub parent_there :
        (q : r.RelPath)
        → r.parent current ≡ some q
        → r.is_empty_text q ≡ false
        → has_path v' q ≡ true

  -- The loop stops: no directory is left above.
  stopped :
      (fuel : ℕ) (v : VerityVerifier r) (current : r.RelPath)
      → IsValid v
      → OpenAt v current
      → ((q : r.RelPath) → r.parent current ≡ some q → r.is_empty_text q ≡ false → ⊥)
      → Parents fuel v current v
  stopped fuel v current valid open_at no_more = record {
    valid = valid;
    bounded = omega arith;
    extends = record { finds = λ p e h. h; keeps = λ p h. h };
    closed = λ p q h e n. elim (open_at p q h e n) [
      | inl there ↦ there
      | inr here ↦ absurd (no_more q (ap r.parent (sym here) ∙ e) n)
    ];
    parent_there = λ q e n. absurd (no_more q e n);
  }

  -- The loop goes on at the directory `q`, which is there in `w`.
  continued :
      (fuel : ℕ) {v w v' : VerityVerifier r} {current q : r.RelPath}
      → r.parent current ≡ some q
      → has_path w q ≡ true
      → Extends v w
      → w.next_ino ≤ v.next_ino + 1
      → Parents fuel w q v'
      → Parents (suc fuel) v current v'
  continued fuel {v' = v'} {q = q} up there ext step p = record {
    valid = p.valid;
    bounded = omega (arith, p.bounded);
    extends = record {
      finds = λ x e h. p.extends.finds x e (ext.finds x e h);
      keeps = λ x h. p.extends.keeps x (ext.keeps x h);
    };
    closed = p.closed;
    parent_there = λ x e n. ap (has_path v') (some_eq (sym e ∙ up)) ∙ p.extends.keeps q there;
  }

  pub register_parents-Parents :
      (fuel : ℕ) (v : VerityVerifier r) (current : r.RelPath)
      → IsValid v
      → v.next_ino + fuel < u64_mod
      → r.depth current < fuel
      → OpenAt v current
      → (v' : VerityVerifier r) × (register_parents fuel v current ≡ some v')
        × Parents fuel v current v'
  register_parents-Parents zero v current valid room deep open_at = absurd (omega arith)
  register_parents-Parents (suc fuel) v current valid room deep open_at =
      elim (Option-cases (r.parent current)) [
        | inl top ↦ (
          v,
          stop_at_top v current fuel top,
          stopped (suc fuel) v current valid open_at (λ q e n. cc (top, e)),
        )
        | inr (q, up) ↦ elim (Bool-cases (r.is_empty_text q)) [
          | inl root ↦ (
            v,
            stop_at_root v current fuel up root,
            stopped (suc fuel) v current valid open_at (λ q' e n.
                let same : q ≡ q' = some_eq (sym up ∙ e) in cc (root, n, ap r.is_empty_text same)),
          )
          | inr below ↦ elim (Bool-cases (has_path v q)) [
            | inl there ↦
                let (v', run, rest) =
                  register_parents-Parents fuel v q valid (omega arith)
                    (omega (arith, laws.depth-parent current q up))
                    (λ p q' h e n. elim (open_at p q' h e n) [
                      | inl old ↦ inl old
                      | inr here ↦
                          inl (ap (has_path v) (some_eq (sym e ∙ ap r.parent here ∙ up)) ∙ there)
                    ]) in
                (
                  v',
                  go_on v current fuel up below ∙ rw there run,
                  continued fuel up there (record { finds = λ p e h. h; keeps = λ p h. h })
                      (omega arith) rest,
                )
            | inr missing ↦
                let room1 : v.next_ino + 1 < u64_mod = omega arith in
                let next = next_ino-register_entry laws v valid room1 q (EntryKind.directory q) in
                let (v', run, rest) =
                  register_parents-Parents fuel (register_entry v q (EntryKind.directory q)) q
                    (register_entry-IsValid laws v valid room1 q (EntryKind.directory q) refl)
                    (omega (arith, next)) (omega (arith, laws.depth-parent current q up))
                    (directory-OpenAt laws v valid room1 q missing up open_at) in
                (
                  v',
                  go_on v current fuel up below ∙ rw missing run,
                  continued fuel up (has_directory laws v valid room1 q missing)
                      (directory-Extends laws v valid room1 q missing) (omega (arith, next)) rest,
                )
          ]
        ]
      ]
