-- ===== src/VerityFuse/Filesystem/Attributes/Listing.antt =====
-- `readdir` of verity-fuse/src/filesystem.rs: the offsets of a listing.
use cryptpilot.Prelude.{
  ℕ, suc, ◌+◌, ◌≡◌, refl, sym, ap, ◌∙◌, Bool, false, Bool-cases, List, [], ◌∷◌, ◌++◌, append-nil,
  append_assoc, leb, take, drop, arith, inl, inr,
}
use cryptpilot.Prelude.Int.{ℤ}
use cryptpilot.VerityFuse.Outcome.{Outcome}
use cryptpilot.VerityFuse.Filesystem.{Runtime, VerityFs}
use cryptpilot.VerityFuse.Filesystem.Attributes.{
  FileType, Listed, add_entries, dot_entries, dir_children, dir_entries, readdir,
}

-- Entries with consecutive offsets.
abbrev pub numbered : ℕ → List Listed → List (ℕ × Listed)
numbered index [] = []
numbered index (entry ∷ rest) = (index, entry) ∷ numbered (index + 1) rest

add_entries-more :
    (full : List (ℕ × Listed) → Listed → Bool) (index : ℕ) (added : List (ℕ × Listed))
    (entries : List Listed)
    → (n : ℕ) × (add_entries full index added entries ≡ added ++ numbered index (take n entries))
unfolding add_entries
add_entries-more full index added [] = (0, sym (append-nil added))
add_entries-more full index added (entry ∷ rest) =
    let (n, same) = add_entries-more full (index + 1) (added ++ (index, entry) ∷ []) rest in
    elim (Bool-cases (full added entry)) [
      | inl no_room ↦ (0, rw no_room (sym (append-nil added)))
      | inr room ↦ (
        suc n,
        rw room
            (same ∙ append_assoc added ((index, entry) ∷ []) (numbered (index + 1) (take n rest))),
      )
    ]

-- The two entries that every listing from the start begins with.
abbrev pub dots : ℕ → List Listed
dots ino =
    record { ino = ino; kind = FileType.directory_type; name = "." }
    ∷ record { ino = ino; kind = FileType.directory_type; name = ".." }
    ∷ []

module _ (t : Runtime) (full : List (ℕ × Listed) → Listed → Bool) (ino : ℕ) (fs : VerityFs t)
    {fs' : VerityFs t} {children : List Listed}
    (listed : dir_children t ino fs ≡ (fs', Outcome.ok children)) where
  -- If the entries of a directory are collected, then a listing from the start reports a first part
  -- of the directory itself, the one above it and those entries, numbered from 1 without a gap.
  pub readdir-start :
      (n : ℕ) × (readdir t full ino (ℤ.pos 0) fs
        ≡ (fs', Outcome.ok (numbered 1 (take n (dots ino ++ children)))))
  unfolding readdir dir_entries dot_entries
  readdir-start =
      let (n, same) = add_entries-more full 1 [] (dots ino ++ children) in
      (n, rw listed (ap (λ (x : List (ℕ × Listed)). (fs', Outcome.ok x)) same))

  no_dots : (k : ℕ) → dot_entries ino (ℤ.pos (suc (suc k))) ≡ []
  unfolding dot_entries
  no_dots k =
      let first : leb (suc (suc k)) 0 ≡ false = ground arith in
      let second : leb (suc (suc k)) 1 ≡ false = ground arith in rw first (rw second refl)

  -- If the entries of a directory are collected, then a listing that goes on at an offset `k + 2`
  -- reports a first part of what is left without the first `k + 2` of them, although in the listing
  -- from the start the entry after that offset is number `k` of them, counted from 0.
  pub readdir-skips :
      (k : ℕ)
      → ((n : ℕ) × (readdir t full ino (ℤ.pos (suc (suc k))) fs ≡ (
        fs',
        Outcome.ok (numbered (suc (suc k) + 1) (take n (drop (suc (suc k)) children))),
      )))
        × (drop (suc (suc k)) (dots ino ++ children) ≡ drop k children)
  unfolding readdir dir_entries
  readdir-skips k =
      let (n, same) = add_entries-more full (suc (suc k) + 1) [] (drop (suc (suc k)) children) in
      (
        (n, rw listed (rw (no_dots k) (ap (λ (x : List (ℕ × Listed)). (fs', Outcome.ok x)) same))),
        refl,
      )
