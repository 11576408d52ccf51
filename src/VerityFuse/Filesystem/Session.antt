-- ===== src/VerityFuse/Filesystem/Session.antt =====
-- Sequences of requests to the file system of verity-fuse/src/filesystem.rs, as the kernel makes them.
pub mod Unread
pub mod Answers
use Prim.Native.String.{String}
use cryptpilot.Prelude.{ℕ, ◌+◌, ◌^◌, ◌≤◌, Bool, List}
use cryptpilot.Prelude.Int.{ℤ}
use cryptpilot.VerityFuse.Filesystem.{Runtime, VerityFs, read, open_entry, readlink}
use cryptpilot.VerityFuse.Filesystem.Attributes.{Listed, getattr, lookup_entry, readdir}
use cryptpilot.VerityFuse.Filesystem.Sound.{RuntimeLaws}

-- The states that requests lead to. A read has fuel for a block and for the interrupts that are left.
pub data Session {t : Runtime} (laws : RuntimeLaws t) (start : VerityFs t)
    : VerityFs t → Type 0 where
  mounted : Session laws start start
  looked_up :
      {fs : VerityFs t}
      → Session laws start fs
      → (parent : ℕ) (name : String) → Session laws start (lookup_entry t parent name fs).0
  asked :
      {fs : VerityFs t}
      → Session laws start fs
      → (ino : ℕ) → Session laws start (getattr t ino fs).0
  listed :
      {fs : VerityFs t}
      → Session laws start fs
      → (full : List (ℕ × Listed) → Listed → Bool) (ino : ℕ) (offset : ℤ)
      → Session laws start (readdir t full ino offset fs).0
  opened :
      {fs : VerityFs t}
      → Session laws start fs
      → (ino : ℕ) → Session laws start (open_entry t ino fs).0
  followed :
      {fs : VerityFs t}
      → Session laws start fs
      → (ino : ℕ) → Session laws start (readlink t ino fs).0
  served :
      {fs : VerityFs t}
      → Session laws start fs
      → (fuel : ℕ) → 2 ^ 32 + laws.source_laws.patience fs.world ≤ fuel
      → (ino : ℕ) (offset : ℤ) (size : ℕ) → Session laws start (read t fuel ino offset size fs).0
