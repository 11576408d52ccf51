-- ===== src/VerityFuse/Filesystem/Session/Answers.antt =====
-- After any requests to the file system of verity-fuse/src/filesystem.rs, a read gives the original
-- bytes.
use Prim.Native.String.{String}
use cryptpilot.Prelude.{
  ℕ, ◌+◌, ◌^◌, ◌≤◌, ◌≡◌, refl, sym, ap, ◌∙◌, subst, Option, none, some, List, [], concat, length,
}
use cryptpilot.Prelude.Int.{ℤ}
use cryptpilot.VerityCore.Block.{FsVerityConfig, config_new}
use cryptpilot.VerityCore.Merkle.{MerkleTree}
use cryptpilot.VerityCore.Descriptor.{FsVerityDescriptor}
use cryptpilot.VerityCore.Digest.{measure}
use cryptpilot.VerityCore.Digest.Correct.{capacity}
use cryptpilot.VerityFuse.Source.{IoResult}
use cryptpilot.VerityFuse.Verifier.{FsEntry, VerityVerifier, lookup_by_ino}
use cryptpilot.VerityFuse.Verifier.Register.{IsValid}
use cryptpilot.VerityFuse.Filesystem.{
  Runtime, VerityFs, Call, new_with_block_cache, open_file_cached, open_entry, readlink, read,
}
use cryptpilot.VerityFuse.Filesystem.Attributes.{getattr, lookup_entry, readdir}
use cryptpilot.VerityFuse.Filesystem.Sound.{
  RuntimeLaws, IsSound, Kept, Kept-refl, Good, and_then-Good,
}
use cryptpilot.VerityFuse.Filesystem.Opening.{open_file_cached-Good}
use cryptpilot.VerityFuse.Filesystem.Request.{FileAnswer, read-IsSound}
use cryptpilot.VerityFuse.Filesystem.Start.{new_with_block_cache-IsSound}
use cryptpilot.VerityFuse.Filesystem.Authentic.{Original, measured_file, read-Original}
use cryptpilot.VerityFuse.Filesystem.Session.{
  Session, mounted, looked_up, asked, listed, opened, followed, served,
}
use cryptpilot.VerityFuse.Filesystem.Session.Unread.{
  Unread, lookup_entry-Unread, getattr-Unread, readdir-Unread, readlink-Unread,
}

module _ {t : Runtime} (laws : RuntimeLaws t) where
  -- The verifier is the given one, and every block in the cache is valid.
  abbrev Holds : VerityVerifier t.paths → VerityFs t → Type 0
  Holds verifier fs = (fs.verifier ≡ verifier) × IsSound laws fs

  Unread-Holds :
      {A : Type 0} (verifier : VerityVerifier t.paths) (fs : VerityFs t) (c : Call t A)
      → Holds verifier fs
      → Unread fs c
      → Holds verifier c.0
  Unread-Holds verifier fs c (same, sound) (v, b) = (
    v ∙ same,
    λ key content file held found.
        sound key content file (ap (λ cache. laws.block_laws.contents cache key) (sym b) ∙ held)
          (ap (λ u. lookup_by_ino u key.ino) (sym v) ∙ found),
  )

  Kept-Holds :
      (verifier : VerityVerifier t.paths) (fs fs' : VerityFs t)
      → Holds verifier fs
      → Kept laws fs fs'
      → Holds verifier fs'
  Kept-Holds verifier fs fs' (same, sound) kept = (kept.same_verifier ∙ same, kept.sound)

  open_entry-Kept :
      (fs : VerityFs t) → IsSound laws fs → (ino : ℕ) → Kept laws fs (open_entry t ino fs).0
  unfolding open_entry
  open_entry-Kept fs sound ino = by_entry _ refl
    where
      by_entry :
          (found : Option (FsEntry t.paths))
          → lookup_by_ino fs.verifier ino ≡ found
          → Kept laws fs (open_entry t ino fs).0
      by_entry none h = rw (h, open_entry) (Kept-refl laws fs sound)
      by_entry (some file) h =
          rw (h, open_entry)
            (and_then-Good laws (λ handle. Unit {0}) (λ entry. Unit {0})
              (open_file_cached t file fs) _ (open_file_cached-Good laws fs sound file)
              (λ fs' handle kept u. (Kept-refl laws fs' kept.sound, tt))).0

  Session-Holds :
      (verifier : VerityVerifier t.paths) {start : VerityFs t}
      → IsValid verifier
      → Holds verifier start
      → {fs : VerityFs t} → Session laws start fs
      → Holds verifier fs
  Session-Holds verifier valid h mounted = h
  Session-Holds verifier valid h (looked_up {fs} s parent name) =
      Unread-Holds verifier fs (lookup_entry t parent name fs) (Session-Holds verifier valid h s)
        (lookup_entry-Unread fs parent name)
  Session-Holds verifier valid h (asked {fs} s ino) =
      Unread-Holds verifier fs (getattr t ino fs) (Session-Holds verifier valid h s)
        (getattr-Unread fs ino)
  Session-Holds verifier valid h (listed {fs} s full ino offset) =
      Unread-Holds verifier fs (readdir t full ino offset fs) (Session-Holds verifier valid h s)
        (readdir-Unread fs full ino offset)
  Session-Holds verifier valid h (followed {fs} s ino) =
      Unread-Holds verifier fs (readlink t ino fs) (Session-Holds verifier valid h s)
        (readlink-Unread fs ino)
  Session-Holds verifier valid h (opened {fs} s ino) =
      let before = Session-Holds verifier valid h s in
      Kept-Holds verifier fs _ before (open_entry-Kept fs before.1 ino)
  Session-Holds verifier valid h (served {fs} s fuel enough ino offset size) =
      let before = Session-Holds verifier valid h s in
      Kept-Holds verifier fs _ before
        (read-IsSound laws fuel fs before.1 (subst IsValid (sym before.0) valid) enough ino offset
          size).0

  -- Mount a directory with a valid verifier in which a file has the descriptor and the tree of a
  -- measurement without salt of bytes that the digest can count. After any requests, in any order and
  -- whatever the directory below gave to them, a read of the file with fuel for a block and for the
  -- interrupts that are left returns. If it answers with bytes, then the request was empty, or they are,
  -- byte for byte, those at the places that the request asks for of blocks that reach to its end; and
  -- each of these blocks is the measured one with the same number, up to zero bytes at its end, or
  -- differs from that one and has the same hash.
  pub Session-Original :
      (size : ℕ) {config : FsVerityConfig t.hash} (made : config_new t.hash size [] ≡ some config)
      (pieces : List (List ℕ)) {descriptor : FsVerityDescriptor} {tree : MerkleTree}
      (counts : length (concat pieces) ≤ capacity t.hash size)
      (run : measure t.hash [] size pieces ≡ some (descriptor, tree)) (path hash : String) (ino : ℕ)
      (source : String) (verifier : VerityVerifier t.paths) (blocks : ℕ) (w : t.source.World)
      {start : VerityFs t}
      → IsValid verifier
      → lookup_by_ino verifier ino
        ≡ some (measured_file laws size made pieces counts run path hash ino)
      → new_with_block_cache t source verifier blocks w ≡ IoResult.done start
      → {fs : VerityFs t} → Session laws start fs
      → (fuel : ℕ) → 2 ^ 32 + laws.source_laws.patience fs.world ≤ fuel
      → (offset : ℤ) (count : ℕ)
      → Good laws
          (FileAnswer
            (measured_file laws size made pieces counts run path hash ino)
            (Original laws size made pieces counts run)
            offset
            count)
          fs
          (read t fuel ino offset count fs)
  Session-Original size made pieces counts run path hash ino source verifier blocks w valid known
        started {fs} s fuel enough offset count =
      let holds =
        Session-Holds verifier valid
          (new_with_block_cache-IsSound laws source verifier blocks w started) s in
      read-Original laws size made pieces counts run path hash ino fuel fs holds.1
        (subst IsValid (sym holds.0) valid) (ap (λ v. lookup_by_ino v ino) holds.0 ∙ known) enough
        offset count
