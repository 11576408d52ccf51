-- ===== src/VerityFuse/Source.antt =====
-- What verity-fuse uses of other crates: the directory below the mount (cap_std, which runs on system
-- calls), `libc::pread`, and the cache of the crate lru.
use Prim.Native.String.{String}
use cryptpilot.Prelude.{ℕ, ◌≤◌, ◌<◌, ◌≡◌, ◌⊎◌, Option, none, some, List, length}
use cryptpilot.VerityFuse.Paths.{RelativePaths}

-- A result of the system: a value, or an error with its number if it has one (`raw_os_error`).
pub data IoResult {ℓ} (A : Type ℓ) : Type ℓ where
  done : A → IoResult A
  failed : Option ℕ → IoResult A

pub data FileKind : Type 0 where
  is_dir is_file is_symlink is_other : FileKind

pub record Metadata : Type 0 where
  pub kind : FileKind
  pub len : ℕ
  pub accessed : Option ℕ
  pub modified : Option ℕ
  pub created : Option ℕ
  pub mode : ℕ
  pub nlink : ℕ
  pub uid : ℕ
  pub gid : ℕ

-- `cap_std::fs::DirEntry`: the name, and what `metadata()` gives.
pub record DirEntry : Type 0 where
  pub file_name : String
  pub metadata : IoResult Metadata

-- What `pread` gives: the bytes that it placed into the buffer, or the number of an error.
pub data PreadResult : Type 0 where
  bytes : List ℕ → PreadResult
  os_error : ℕ → PreadResult

-- The directory is not trusted and may change at any time, so every call gives a new world.
pub record Source (r : RelativePaths) : Type 1 where
  pub World : Type 0
  pub Handle : Type 0
  pub now : World → ℕ
  pub open_ambient_dir : World → String → World × IoResult (Unit {0})
  pub symlink_metadata : World → r.RelPath → World × IoResult Metadata
  pub open_file : World → r.RelPath → World × IoResult Handle
  pub pread : World → Handle → ℕ → ℕ → World × PreadResult
  -- The items of the iterator `ReadDir`; `none` is an item that is an error.
  pub read_dir : World → r.RelPath → World × IoResult (List (Option DirEntry))
  pub read_link : World → r.RelPath → World × IoResult String

abbrev pub eintr : ℕ
eintr = 4

-- `pread` places no more bytes than were asked for, and is not interrupted for ever: `patience`
-- bounds the interrupts that are left.
pub record SourceLaws {r : RelativePaths} (s : Source r) : Type 0 where
  pub pread_bound :
      (w : s.World) (h : s.Handle) (offset count : ℕ) (got : List ℕ)
      → (s.pread w h offset count).1 ≡ PreadResult.bytes got
      → length got ≤ count
  pub patience : s.World → ℕ
  pub patience-interrupt :
      (w : s.World) (h : s.Handle) (offset count : ℕ)
      → (s.pread w h offset count).1 ≡ PreadResult.os_error eintr
      → patience (s.pread w h offset count).0 < patience w
  pub patience-pread :
      (w : s.World) (h : s.Handle) (offset count : ℕ)
      → patience (s.pread w h offset count).0 ≤ patience w
  pub patience-open_file : (w : s.World) (p : r.RelPath) → patience (s.open_file w p).0 ≤ patience w

-- `lru::LruCache`: `get` changes the order of use, `put` may drop the entry that was not used longest.
pub record LruCache (K V : Type 0) : Type 1 where
  pub Cache : Type 0
  pub new : ℕ → Cache
  pub get : Cache → K → Cache × Option V
  pub put : Cache → K → V → Cache

pub record LruLaws {K V : Type 0} (c : LruCache K V) : Type 0 where
  pub contents : c.Cache → K → Option V
  pub contents-new : (n : ℕ) (k : K) → contents (c.new n) k ≡ none
  pub get-contents : (m : c.Cache) (k : K) → (c.get m k).1 ≡ contents m k
  pub contents-get : (m : c.Cache) (k j : K) → contents (c.get m k).0 j ≡ contents m j
  -- After `put` an entry is the new one or one that was there.
  pub contents-put :
      (m : c.Cache) (k : K) (v : V) (j : K) (w : V)
      → contents (c.put m k v) j ≡ some w
      → ((j ≡ k) × (w ≡ v)) ⊎ (contents m j ≡ some w)
