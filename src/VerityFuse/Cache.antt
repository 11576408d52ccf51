-- ===== src/VerityFuse/Cache.antt =====
-- The caches and the reads of verity-fuse/src/file_handle_cache.rs. A mutex is held for a whole call,
-- so a call is one step on the cache.
pub mod Pread
pub mod Handles
use cryptpilot.Prelude.{
  ℕ, zero, suc, ◌+◌, ◌-◌, ◌*◌, Bool, true, false, Option, none, some, List, [], ◌∷◌, ◌++◌, ltb,
  ◌==◌, is_empty, if◌then◌else◌, length,
}
use cryptpilot.VerityFuse.Paths.{RelativePaths}
use cryptpilot.VerityFuse.Source.{
  IoResult, done, failed, PreadResult, bytes, os_error, Source, LruCache, eintr,
}

abbrev pub default_handle_cache_size : ℕ
default_handle_cache_size = 1024

abbrev pub default_block_cache_size : ℕ
default_block_cache_size = 4096

pub record BlockKey : Type 0 where
  pub ino : ℕ
  pub block_index : ℕ

-- `with_capacity` of both caches: a capacity of zero is taken as one.
unfoldable pub with_capacity : {K V : Type 0} (c : LruCache K V) → ℕ → c.Cache
with_capacity c capacity = c.new (if capacity == 0 then 1 else capacity)

module _ {r : RelativePaths} (s : Source r) where
  -- The loop of `pread_all`, with the bytes read so far; `none` is that the fuel ran out.
  unfoldable pub pread_all :
      ℕ → s.World → s.Handle → ℕ → ℕ → List ℕ → Option (s.World × IoResult (List ℕ))
  pread_all zero w file size offset got = none
  pread_all (suc fuel) w file size offset got = elim (ltb (length got) size) [
    | false ↦ some (w, IoResult.done got)
    | true ↦
        let (w', ret) = s.pread w file offset (size - length got) in
        elim ret [
          | os_error errno ↦ elim (errno == eintr) [
            | true ↦ pread_all fuel w' file size offset got
            | false ↦ some (w', IoResult.failed (some errno))
          ]
          | bytes new_bytes ↦ elim (is_empty new_bytes) [
            | true ↦ some (w', IoResult.done got)
            | false ↦ pread_all fuel w' file size (offset + length new_bytes) (got ++ new_bytes)
          ]
        ]
  ]

  -- `FileHandle::pread_file_data`: the buffer, cut to the bytes that were read.
  unfoldable pub pread_file_data :
      ℕ → s.World → s.Handle → ℕ → ℕ → Option (s.World × IoResult (List ℕ))
  pread_file_data fuel w file offset size = pread_all fuel w file size offset []

  -- `FileHandlePool::get_or_open`, with the world that `opener` changes.
  unfoldable pub get_or_open :
      (c : LruCache ℕ s.Handle)
      → c.Cache
      → ℕ
      → s.World
      → (s.World → s.World × IoResult s.Handle)
      → c.Cache × s.World × IoResult s.Handle
  get_or_open c cache ino w opener =
      let (cache', hit) = c.get cache ino in
      elim hit [
        | some cached ↦ (cache', w, IoResult.done cached)
        | none ↦
            let (w', opened) = opener w in
            elim opened [
              | failed e ↦ (cache', w', IoResult.failed e)
              | done file ↦ (c.put cache' ino file, w', IoResult.done file)
            ]
      ]
