-- ===== src/VerityFuse/Cache/Handles.antt =====
-- The branches of `get_or_open` of verity-fuse/src/file_handle_cache.rs.
use cryptpilot.Prelude.{ℕ, ◌≡◌, refl, ap, Option, none, some}
use cryptpilot.VerityFuse.Paths.{RelativePaths}
use cryptpilot.VerityFuse.Source.{IoResult, Source, LruCache}
use cryptpilot.VerityFuse.Cache.{get_or_open}

module _ {r : RelativePaths} (s : Source r) (c : LruCache ℕ s.Handle) (cache : c.Cache) (ino : ℕ)
    (w : s.World) (opener : s.World → s.World × IoResult s.Handle) where
  abbrev Opened : Type 0
  Opened = s.World × IoResult s.Handle

  abbrev failed_with : Option ℕ → IoResult s.Handle
  failed_with e = IoResult.failed e

  pub get_or_open-hit :
      {handle : s.Handle}
      → (c.get cache ino).1 ≡ some handle
      → get_or_open s c cache ino w opener ≡ ((c.get cache ino).0, w, IoResult.done handle)
  unfolding get_or_open
  get_or_open-hit e = rw (e, get_or_open) refl

  module _ (miss : (c.get cache ino).1 ≡ none) {w' : s.World} where
    pub get_or_open-done :
        {handle : s.Handle}
        → opener w ≡ (w', IoResult.done handle)
        → get_or_open s c cache ino w opener
          ≡ (c.put (c.get cache ino).0 ino handle, w', IoResult.done handle)
    unfolding get_or_open
    get_or_open-done {handle} h =
        rw (miss, get_or_open)
          (rw (ap (λ (p : Opened). p.1) h) (
            ap (λ (p : Opened). (c.put (c.get cache ino).0 ino handle, p.0, IoResult.done handle))
              h))

    pub get_or_open-failed :
        {e : Option ℕ}
        → opener w ≡ (w', IoResult.failed e)
        → get_or_open s c cache ino w opener ≡ ((c.get cache ino).0, w', IoResult.failed e)
    unfolding get_or_open
    get_or_open-failed {e} h =
        rw (miss, get_or_open)
          (rw (ap (λ (p : Opened). p.1) h)
            (ap (λ (p : Opened). ((c.get cache ino).0, p.0, failed_with e)) h))
