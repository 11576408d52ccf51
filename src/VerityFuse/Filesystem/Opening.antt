-- ===== src/VerityFuse/Filesystem/Opening.antt =====
-- `open_file_cached` of verity-fuse/src/filesystem.rs keeps what a call keeps.
use cryptpilot.Prelude.{◌≤◌, ◌≡◌, refl, sym, ap, subst, Option, none, some, arith}
use cryptpilot.VerityFuse.Source.{IoResult, done, failed}
use cryptpilot.VerityFuse.Cache.{get_or_open}
use cryptpilot.VerityFuse.Cache.Handles.{get_or_open-hit, get_or_open-done, get_or_open-failed}
use cryptpilot.VerityFuse.Verifier.{FsEntry, entry_path}
use cryptpilot.VerityFuse.Filesystem.{
  Runtime, VerityFs, Call, wrapped, with_handle, open_file_cached,
}
use cryptpilot.VerityFuse.Filesystem.Sound.{RuntimeLaws, IsSound, Kept, Good}

module _ {t : Runtime} (laws : RuntimeLaws t) where
  module _ (fs : VerityFs t) (sound : IsSound laws fs) (file : FsEntry t.paths) where
    abbrev cached_handle : t.handles.Cache × Option t.source.Handle
    cached_handle = t.handles.get fs.handle_cache file.ino

    abbrev opener : t.source.World → t.source.World × IoResult t.source.Handle
    opener w = wrapped t (t.source.open_file w (entry_path file))

    abbrev OpenGood : Call t t.source.Handle → Type 0
    OpenGood = Good laws (λ (h : t.source.Handle). Unit) fs

    opened_in :
        (cache : t.handles.Cache) (w : t.source.World)
        → laws.source_laws.patience w ≤ laws.source_laws.patience fs.world
        → Kept laws fs (record fs { handle_cache = cache; world = w })
    opened_in cache w less = record { same_verifier = refl; sound = sound; patient = less }

    by_opening :
        cached_handle.1 ≡ none
        → (opened : t.source.World × IoResult t.source.Handle)
        → t.source.open_file fs.world (entry_path file) ≡ opened
        → laws.source_laws.patience opened.0 ≤ laws.source_laws.patience fs.world
        → OpenGood (
            with_handle t fs
              (get_or_open t.source t.handles fs.handle_cache file.ino fs.world opener))
    by_opening miss (w, done handle) h less =
        subst (λ x. OpenGood (with_handle t fs x))
          (sym (
            get_or_open-done t.source t.handles fs.handle_cache file.ino fs.world opener miss
              (ap (wrapped t) h)))
          (opened_in _ w less, tt)
    by_opening miss (w, failed e) h less =
        subst (λ x. OpenGood (with_handle t fs x))
          (sym (
            get_or_open-failed t.source t.handles fs.handle_cache file.ino fs.world opener miss
              (ap (wrapped t) h)))
          (opened_in _ w less, tt)

    by_handle :
        (hit : Option t.source.Handle)
        → cached_handle.1 ≡ hit
        → OpenGood (
            with_handle t fs
              (get_or_open t.source t.handles fs.handle_cache file.ino fs.world opener))
    by_handle (some handle) e =
        subst (λ x. OpenGood (with_handle t fs x))
          (sym (get_or_open-hit t.source t.handles fs.handle_cache file.ino fs.world opener e))
          (opened_in _ _ (omega arith), tt)
    by_handle none e =
        by_opening e _ refl (laws.source_laws.patience-open_file fs.world (entry_path file))

    -- Opening a file gives a handle or an error number.
    pub open_file_cached-Good : OpenGood (open_file_cached t file fs)
    unfolding open_file_cached
    open_file_cached-Good = by_handle _ refl
