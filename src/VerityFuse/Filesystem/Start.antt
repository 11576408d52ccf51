-- ===== src/VerityFuse/Filesystem/Start.antt =====
-- `VerityFS::new_with_block_cache` of verity-fuse/src/filesystem.rs starts without unchecked blocks.
use Prim.Native.String.{String}
use cryptpilot.Prelude.{ℕ, ◌≡◌, refl, sym, ap, ◌∙◌, subst, Option}
use cryptpilot.VerityFuse.Source.{IoResult, done, failed}
use cryptpilot.VerityFuse.Cache.{with_capacity}
use cryptpilot.VerityFuse.Verifier.{VerityVerifier}
use cryptpilot.VerityFuse.Filesystem.{Runtime, VerityFs, new_with_block_cache}
use cryptpilot.VerityFuse.Filesystem.Sound.{RuntimeLaws, IsSound}

module _ {t : Runtime} (laws : RuntimeLaws t) (source : String) (verifier : VerityVerifier t.paths)
    (capacity : ℕ) (w : t.source.World) where
  abbrev opened : t.source.World × IoResult (Unit {0})
  opened = t.source.open_ambient_dir w source

  abbrev started : t.source.World → VerityFs t
  started w' = record {
    verifier = verifier;
    block_cache = with_capacity t.blocks capacity;
    handle_cache = with_capacity t.handles 1024;
    world = w';
  }

  refused :
      {e : Option ℕ}
      → opened.1 ≡ IoResult.failed e
      → new_with_block_cache t source verifier capacity w ≡ IoResult.failed e
  unfolding new_with_block_cache
  refused h = rw (h, new_with_block_cache) refl

  accepted :
      {u : Unit {0}}
      → opened.1 ≡ IoResult.done u
      → new_with_block_cache t source verifier capacity w ≡ IoResult.done (started opened.0)
  unfolding new_with_block_cache
  accepted h = rw (h, new_with_block_cache) refl

  done_eq : {a b : VerityFs t} → IoResult.done a ≡ IoResult.done b → a ≡ b
  done_eq {a} e = ap (λ r. elim r [ done x ↦ x | failed n ↦ a ]) e

  started-IsSound : (w' : t.source.World) → IsSound laws (started w')
  unfolding with_capacity
  started-IsSound w' key content file held found =
      let bad = sym (laws.block_laws.contents-new _ key) ∙ held in cc bad

  by_result :
      (res : IoResult (Unit {0}))
      → opened.1 ≡ res
      → {fs : VerityFs t} → new_with_block_cache t source verifier capacity w ≡ IoResult.done fs
      → (fs.verifier ≡ verifier) × IsSound laws fs
  by_result (failed e) h {fs} run = let bad = sym (refused h) ∙ run in cc bad
  by_result (done u) h {fs} run =
      let same : started opened.0 ≡ fs = done_eq (sym (accepted h) ∙ run) in
      (
        ap (λ (f : VerityFs t). f.verifier) (sym same),
        subst (IsSound laws) same (started-IsSound opened.0),
      )

  -- A file system that was made has the verifier that it was given, and a cache in which every block is
  -- valid, whatever the capacity.
  pub new_with_block_cache-IsSound :
      {fs : VerityFs t}
      → new_with_block_cache t source verifier capacity w ≡ IoResult.done fs
      → (fs.verifier ≡ verifier) × IsSound laws fs
  new_with_block_cache-IsSound run = by_result opened.1 refl run
