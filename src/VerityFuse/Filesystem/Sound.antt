-- ===== src/VerityFuse/Filesystem/Sound.antt =====
-- The block cache of verity-fuse/src/filesystem.rs holds verified blocks only, and what one call of
-- the file system keeps.
use cryptpilot.Prelude.{
  ℕ, ◌+◌, ◌*◌, ◌≤◌, ◌<◌, ◌≡◌, refl, sym, ap, ◌∙◌, subst, Bool, true, false, Option, none, some,
  some_eq, List, arith, inl, inr,
}
use cryptpilot.VerityCore.Hash.{HashLaws}
use cryptpilot.VerityFuse.Outcome.{Outcome, ok, err, fault, eio}
use cryptpilot.VerityFuse.Source.{IoResult, done, failed, SourceLaws, LruLaws}
use cryptpilot.VerityFuse.Cache.{BlockKey, pread_file_data}
use cryptpilot.VerityFuse.Cache.Pread.{pread_file_data-Returns}
use cryptpilot.VerityFuse.Verifier.{FsEntry, entry_verify, lookup_by_ino}
use cryptpilot.VerityFuse.Verifier.Blocks.{entry_verify-returns}
use cryptpilot.VerityFuse.Filesystem.{
  Runtime, VerityFs, Call, and_then, errno_of, fetch_block, block_data,
}

-- The documented behaviour of the crates.
pub record RuntimeLaws (t : Runtime) : Type 0 where
  pub hash_laws : HashLaws t.hash
  pub source_laws : SourceLaws t.source
  pub block_laws : LruLaws t.blocks

-- The data is a valid block of the file.
abbrev pub Verified : (t : Runtime) → FsEntry t.paths → ℕ → List ℕ → Type 0
Verified t file index content = entry_verify t.hash file index content ≡ some true

module _ {t : Runtime} (laws : RuntimeLaws t) where
  -- Every block in the cache is valid for the file with its number.
  abbrev pub IsSound : VerityFs t → Type 0
  IsSound fs =
      (key : BlockKey) (content : List ℕ) (file : FsEntry t.paths)
      → laws.block_laws.contents fs.block_cache key ≡ some content
      → lookup_by_ino fs.verifier key.ino ≡ some file
      → Verified t file key.block_index content

  -- What a call keeps: the verifier, and valid blocks in the cache. No interrupts come up.
  pub record Kept (fs fs' : VerityFs t) : Type 0 where
    pub same_verifier : fs'.verifier ≡ fs.verifier
    pub sound : IsSound fs'
    pub patient : laws.source_laws.patience fs'.world ≤ laws.source_laws.patience fs.world

  pub Kept-refl : (fs : VerityFs t) → IsSound fs → Kept fs fs
  Kept-refl fs sound = record { same_verifier = refl; sound = sound; patient = omega arith }

  pub Kept-trans : {a b c : VerityFs t} → Kept a b → Kept b c → Kept a c
  Kept-trans k1 k2 = record {
    same_verifier = k2.same_verifier ∙ k1.same_verifier;
    sound = k2.sound;
    patient = omega (arith, k1.patient, k2.patient);
  }

  -- A call that returned a value, and one that returned an error number.
  abbrev pub Ends : {A : Type 0} → (A → Type 0) → Outcome A → Type 0
  Ends P (ok a) = P a
  Ends P (err e) = Unit
  Ends P fault = ⊥

  -- The call returns, keeps what is to be kept, and a value satisfies `P`.
  abbrev pub Good : {A : Type 0} → (A → Type 0) → VerityFs t → Call t A → Type 0
  Good P fs call = Kept fs call.0 × Ends P call.1

  pub Ends-map :
      {A : Type 0} (P Q : A → Type 0)
      → ((a : A) → P a → Q a)
      → (o : Outcome A) → Ends P o
      → Ends Q o
  Ends-map P Q go (ok a) p = go a p
  Ends-map P Q go (err e) p = tt
  Ends-map P Q go fault p = absurd p

  pub and_then-Good :
      {A B : Type 0} (P : A → Type 0) (Q : B → Type 0) {fs : VerityFs t} (call : Call t A)
      (f : VerityFs t → A → Call t B)
      → Good P fs call
      → ((fs' : VerityFs t) (a : A) → Kept fs fs' → P a → Good Q fs' (f fs' a))
      → Good Q fs (and_then t call f)
  and_then-Good P Q (fs', ok a) f (kept, p) go =
      let (kept', q) = go fs' a kept p in (Kept-trans kept kept', q)
  and_then-Good P Q (fs', err e) f (kept, p) go = (kept, tt)
  and_then-Good P Q (fs', fault) f (kept, p) go = absurd p

  module _ (fs : VerityFs t) (sound : IsSound fs) (file : FsEntry t.paths)
      (known : lookup_by_ino fs.verifier file.ino ≡ some file) (handle : t.source.Handle)
      (fuel size index : ℕ) (enough : size + laws.source_laws.patience fs.world < fuel) where
    -- Another world with no more interrupts.
    in_world :
        (w : t.source.World)
        → laws.source_laws.patience w ≤ laws.source_laws.patience fs.world
        → Kept fs (record fs { world = w })
    in_world w less = record { same_verifier = refl; sound = sound; patient = less }

    abbrev key : BlockKey
    key = record { ino = file.ino; block_index = index }

    stored :
        (w : t.source.World) (content : List ℕ)
        → laws.source_laws.patience w ≤ laws.source_laws.patience fs.world
        → Verified t file index content
        → Kept fs (record fs { block_cache = t.blocks.put fs.block_cache key content; world = w })
    stored w content less valid = record {
      same_verifier = refl;
      sound = λ k c f held found.
          elim (laws.block_laws.contents-put fs.block_cache key content k c held) [
            | inl (same_key, same) ↦
                let same_file = some_eq (
                  sym found
                  ∙ ap (λ (j : BlockKey). lookup_by_ino fs.verifier j.ino) same_key
                  ∙ known) in
                ap (λ (g : FsEntry t.paths). entry_verify t.hash g k.block_index c) same_file
                ∙ ap (λ (j : BlockKey). entry_verify t.hash file j.block_index c) same_key
                ∙ ap (entry_verify t.hash file index) same
                ∙ valid
            | inr before ↦ sound k c f before found
          ];
      patient = less;
    }

    abbrev read_result : Option (t.source.World × IoResult (List ℕ))
    read_result = pread_file_data t.source fuel fs.world handle (index * size) size

    fetch_failed :
        {w : t.source.World} {e : Option ℕ}
        → read_result ≡ some (w, IoResult.failed e)
        → fetch_block t fuel file handle size index fs
          ≡ (record fs { world = w }, Outcome.err (errno_of t e))
    unfolding fetch_block
    fetch_failed run = rw (run, fetch_block) refl

    fetch_invalid :
        {w : t.source.World} {content : List ℕ}
        → read_result ≡ some (w, IoResult.done content)
        → entry_verify t.hash file index content ≡ some false
        → fetch_block t fuel file handle size index fs ≡ (record fs { world = w }, Outcome.err eio)
    unfolding fetch_block
    fetch_invalid run bad = rw (run, fetch_block) (rw (bad, fetch_block) refl)

    fetch_valid :
        {w : t.source.World} {content : List ℕ}
        → read_result ≡ some (w, IoResult.done content)
        → Verified t file index content
        → fetch_block t fuel file handle size index fs ≡ (
          record fs { block_cache = t.blocks.put fs.block_cache key content; world = w },
          Outcome.ok content,
        )
    unfolding fetch_block
    fetch_valid run valid = rw (run, fetch_block) (rw (valid, fetch_block) refl)

    abbrev FetchGood : Call t (List ℕ) → Type 0
    FetchGood call = Good (Verified t file index) fs call

    by_check :
        (w : t.source.World) (content : List ℕ)
        → read_result ≡ some (w, IoResult.done content)
        → laws.source_laws.patience w ≤ laws.source_laws.patience fs.world
        → (check : Option Bool) → entry_verify t.hash file index content ≡ check
        → FetchGood (fetch_block t fuel file handle size index fs)
    by_check w content run less none e =
        absurd (entry_verify-returns laws.hash_laws file index content e)
    by_check w content run less (some true) e =
        subst FetchGood (sym (fetch_valid run e)) (stored w content less e, e)
    by_check w content run less (some false) e =
        subst FetchGood (sym (fetch_invalid run e)) (in_world w less, tt)

    by_result :
        (w : t.source.World) (res : IoResult (List ℕ))
        → read_result ≡ some (w, res)
        → laws.source_laws.patience w ≤ laws.source_laws.patience fs.world
        → FetchGood (fetch_block t fuel file handle size index fs)
    by_result w (done content) run less = by_check w content run less _ refl
    by_result w (failed e) run less = subst FetchGood (sym (fetch_failed run)) (in_world w less, tt)

    -- A block that is fetched is valid, and so is the cache after it.
    fetch_block-Good : FetchGood (fetch_block t fuel file handle size index fs)
    fetch_block-Good =
        let (w, res, run, within, less) =
          pread_file_data-Returns laws.source_laws fuel fs.world handle (index * size) size
            enough in
        by_result w res run less

  module _ (fs : VerityFs t) (sound : IsSound fs) (file : FsEntry t.paths)
      (known : lookup_by_ino fs.verifier file.ino ≡ some file) where
    -- A look into the block cache changes the order of use only.
    after_get :
        (key : BlockKey) → Kept fs (record fs { block_cache = (t.blocks.get fs.block_cache key).0 })
    after_get key = record {
      same_verifier = refl;
      sound = λ k c f held found.
          sound k c f (sym (laws.block_laws.contents-get fs.block_cache key k) ∙ held) found;
      patient = omega arith;
    }

    module _ (handle : t.source.Handle) (fuel size index : ℕ)
        (enough : size + laws.source_laws.patience fs.world < fuel) where
      abbrev wanted : BlockKey
      wanted = record { ino = file.ino; block_index = index }

      abbrev looked : VerityFs t
      looked = record fs { block_cache = (t.blocks.get fs.block_cache wanted).0 }

      block_hit :
          {cached : List ℕ}
          → (t.blocks.get fs.block_cache wanted).1 ≡ some cached
          → block_data t fuel file handle size index fs ≡ (looked, Outcome.ok cached)
      unfolding block_data
      block_hit e = rw (e, block_data) refl

      block_miss :
          (t.blocks.get fs.block_cache wanted).1 ≡ none
          → block_data t fuel file handle size index fs
            ≡ fetch_block t fuel file handle size index looked
      unfolding block_data
      block_miss e = rw (e, block_data) refl

      by_hit :
          (hit : Option (List ℕ))
          → (t.blocks.get fs.block_cache wanted).1 ≡ hit
          → Good (Verified t file index) fs (block_data t fuel file handle size index fs)
      by_hit (some cached) e = subst (Good (Verified t file index) fs) (sym (block_hit e)) (
        after_get wanted,
        sound wanted cached file (sym (laws.block_laws.get-contents fs.block_cache wanted) ∙ e)
            known,
      )
      by_hit none e = subst (Good (Verified t file index) fs) (sym (block_miss e)) (
          let (kept, ends) =
            fetch_block-Good looked (after_get wanted).sound file known handle fuel size index
              enough in
          (Kept-trans (after_get wanted) kept, ends))

      -- A block is valid for the file, from the cache or fetched.
      pub block_data-Good :
          Good (Verified t file index) fs (block_data t fuel file handle size index fs)
      block_data-Good = by_hit _ refl
