-- ===== src/VerityFuse/Cache/Pread.antt =====
-- The loop over `pread` of verity-fuse/src/file_handle_cache.rs returns.
use cryptpilot.Prelude.{
  ℕ, zero, suc, ◌+◌, ◌-◌, ◌≤◌, ◌<◌, ◌≡◌, refl, ap, ◌∙◌, true, false, Bool-cases, Option, some, List,
  [], ◌∷◌, ◌++◌, ltb, ltb→lt, ◌==◌, ==_iff, is_empty, length, length-append, arith, inl, inr,
}
use cryptpilot.VerityFuse.Paths.{RelativePaths}
use cryptpilot.VerityFuse.Source.{
  IoResult, done, failed, PreadResult, bytes, os_error, Source, SourceLaws, eintr,
}
use cryptpilot.VerityFuse.Cache.{pread_all, pread_file_data}

-- A result of no more than `size` bytes.
abbrev pub Within : ℕ → IoResult (List ℕ) → Type 0
Within size (done got) = length got ≤ size
Within size (failed e) = Unit

abbrev pub Returns :
    {r : RelativePaths} {s : Source r}
    → SourceLaws s
    → s.World
    → ℕ
    → Option (s.World × IoResult (List ℕ))
    → Type 0
Returns {s = s} laws w size result =
    (w' : s.World) × (res : IoResult (List ℕ)) × (result ≡ some (w', res))
    × Within size res
    × (laws.patience w' ≤ laws.patience w)

some_bytes : (xs : List ℕ) → is_empty xs ≡ false → 1 ≤ length xs
some_bytes [] h = cc
some_bytes (x ∷ xs) h = omega arith

-- The branches of one round.
module _ {r : RelativePaths} (s : Source r) (fuel : ℕ) (w : s.World) (file : s.Handle)
    (size offset : ℕ) (got : List ℕ) where
  round_full :
      ltb (length got) size ≡ false
      → pread_all s (suc fuel) w file size offset got ≡ some (w, IoResult.done got)
  unfolding pread_all
  round_full full = rw (full, pread_all) refl

  module _ (more : ltb (length got) size ≡ true) where
    abbrev next : s.World
    next = (s.pread w file offset (size - length got)).0

    round_bytes :
        (xs : List ℕ)
        → (s.pread w file offset (size - length got)).1 ≡ PreadResult.bytes xs
        → is_empty xs ≡ false
        → pread_all s (suc fuel) w file size offset got
          ≡ pread_all s fuel next file size (offset + length xs) (got ++ xs)
    unfolding pread_all
    round_bytes xs e any = rw (more, pread_all) (rw (e, pread_all) (rw (any, pread_all) refl))

    round_end :
        (xs : List ℕ)
        → (s.pread w file offset (size - length got)).1 ≡ PreadResult.bytes xs
        → is_empty xs ≡ true
        → pread_all s (suc fuel) w file size offset got ≡ some (next, IoResult.done got)
    unfolding pread_all
    round_end xs e nothing = rw (more, pread_all) (rw (e, pread_all) (rw (nothing, pread_all) refl))

    round_interrupted :
        (errno : ℕ)
        → (s.pread w file offset (size - length got)).1 ≡ PreadResult.os_error errno
        → (errno == eintr) ≡ true
        → pread_all s (suc fuel) w file size offset got ≡ pread_all s fuel next file size offset got
    unfolding pread_all
    round_interrupted errno e same =
        rw (more, pread_all) (rw (e, pread_all) (rw (same, pread_all) refl))

    round_failed :
        (errno : ℕ)
        → (s.pread w file offset (size - length got)).1 ≡ PreadResult.os_error errno
        → (errno == eintr) ≡ false
        → pread_all s (suc fuel) w file size offset got ≡ some (next, IoResult.failed (some errno))
    unfolding pread_all
    round_failed errno e other =
        rw (more, pread_all) (rw (e, pread_all) (rw (other, pread_all) refl))

module _ {r : RelativePaths} {s : Source r} (laws : SourceLaws s) where
  -- What the rest of the loop returns, the loop returns.
  rest-Returns :
      {size : ℕ} {w next : s.World} {now later : Option (s.World × IoResult (List ℕ))}
      → now ≡ later
      → laws.patience next ≤ laws.patience w
      → Returns laws next size later
      → Returns laws w size now
  rest-Returns e less (w', res, run, within, left) = (w', res, e ∙ run, within, omega arith)

  pread_all-Returns :
      (fuel : ℕ) (w : s.World) (file : s.Handle) (size offset : ℕ) (got : List ℕ)
      → length got ≤ size
      → (size - length got) + laws.patience w < fuel
      → Returns laws w size (pread_all s fuel w file size offset got)
  pread_all-Returns zero w file size offset got fit enough = absurd (omega arith)
  pread_all-Returns (suc fuel) w file size offset got fit enough =
      elim (Bool-cases (ltb (length got) size)) [
        | inr full ↦
            (w, IoResult.done got, round_full s fuel w file size offset got full, fit, omega arith)
        | inl more ↦
            after more (s.pread w file offset (size - length got)).1 refl
              (λ w' offset' got'. pread_all-Returns fuel w' file size offset' got')
      ]
    where
      next_world : s.World
      next_world = (s.pread w file offset (size - length got)).0

      after :
          ltb (length got) size ≡ true
          → (ret : PreadResult) → (s.pread w file offset (size - length got)).1 ≡ ret
          → ((w' : s.World) (offset' : ℕ) (got' : List ℕ)
              → length got' ≤ size
              → (size - length got') + laws.patience w' < fuel
              → Returns laws w' size (pread_all s fuel w' file size offset' got'))
          → Returns laws w size (pread_all s (suc fuel) w file size offset got)
      after more (bytes xs) e later =
          let bound = laws.pread_bound w file offset (size - length got) xs e in
          let less = laws.patience-pread w file offset (size - length got) in
          elim (Bool-cases (is_empty xs)) [
            | inl nothing ↦
                (_, _, round_end s fuel w file size offset got more xs e nothing, fit, less)
            | inr any ↦
                rest-Returns (round_bytes s fuel w file size offset got more xs e any) less (
                  later _ (offset + length xs) (got ++ xs)
                    (omega (arith, length-append got xs, ltb→lt (length got) size more))
                    (omega (arith, length-append got xs, some_bytes xs any)))
          ]
      after more (os_error errno) e later =
          let less = laws.patience-pread w file offset (size - length got) in
          elim (Bool-cases (errno == eintr)) [
            | inl same ↦
                rest-Returns (round_interrupted s fuel w file size offset got more errno e same)
                  less
                  (later _ offset got fit (
                    let fewer =
                      laws.patience-interrupt w file offset (size - length got)
                        (e ∙ ap PreadResult.os_error ((==_iff errno eintr).0 same)) in
                    omega arith))
            | inr other ↦
                (_, _, round_failed s fuel w file size offset got more errno e other, tt, less)
          ]

  -- With fuel for every byte asked for and for every interrupt, a read of file data returns: at most
  -- as many bytes as asked for, or an error.
  pub pread_file_data-Returns :
      (fuel : ℕ) (w : s.World) (file : s.Handle) (offset size : ℕ)
      → size + laws.patience w < fuel
      → Returns laws w size (pread_file_data s fuel w file offset size)
  unfolding pread_file_data
  pread_file_data-Returns fuel w file offset size enough =
      pread_all-Returns fuel w file size offset [] (omega arith) (omega arith)
