-- ===== src/VerityFuse/Filesystem/Slice.antt =====
-- Which bytes of a block a request asks for, byte by byte, and `block_slice` of the parent (the copy in
-- `read_file` of verity-fuse/src/filesystem.rs).
use cryptpilot.Prelude.{
  ℕ, zero, suc, ◌+◌, ◌-◌, ◌≤◌, ◌<◌, ◌≡◌, refl, sym, ap, ◌∙◌, min, max, ◌&&◌, List, [], ◌∷◌, take,
  drop, length, length-drop, take_of_length-le, drop_of_length-le, leb, Bool-cases, if◌then◌else◌,
  inl, inr, arith,
}
use native.Mathlib.Decide.{dec_le}
use cryptpilot.VerityFuse.Filesystem.{block_slice}

-- The bytes at the places from `from` to `end`, of bytes whose first one has the place `pos`.
abbrev pub requested : ℕ → ℕ → ℕ → List ℕ → List ℕ
requested from end pos [] = []
requested from end pos (b ∷ bytes) =
    let rest = requested from end (pos + 1) bytes in
    if leb from pos && leb (pos + 1) end then b ∷ rest else rest

requested_after :
    (from end pos : ℕ) (bytes : List ℕ) → end ≤ pos → requested from end pos bytes ≡ []
requested_after from end pos [] h = refl
requested_after from end pos (b ∷ bytes) h =
    let rest = requested_after from end (pos + 1) bytes (omega arith) in ground arith

requested_first :
    (from end pos n : ℕ) (bytes : List ℕ)
    → from ≤ pos
    → end ≡ pos + n
    → requested from end pos bytes ≡ take n bytes
requested_first from end pos zero bytes h e = requested_after from end pos bytes (omega arith)
requested_first from end pos (suc n) [] h e = refl
requested_first from end pos (suc n) (b ∷ bytes) h e =
    let rest = requested_first from end (pos + 1) n bytes (omega arith) (omega arith) in
    ground arith

requested_from :
    (from end pos k : ℕ) (bytes : List ℕ)
    → from ≡ pos + k
    → requested from end pos bytes ≡ requested from end from (drop k bytes)
requested_from from end pos zero bytes e = ap (λ (p : ℕ). requested from end p bytes) (omega arith)
requested_from from end pos (suc k) [] e = refl
requested_from from end pos (suc k) (b ∷ bytes) e =
    let rest = requested_from from end (pos + 1) k bytes (omega arith) in ground arith

-- The end of a part may lie behind the end of the bytes.
module _ (n m : ℕ) (bytes : List ℕ) where
  take_within :
      n ≤ min m (length bytes)
      → take (min m (length bytes) - n) (drop n bytes) ≡ take (m - n) (drop n bytes)
  take_within h = elim (dec_le m (length bytes)) [
    | yes fits ↦ ap (λ (i : ℕ). take i (drop n bytes)) (omega arith)
    | no over ↦
        take_of_length-le (min m (length bytes) - n) (drop n bytes)
          (omega (arith, length-drop n bytes))
        ∙ sym (take_of_length-le (m - n) (drop n bytes) (omega (arith, length-drop n bytes)))
  ]

  take_nothing : min m (length bytes) ≤ n → [] ≡ take (m - n) (drop n bytes)
  take_nothing h = elim (dec_le m n) [
    | yes low ↦ ap (λ (i : ℕ). take i (drop n bytes)) {x = 0} {y = m - n} (omega arith)
    | no high ↦
        let none_left = drop_of_length-le n bytes (omega arith) in
        rw none_left (sym (take_of_length-le (m - n) [] (omega arith)))
  ]

  slice_cut :
      (if leb (min m (length bytes)) n then [] else take (min m (length bytes) - n) (drop n bytes))
      ≡ take (m - n) (drop n bytes)
  slice_cut = elim (Bool-cases (leb (min m (length bytes)) n)) [
    | inl e ↦ rw e (take_nothing (ground arith))
    | inr e ↦ rw e (take_within (ground arith))
  ]

module _ (from end pos : ℕ) (starts : from < end) (ends : pos < end) where
  -- The bytes asked for are a part without gaps.
  requested-take :
      (bytes : List ℕ)
      → requested from end pos bytes ≡ take (end - max from pos) (drop (max from pos - pos) bytes)
  requested-take bytes = elim (dec_le from pos) [
    | yes low ↦
        let k : max from pos - pos ≡ 0 = omega arith in
        let n : end - max from pos ≡ end - pos = omega arith in
        rw (k, n) (requested_first from end pos (end - pos) bytes low (omega arith))
    | no high ↦
        let k : max from pos - pos ≡ from - pos = omega arith in
        let n : end - max from pos ≡ end - from = omega arith in
        rw (k, n)
          (requested_from from end pos (from - pos) bytes (omega arith)
            ∙ requested_first from end from (end - from) (drop (from - pos) bytes) (omega arith)
                (omega arith))
  ]

  pub block_slice-requested :
      (content : List ℕ)
      → block_slice pos (max from pos) end content ≡ requested from end pos content
  unfolding block_slice
  block_slice-requested content =
      slice_cut (max from pos - pos) (end - pos) content
      ∙ ap (λ (n : ℕ). take n (drop (max from pos - pos) content)) (omega arith)
      ∙ sym (requested-take content)
