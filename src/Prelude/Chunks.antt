-- ===== src/Prelude/Chunks.antt =====
-- The standard library's `chunks` of a slice: pieces of `n` elements, the last one shorter.
use Prim.Native.Nat.{ℕ, zero, suc, ◌≤◌, ◌<◌}
use mathlib.Core.Path.{◌≡◌, refl, ap, ◌∙◌, subst}
use mathlib.Core.List.{List, [], ◌∷◌, ◌++◌, append_assoc}
use native.Mathlib.Omega.{arith}
use mathlib.Core.Option.{some}
use cryptpilot.Prelude.Tests.{some_eq}
use cryptpilot.Prelude.Lists.{
  get_elem?, length, take, drop, concat, take-append-drop, length-drop, length-take, length-append,
  take-append, drop-append, take_of_length-le, drop_of_length-le, AllLength,
}

module _ {ℓ} {A : Type ℓ} where
  -- `fuel` bounds the number of pieces; the length of the slice is enough for `0 < n`.
  pub chunks_from : ℕ → ℕ → List A → List (List A)
  chunks_from zero n xs = []
  chunks_from (suc fuel) n [] = []
  chunks_from (suc fuel) n (x ∷ xs) = take n (x ∷ xs) ∷ chunks_from fuel n (drop n (x ∷ xs))

  unfoldable pub chunks : ℕ → List A → List (List A)
  unfolding chunks_from
  chunks n xs = chunks_from (length xs) n xs

  -- The fuel does not matter once it reaches the length.
  chunks_from-fuel :
      (f g n : ℕ) (xs : List A)
      → 0 < n
      → length xs ≤ f
      → length xs ≤ g
      → chunks_from f n xs ≡ chunks_from g n xs
  unfolding chunks_from
  chunks_from-fuel zero zero n xs p h k = refl
  chunks_from-fuel zero (suc g) n [] p h k = refl
  chunks_from-fuel zero (suc g) n (x ∷ xs) p h k = absurd (omega arith)
  chunks_from-fuel (suc f) zero n [] p h k = refl
  chunks_from-fuel (suc f) zero n (x ∷ xs) p h k = absurd (omega arith)
  chunks_from-fuel (suc f) (suc g) n [] p h k = refl
  chunks_from-fuel (suc f) (suc g) n (x ∷ xs) p h k = ap (◌∷◌ (take n (x ∷ xs))) (
      chunks_from-fuel f g n (drop n (x ∷ xs)) p (omega (arith, length-drop n (x ∷ xs)))
        (omega (arith, length-drop n (x ∷ xs))))

  -- One piece is cut off the front of a slice that is not empty.
  pub chunks-step :
      (n : ℕ) (xs : List A) → 0 < n → 0 < length xs → chunks n xs ≡ take n xs ∷ chunks n (drop n xs)
  unfolding chunks chunks_from
  chunks-step n [] p h = absurd (omega arith)
  chunks-step n (x ∷ xs) p h = ap (◌∷◌ (take n (x ∷ xs))) (
      chunks_from-fuel (length xs) (length (drop n (x ∷ xs))) n (drop n (x ∷ xs)) p
        (omega (arith, length-drop n (x ∷ xs))) (omega arith))

  pub chunks-nil : (n : ℕ) → chunks n [] ≡ []
  unfolding chunks chunks_from
  chunks-nil n = refl

  pub chunks_of_length-le :
      (n : ℕ) (xs : List A) → 0 < length xs → length xs ≤ n → chunks n xs ≡ xs ∷ []
  chunks_of_length-le n xs p h =
      chunks-step n xs (omega arith) p
      ∙ ap (λ (ys : List A). ys ∷ chunks n (drop n xs)) (take_of_length-le n xs h)
      ∙ ap (λ (ys : List A). xs ∷ chunks n ys) (drop_of_length-le n xs h)
      ∙ ap (◌∷◌ xs) (chunks-nil n)

  pub chunks-append :
      (n : ℕ) (x ys : List A) → 0 < n → length x ≡ n → chunks n (x ++ ys) ≡ x ∷ chunks n ys
  chunks-append n x ys p h =
      chunks-step n (x ++ ys) p (omega (arith, length-append x ys))
      ∙ ap (λ (z : List A). z ∷ chunks n (drop n (x ++ ys))) (take-append x ys h)
      ∙ ap (λ (z : List A). x ∷ chunks n z) (drop-append x ys h)

  -- Whole pieces come apart again, with what follows them.
  pub chunks-concat :
      (n : ℕ) (bs : List (List A)) (ys : List A)
      → 0 < n
      → AllLength n bs
      → chunks n (concat bs ++ ys) ≡ bs ++ chunks n ys
  chunks-concat n [] ys p h = refl
  chunks-concat n (b ∷ bs) ys p h =
      ap (chunks n) (append_assoc b (concat bs) ys)
      ∙ chunks-append n b (concat bs ++ ys) p h.0
      ∙ ap (◌∷◌ b) (chunks-concat n bs ys p h.1)

module _ {ℓ} {A : Type ℓ} where
  -- Every list is not empty and not longer than `n`.
  abbrev pub AllPieces : ℕ → List (List A) → Type 0
  AllPieces n [] = Unit
  AllPieces n (x ∷ xs) = (0 < length x) × (length x ≤ n) × AllPieces n xs

  chunks_from-pieces :
      (f n : ℕ) (xs : List A)
      → 0 < n
      → length xs ≤ f
      → (concat (chunks_from f n xs) ≡ xs) × AllPieces n (chunks_from f n xs)
  unfolding chunks_from
  chunks_from-pieces zero n [] p h = (refl, tt)
  chunks_from-pieces zero n (x ∷ xs) p h = absurd (omega arith)
  chunks_from-pieces (suc f) n [] p h = (refl, tt)
  chunks_from-pieces (suc f) n (x ∷ xs) p h =
      let (whole, pieces) =
        chunks_from-pieces f n (drop n (x ∷ xs)) p (omega (arith, length-drop n (x ∷ xs))) in
      (
        ap (◌++◌ (take n (x ∷ xs))) whole ∙ take-append-drop n (x ∷ xs),
        (omega (arith, length-take n (x ∷ xs)), omega (arith, length-take n (x ∷ xs)), pieces),
      )

  -- The pieces of a slice are the slice again.
  pub concat-chunks : (n : ℕ) (xs : List A) → 0 < n → concat (chunks n xs) ≡ xs
  unfolding chunks
  concat-chunks n xs p = (chunks_from-pieces (length xs) n xs p (omega arith)).0

  pub chunks-AllPieces : (n : ℕ) (xs : List A) → 0 < n → AllPieces n (chunks n xs)
  unfolding chunks
  chunks-AllPieces n xs p = (chunks_from-pieces (length xs) n xs p (omega arith)).1

  AllPieces-get_elem? :
      (n i : ℕ) (xs : List (List A)) {x : List A}
      → AllPieces n xs
      → get_elem? xs i ≡ some x
      → length x ≤ n
  AllPieces-get_elem? n i [] all h = cc
  AllPieces-get_elem? n zero (y ∷ xs) all h = subst (λ (t : List A). length t ≤ n) (some_eq h) all.1
  AllPieces-get_elem? n (suc i) (y ∷ xs) all h = AllPieces-get_elem? n i xs all.2 h

  -- No piece is longer than `n`.
  pub length-chunks-le :
      (n i : ℕ) (xs : List A) {x : List A}
      → 0 < n
      → get_elem? (chunks n xs) i ≡ some x
      → length x ≤ n
  length-chunks-le n i xs p h = AllPieces-get_elem? n i (chunks n xs) (chunks-AllPieces n xs p) h
