-- ===== src/Prelude/Lists.antt =====
-- Lists measured and indexed by native numbers, under the library's names.
use Prim.Native.Nat.{ℕ, zero, suc, ◌+◌, ◌-◌, ◌*◌, ◌≤◌, ◌<◌, min}
use mathlib.Core.Path.{◌≡◌, refl, ap, ◌∙◌, sym}
use mathlib.Core.Bool.{Bool, true, false, ◌&&◌}
use mathlib.Core.List.{List, [], ◌∷◌, ◌++◌, map, append_assoc}
use mathlib.Core.Option.{Option, none, some}
use native.Mathlib.Omega.{arith}
use cryptpilot.Prelude.Tests.{◌==◌, is_empty, some_eq}

module _ {ℓ} {A : Type ℓ} where
  abbrev pub length : List A → ℕ
  length [] = 0
  length (x ∷ xs) = suc (length xs)

  abbrev pub drop : ℕ → List A → List A
  drop zero xs = xs
  drop (suc n) [] = []
  drop (suc n) (x ∷ xs) = drop n xs

  abbrev pub replicate : ℕ → A → List A
  replicate zero a = []
  replicate (suc n) a = a ∷ replicate n a

  abbrev pub take : ℕ → List A → List A
  take zero l = []
  take (suc n) [] = []
  take (suc n) (a ∷ l) = a ∷ take n l

  abbrev pub get_elem? : List A → ℕ → Option A
  get_elem? [] i = none
  get_elem? (a ∷ l) zero = some a
  get_elem? (a ∷ l) (suc i) = get_elem? l i

  abbrev pub get_or : List A → ℕ → A → A
  get_or [] i a = a
  get_or (x ∷ xs) zero a = x
  get_or (x ∷ xs) (suc i) a = get_or xs i a

  -- The concatenation of a list of lists.
  abbrev pub concat : List (List A) → List A
  concat [] = []
  concat (x ∷ xs) = x ++ concat xs

  pub length-append : (xs ys : List A) → length (xs ++ ys) ≡ length xs + length ys
  length-append [] ys = omega arith
  length-append (x ∷ xs) ys = omega (arith, length-append xs ys)

  pub take-append-drop : (n : ℕ) (xs : List A) → take n xs ++ drop n xs ≡ xs
  take-append-drop zero xs = refl
  take-append-drop (suc n) [] = refl
  take-append-drop (suc n) (x ∷ xs) = ap (◌∷◌ x) (take-append-drop n xs)

  pub length-take : (n : ℕ) (xs : List A) → length (take n xs) ≡ min n (length xs)
  length-take zero xs = omega arith
  length-take (suc n) [] = omega arith
  length-take (suc n) (x ∷ xs) = omega (arith, length-take n xs)

  pub length-drop : (n : ℕ) (xs : List A) → length (drop n xs) ≡ length xs - n
  length-drop zero xs = omega arith
  length-drop (suc n) [] = omega arith
  length-drop (suc n) (x ∷ xs) = omega (arith, length-drop n xs)

  pub length-replicate : (n : ℕ) (a : A) → length (replicate n a) ≡ n
  length-replicate zero a = refl
  length-replicate (suc n) a = ap suc (length-replicate n a)

  pub take_of_length-le : (n : ℕ) (xs : List A) → length xs ≤ n → take n xs ≡ xs
  take_of_length-le zero [] fit = refl
  take_of_length-le (suc n) [] fit = refl
  take_of_length-le zero (a ∷ l) fit = absurd (omega arith)
  take_of_length-le (suc n) (a ∷ l) fit =
      let rest = take_of_length-le n l (omega arith) in ap (◌∷◌ a) rest

  pub drop_of_length-le : (n : ℕ) (xs : List A) → length xs ≤ n → drop n xs ≡ []
  drop_of_length-le zero [] h = refl
  drop_of_length-le zero (x ∷ xs) h = absurd (omega arith)
  drop_of_length-le (suc n) [] h = refl
  drop_of_length-le (suc n) (x ∷ xs) h = drop_of_length-le n xs (omega arith)

  pub take-append : (xs ys : List A) {n : ℕ} → length xs ≡ n → take n (xs ++ ys) ≡ xs
  take-append [] ys {n = zero} h = refl
  take-append [] ys {n = suc n} h = absurd (omega arith)
  take-append (x ∷ xs) ys {n = zero} h = absurd (omega arith)
  take-append (x ∷ xs) ys {n = suc n} h = ap (◌∷◌ x) (take-append xs ys (omega arith))

  pub drop-append : (xs ys : List A) {n : ℕ} → length xs ≡ n → drop n (xs ++ ys) ≡ ys
  drop-append [] ys {n = zero} h = refl
  drop-append [] ys {n = suc n} h = absurd (omega arith)
  drop-append (x ∷ xs) ys {n = zero} h = absurd (omega arith)
  drop-append (x ∷ xs) ys {n = suc n} h = drop-append xs ys (omega arith)

  pub replicate-add :
      (n m : ℕ) (a : A) {k : ℕ} → n + m ≡ k → replicate n a ++ replicate m a ≡ replicate k a
  replicate-add zero m a {k = zero} h = let e : m ≡ zero = omega arith in ap (λ i. replicate i a) e
  replicate-add zero m a {k = suc k} h =
      let e : m ≡ suc k = omega arith in ap (λ i. replicate i a) e
  replicate-add (suc n) m a {k = zero} h = absurd (omega arith)
  replicate-add (suc n) m a {k = suc k} h = ap (◌∷◌ a) (replicate-add n m a (omega arith))

  pub concat-append : (xs ys : List (List A)) → concat (xs ++ ys) ≡ concat xs ++ concat ys
  concat-append [] ys = refl
  concat-append (x ∷ xs) ys =
      ap (◌++◌ x) (concat-append xs ys) ∙ sym (append_assoc x (concat xs) (concat ys))

  -- Every list of `xs` has the length `n`.
  abbrev pub AllLength : ℕ → List (List A) → Type 0
  AllLength n [] = Unit
  AllLength n (x ∷ xs) = (length x ≡ n) × AllLength n xs

  pub AllLength-append :
      (n : ℕ) (xs ys : List (List A)) → AllLength n xs → AllLength n ys → AllLength n (xs ++ ys)
  AllLength-append n [] ys h k = k
  AllLength-append n (x ∷ xs) ys h k = (h.0, AllLength-append n xs ys h.1 k)

module _ {ℓ} {A : Type ℓ} where
  pub length-concat :
      (n : ℕ) (xs : List (List A)) → AllLength n xs → length (concat xs) ≡ length xs * n
  length-concat n [] h = omega arith
  length-concat n (x ∷ xs) h =
      omega (arith, length-append x (concat xs), length-concat n xs h.1, h.0)

module _ {ℓ κ} {A : Type ℓ} {B : Type κ} where
  pub length-map : (f : A → B) (xs : List A) → length (map f xs) ≡ length xs
  length-map f [] = refl
  length-map f (x ∷ xs) = ap suc (length-map f xs)

  pub get_elem?-map :
      (f : A → B) (xs : List A) (i : ℕ) {x : A}
      → get_elem? xs i ≡ some x
      → get_elem? (map f xs) i ≡ some (f x)
  get_elem?-map f [] i h = cc
  get_elem?-map f (y ∷ xs) zero h = cc
  get_elem?-map f (y ∷ xs) (suc i) h = get_elem?-map f xs i h

  pub get_elem?_of_map :
      (f : A → B) (xs : List A) (i : ℕ) {y : B}
      → get_elem? (map f xs) i ≡ some y
      → (x : A) × (get_elem? xs i ≡ some x) × (y ≡ f x)
  get_elem?_of_map f [] i h = cc
  get_elem?_of_map f (x ∷ xs) zero h = (x, refl, sym (some_eq h))
  get_elem?_of_map f (x ∷ xs) (suc i) h = get_elem?_of_map f xs i h

  pub AllLength-map :
      (n : ℕ) (f : A → List B) (xs : List A) → ((a : A) → length (f a) ≡ n) → AllLength n (map f xs)
  AllLength-map n f [] h = tt
  AllLength-map n f (x ∷ xs) h = (h x, AllLength-map n f xs h)

module _ {ℓ} {A : Type ℓ} where
  pub empty_of : (xs : List A) → is_empty xs ≡ true → xs ≡ []
  empty_of [] h = refl
  empty_of (x ∷ xs) h = cc

  pub pos_of_nonempty : (xs : List A) → is_empty xs ≡ false → 0 < length xs
  pos_of_nonempty [] h = cc
  pos_of_nonempty (x ∷ xs) h = omega arith

  pub is_empty_of_pos : (xs : List A) → 0 < length xs → is_empty xs ≡ false
  is_empty_of_pos [] h = absurd (omega arith)
  is_empty_of_pos (x ∷ xs) h = refl

-- `==` on slices of bytes.
abbrev pub bytes_eq : List ℕ → List ℕ → Bool
bytes_eq [] [] = true
bytes_eq (x ∷ xs) (y ∷ ys) = x == y && bytes_eq xs ys
bytes_eq _ _ = false

pub bytes_eq→eq : (xs ys : List ℕ) → bytes_eq xs ys ≡ true → xs ≡ ys
bytes_eq→eq [] [] h = refl
bytes_eq→eq [] (y ∷ ys) h = cc
bytes_eq→eq (x ∷ xs) [] h = cc
bytes_eq→eq (x ∷ xs) (y ∷ ys) h = ground (arith, bytes_eq→eq xs ys)

pub bytes_eq_refl : (xs : List ℕ) → bytes_eq xs xs ≡ true
bytes_eq_refl [] = refl
bytes_eq_refl (x ∷ xs) = ground (arith, bytes_eq_refl xs)
