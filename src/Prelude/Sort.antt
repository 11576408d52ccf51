-- ===== src/Prelude/Sort.antt =====
-- Sorting by a text, as `sort_by` of the standard library does with `cmp`. What is equal keeps its
-- order.
use Prim.Native.Nat.{Ordering, lt, eq, gt}
use Prim.Native.String.{String, compare}
use mathlib.Core.List.{List, [], ◌∷◌}

module _ {A : Type 0} (path : A → String) where
  abbrev pub insert_by : A → List A → List A
  insert_by a [] = a ∷ []
  insert_by a (b ∷ rest) =
      let later = insert_by a rest in
      elim (compare (path a) (path b)) [ gt ↦ b ∷ later | _ ↦ a ∷ b ∷ rest ]

  unfoldable pub sort_by : List A → List A
  sort_by [] = []
  sort_by (a ∷ rest) = insert_by a (sort_by rest)

abbrev pub AllOf : {A : Type 0} → (A → Type 0) → List A → Type 0
AllOf P [] = Unit
AllOf P (a ∷ rest) = P a × AllOf P rest

module _ {A : Type 0} (path : A → String) (P : A → Type 0) where
  pub insert_by-AllOf : (a : A) (xs : List A) → P a → AllOf P xs → AllOf P (insert_by path a xs)
  insert_by-AllOf a [] p all = (p, tt)
  insert_by-AllOf a (b ∷ rest) p (q, all) =
      by_order (compare (path a) (path b)) (insert_by-AllOf a rest p all)
    where
      by_order :
          (o : Ordering)
          → AllOf P (insert_by path a rest)
          → AllOf P (elim o as (λ _. List A) [ gt ↦ b ∷ insert_by path a rest | _ ↦ a ∷ b ∷ rest ])
      by_order lt later = (p, (q, all))
      by_order eq later = (p, (q, all))
      by_order gt later = (q, later)

  -- Sorting keeps what holds of all entries.
  pub sort_by-AllOf : (xs : List A) → AllOf P xs → AllOf P (sort_by path xs)
  unfolding sort_by
  sort_by-AllOf [] all = tt
  sort_by-AllOf (a ∷ rest) (p, all) =
      insert_by-AllOf a (sort_by path rest) p (sort_by-AllOf rest all)
