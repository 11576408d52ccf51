-- ===== src/Prelude/Dict.antt =====
-- A map of the standard library as an association list: the newest entry of a key counts.
use mathlib.Core.Bool.{Bool, true, false}
use mathlib.Core.List.{List, [], ◌∷◌}
use mathlib.Core.Option.{Option, none, some}
use cryptpilot.Prelude.Tests.{if◌then◌else◌}

abbrev pub is_some {ℓ} : {A : Type ℓ} → Option A → Bool
is_some none = false
is_some (some a) = true

module _ {ℓ κ} {K : Type ℓ} {V : Type κ} where
  -- `get`, by the test for equal keys.
  abbrev pub lookup : (K → K → Bool) → K → List (K × V) → Option V
  lookup eq k [] = none
  lookup eq k ((j, v) ∷ m) = if eq j k then some v else lookup eq k m

  abbrev pub insert : K → V → List (K × V) → List (K × V)
  insert k v m = (k, v) ∷ m

  abbrev pub contains_key : (K → K → Bool) → K → List (K × V) → Bool
  contains_key eq k m = is_some (lookup eq k m)
