-- ===== src/Prelude/Text.antt =====
-- Text as the list of its code points, and the functions of `str` on it.
use Prim.Native.Char.{code}
use Prim.Native.String.{String, ◌++◌ as ◌<>◌}
use mathlib.Core.Bool.{Bool, true, false, ◌&&◌, ◌||◌}
use mathlib.Core.List.{List, [], ◌∷◌, reverse}
use mathlib.Core.Option.{Option, none, some}
use Prim.Native.Nat.{ℕ, zero, suc, ◌/◌, ◌%◌}
use cryptpilot.Prelude.Tests.{◌==◌, leb, ltb, if◌then◌else◌}

abbrev pub codes : String → List ℕ
codes String.[] = []
codes (String.◌∷◌ c s) = code c ∷ codes s

-- What is left after a prefix: `strip_prefix`.
abbrev pub strip_prefix : List ℕ → List ℕ → Option (List ℕ)
strip_prefix [] s = some s
strip_prefix (p ∷ ps) [] = none
strip_prefix (p ∷ ps) (c ∷ s) = if p == c then strip_prefix ps s else none

-- What stands after the first occurrence of the pattern: the slice from `find` plus its length on.
abbrev pub after : List ℕ → List ℕ → Option (List ℕ)
after pattern [] = strip_prefix pattern []
after pattern (c ∷ s) =
    let later = after pattern s in
    elim (strip_prefix pattern (c ∷ s)) [ some rest ↦ some rest | none ↦ later ]

-- What stands before the first occurrence of the character: the slice up to `find`.
abbrev pub before : ℕ → List ℕ → Option (List ℕ)
before q [] = none
before q (c ∷ s) =
    if c == q then some [] else elim (before q s) [ none ↦ none | some front ↦ some (c ∷ front) ]

-- `char::is_whitespace`: the property White_Space of Unicode.
abbrev pub is_whitespace : ℕ → Bool
is_whitespace c =
    (leb 9 c && leb c 13)
    || c == 32
    || c == 0x85
    || c == 0xa0
    || c == 0x1680
    || (leb 0x2000 c && leb c 0x200a)
    || c == 0x2028
    || c == 0x2029
    || c == 0x202f
    || c == 0x205f
    || c == 0x3000

abbrev pub trim_start : List ℕ → List ℕ
trim_start [] = []
trim_start (c ∷ s) = if is_whitespace c then trim_start s else c ∷ s

abbrev pub trim : List ℕ → List ℕ
trim s = reverse (trim_start (reverse (trim_start s)))

-- One more character in front of the first part.
abbrev pub onto : ℕ → List (List ℕ) → List (List ℕ)
onto c [] = (c ∷ []) ∷ []
onto c (part ∷ parts) = (c ∷ part) ∷ parts

-- `split` at a character.
abbrev pub split_at : ℕ → List ℕ → List (List ℕ)
split_at q [] = [] ∷ []
split_at q (c ∷ s) = let rest = split_at q s in if c == q then [] ∷ rest else onto c rest

abbrev pub drop_cr : List ℕ → List ℕ
drop_cr [] = []
drop_cr (c ∷ []) = if c == 13 then [] else c ∷ []
drop_cr (c ∷ d ∷ s) = c ∷ drop_cr (d ∷ s)

-- The parts without an empty last one, each without a carriage return at its end.
abbrev pub ended : List (List ℕ) → List (List ℕ)
ended [] = []
ended ([] ∷ []) = []
ended ((c ∷ part) ∷ []) = drop_cr (c ∷ part) ∷ []
ended (part ∷ next ∷ parts) = drop_cr part ∷ ended (next ∷ parts)

abbrev pub lines : List ℕ → List (List ℕ)
lines s = ended (split_at 10 s)

-- `to_string` of a number: its decimal digits.
abbrev pub digit : ℕ → String
digit n =
    if n == 0
    then "0"
    else if n == 1
    then "1"
    else if n == 2
    then "2"
    else if n == 3
    then "3"
    else if n == 4
    then "4"
    else if n == 5
    then "5"
    else if n == 6
    then "6"
    else if n == 7
    then "7"
    else if n == 8
    then "8"
    else "9"

-- With more rounds than there are digits.
abbrev pub decimal_from : ℕ → ℕ → String
decimal_from zero n = ""
decimal_from (suc fuel) n = elim (ltb n 10) [
  | true ↦ digit n
  | false ↦ decimal_from fuel (n / 10) <> digit (n % 10)
]

-- A `u64` has at most 20 digits.
abbrev pub decimal : ℕ → String
decimal n = decimal_from 20 n
