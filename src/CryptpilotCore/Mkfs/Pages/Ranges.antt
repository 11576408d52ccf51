-- ===== src/CryptpilotCore/Mkfs/Pages/Ranges.antt =====
-- The set of pages of cryptpilot-core/src/fs/mkfs.rs, and the range of pages of an event.
use native.Mathlib.Nat.{div-lt_iff_lt-mul, div-add-mod', mod-lt, mul-le-mul_right}
use native.Mathlib.Decide.{dec_lt}
use cryptpilot.Prelude.{
  ℕ, zero, suc, ◌+◌, ◌*◌, ◌/◌, ◌%◌, ◌≤◌, ◌<◌, ◌≡◌, refl, sym, subst, ◌↔◌, ◌⊎◌, inl, inr, true, ◌||◌,
  List, [], ◌∷◌, ◌++◌, ◌==◌, ==_iff, arith, div_ceil, Bool-cases,
}
use cryptpilot.CryptpilotCore.Mkfs.{contains, insert, insert_range}

pub contains-append :
    (p x : ℕ) (set : List ℕ) → contains p (set ++ x ∷ []) ≡ (p == x || contains p set)
contains-append p x [] = refl
contains-append p x (y ∷ set) = ground (arith, contains-append p x set)

contains_self :
    (p x : ℕ) (set : List ℕ) → contains x set ≡ true → (p == x) ≡ true → contains p set ≡ true
contains_self p x set h e = subst (λ y. contains y set ≡ true) (sym ((==_iff p x).0 e)) h

-- Insertion adds what is inserted.
pub contains-insert :
    (p x : ℕ) (set : List ℕ) → contains p (insert x set) ≡ (p == x || contains p set)
unfolding insert
contains-insert p x set = elim (Bool-cases (contains x set)) [
  | inl there ↦ rw (there) (ground (arith, contains_self p x set there))
  | inr new ↦ rw (new) (contains-append p x set)
]

-- A page of a range.
abbrev pub InRange : ℕ → ℕ → ℕ → Type 0
InRange p n start = (start ≤ p) × (p < start + n)

pub contains-range :
    (p n start : ℕ) (set : List ℕ)
    → (contains p (insert_range n start set) ≡ true) ↔ (InRange p n start ⊎ (contains p set ≡ true))
unfolding insert_range
contains-range p zero start set = ground arith
contains-range p (suc n) start set =
    ground (arith, contains-range p n (start + 1) (insert start set), contains-insert p start set)

-- Rounding down and up to a page.
module _ (b : ℕ) (nonzero : 0 < b) where
  pub from_start : (a p : ℕ) → (a / b ≤ p) ↔ (a < p * b + b)
  from_start a p = (
    λ h. omega (arith, (div-lt_iff_lt-mul {x = a} {y = p + 1} nonzero).0 (omega arith)),
    λ h. omega (arith, (div-lt_iff_lt-mul {x = a} {y = p + 1} nonzero).1 (omega arith)),
  )

  pub up_to_end : (a p : ℕ) → (p < div_ceil a b) ↔ (p * b < a)
  up_to_end a p = elim (Bool-cases (a % b == 0)) [
    | inl whole ↦ rw whole (
      λ h. omega (arith, div-add-mod' a b, mul-le-mul_right b h),
      λ h. elim (dec_lt p (a / b)) [
        | yes q ↦ q
        | no q ↦
            let low : a / b ≤ p = omega arith in
            absurd
              (omega (arith, (==_iff (a % b) 0).0 whole, div-add-mod' a b, mul-le-mul_right b low))
      ],
    )
    | inr part ↦ rw part (
      λ h.
          let low : p ≤ a / b = omega arith in
          let rest : 0 < a % b = ground arith in
          omega (arith, div-add-mod' a b, mul-le-mul_right b low),
      λ h. elim (dec_lt p (a / b + 1)) [
        | yes q ↦ q
        | no q ↦
            let high : a / b + 1 ≤ p = omega arith in
            absurd (omega (arith, mod-lt a nonzero, div-add-mod' a b, mul-le-mul_right b high))
      ],
    )
  ]
