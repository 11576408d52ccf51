-- ===== src/Prelude/Pow.antt =====
-- Powers of two, as `is_power_of_two` and `trailing_zeros` of the standard library see them.
use Prim.Native.Nat.{ℕ, zero, suc, ◌+◌, ◌-◌, ◌*◌, ◌/◌, ◌%◌, ◌^◌, ◌≤◌, ◌<◌}
use mathlib.Core.Path.{◌≡◌, refl, ap}
use mathlib.Core.Bool.{Bool, true, false, ◌||◌}
use native.Mathlib.Omega.{arith}
use native.Mathlib.Decide.{dec_le}
use native.Mathlib.Nat.{pow-zero, pow-succ', pow-le-pow_right}
use mathlib.Core.Logic.{inl, inr}
use cryptpilot.Prelude.Tests.{◌==◌, ==_iff, if◌then◌else◌, Bool-cases}

-- `n` is 2 ^ i for some i < k.
pub is_pow_below : ℕ → ℕ → Bool
is_pow_below zero n = false
is_pow_below (suc k) n = n == 2 ^ k || is_pow_below k n

-- `usize::is_power_of_two` at 64 bits.
unfoldable pub is_power_of_two : ℕ → Bool
unfolding is_pow_below
is_power_of_two n = is_pow_below 64 n

is_pow_below_sound : (k n : ℕ) → is_pow_below k n ≡ true → (i : ℕ) × (i < k) × (n ≡ 2 ^ i)
unfolding is_pow_below
is_pow_below_sound zero n h = cc
is_pow_below_sound (suc k) n h = elim (Bool-cases (n == 2 ^ k)) [
  | inl e ↦ (k, omega arith, (==_iff n (2 ^ k)).0 e)
  | inr e ↦ let r = is_pow_below_sound k n (ground arith) in (r.0, omega (arith, r.1), r.2)
]

pub is_power_of_two_sound : (n : ℕ) → is_power_of_two n ≡ true → (i : ℕ) × (i < 64) × (n ≡ 2 ^ i)
unfolding is_power_of_two
is_power_of_two_sound n h = is_pow_below_sound 64 n h

-- `usize::trailing_zeros` of a number below 2 ^ 64 that is not 0.
trailing_from : ℕ → ℕ → ℕ
trailing_from zero n = 0
trailing_from (suc fuel) n = if n % 2 == 0 then suc (trailing_from fuel (n / 2)) else 0

unfoldable pub trailing_zeros : ℕ → ℕ
unfolding trailing_from
trailing_zeros n = trailing_from 64 n

trailing_from-pow : (f i : ℕ) → i < f → trailing_from f (2 ^ i) ≡ i
unfolding trailing_from
trailing_from-pow zero i h = absurd (omega arith)
trailing_from-pow (suc f) zero h = refl
trailing_from-pow (suc f) (suc i) h =
    let e : 2 ^ suc i ≡ 2 * 2 ^ i = pow-succ' 2 i in
    let d : (2 ^ suc i) / 2 ≡ 2 ^ i = omega arith in
    ground (arith, ap (trailing_from f) d, trailing_from-pow f i (omega arith))

pub trailing_zeros-pow : (i : ℕ) → i < 64 → trailing_zeros (2 ^ i) ≡ i
unfolding trailing_zeros
trailing_zeros-pow i h = trailing_from-pow 64 i h

pub pow_pos : (i : ℕ) → 0 < 2 ^ i
pow_pos zero = omega arith
pow_pos (suc i) = omega (arith, pow_pos i, pow-succ' 2 i)

pub pow-add : (b i j : ℕ) {k : ℕ} → i + j ≡ k → b ^ k ≡ b ^ i * b ^ j
pow-add b zero j {k} h =
    let e : k ≡ j = omega arith in
    rw e (omega (arith, pow-zero b, ap (λ (t : ℕ). t * b ^ j) (pow-zero b)))
pow-add b (suc i) j {k} h =
    let e : k ≡ suc (i + j) = omega arith in
    rw e (
      omega (
        arith,
        pow-succ' b (i + j),
        ap (λ (t : ℕ). b * t) (pow-add b i j refl),
        ap (λ (t : ℕ). t * b ^ j) (pow-succ' b i),
      ))

-- A power of two that is not below another one is a multiple of it.
pub pow_multiple : (i j : ℕ) → 2 ^ j ≤ 2 ^ i → 2 ^ i ≡ 2 ^ (i - j) * 2 ^ j
pow_multiple i j h = elim (dec_le j i) [
  | yes p ↦ pow-add 2 (i - j) j (omega arith)
  | no p ↦ absurd (
      omega (
        arith,
        pow-le-pow_right {n = 2} (omega arith) {i = suc i} {j = j} (omega arith),
        pow-succ' 2 i,
        pow_pos i,
      ))
]
