-- ===== src/VerityFuse/Filesystem/Range.antt =====
-- Which blocks `read_file` of verity-fuse/src/filesystem.rs visits.
use cryptpilot.Prelude.{
  div_ceil, ℕ, ◌+◌, ◌-◌, ◌*◌, ◌/◌, ◌%◌, ◌≤◌, ◌<◌, ◌≡◌, ap, min, max, false, Bool-cases, inl, inr,
  leb, ◌==◌, ==_iff, arith,
}
use native.Mathlib.Decide.{dec_le}
use native.Mathlib.Nat.{div-mul-le_self, div-add-mod, mod-lt, mul-le-mul_right}

module _ (a b : ℕ) (pos : 0 < b) where
  -- The blocks that hold `a` bytes: enough, and none too many.
  pub div_ceil-enough : a ≤ div_ceil a b * b
  div_ceil-enough =
      let whole = div-add-mod a b in
      elim (Bool-cases (a % b == 0)) [
        | inl e ↦ rw e (omega (arith, whole, (==_iff (a % b) 0).0 e))
        | inr e ↦ rw e (omega (arith, whole, mod-lt a pos))
      ]

  pub div_ceil-few : div_ceil a b * b < a + b
  div_ceil-few =
      let whole = div-add-mod a b in
      elim (Bool-cases (a % b == 0)) [
        | inl e ↦ rw e (omega (arith, whole))
        | inr e ↦ rw e (omega (arith, whole, not_zero e))
      ]
    where
      not_zero : (a % b == 0) ≡ false → 0 < a % b
      not_zero e = ground arith

-- The blocks from `offset / b` on that `read_file` counts reach the end of the request, and each of
-- them holds a byte of it.
pub blocks_end :
    (offset size b : ℕ)
    → 0 < b
    → (offset / b + (div_ceil (offset + size) b - offset / b)) * b < offset + size + b
blocks_end offset size b pos = elim (dec_le (offset / b) (div_ceil (offset + size) b)) [
  | yes le ↦
      let same : offset / b + (div_ceil (offset + size) b - offset / b)
          ≡ div_ceil (offset + size) b =
        omega arith in
      omega (arith, ap (λ (t : ℕ). t * b) same, div_ceil-few (offset + size) b pos)
  | no lt ↦
      let same : offset / b + (div_ceil (offset + size) b - offset / b) ≡ offset / b =
        omega arith in
      omega (arith, ap (λ (t : ℕ). t * b) same, div-mul-le_self offset b)
]

pub blocks_reach :
    (offset size b : ℕ)
    → 0 < b
    → offset + size ≤ (offset / b + (div_ceil (offset + size) b - offset / b)) * b
blocks_reach offset size b pos =
    let more : div_ceil (offset + size) b ≤ offset / b + (div_ceil (offset + size) b - offset / b) =
      omega arith in
    let low = mul-le-mul_right b more in omega (arith, low, div_ceil-enough (offset + size) b pos)

-- The overlap of a block with the request is not empty.
pub overlap :
    (offset end start b : ℕ)
    → offset < start + b
    → start < end
    → offset < end
    → 0 < b
    → leb (min end (start + b)) (max offset start) ≡ false
overlap offset end start b h1 h2 h3 h4 = ground arith
