-- ===== src/VerityCore/Tree/Padding.antt =====
-- The arithmetic of `rebuild_root_hash` of verity-core/src/tree.rs: the padding, and the number of
-- hashes.
use cryptpilot.Prelude.{ℕ, zero, suc, ◌+◌, ◌-◌, ◌*◌, ◌%◌, ◌≤◌, ◌<◌, ◌≡◌, ap, ◌∙◌, arith}
use native.Mathlib.Nat.{mul-add-mod_self_right, mod-eq_of_lt, mod_self, zero-mod}
use native.Mathlib.Decide.{dec_lt}
use cryptpilot.VerityCore.Digest.Capacity.{mul_mono}

-- The zero bytes that `rebuild_root_hash` adds fill up the last block.
unfoldable pub padding_of : ℕ → ℕ → ℕ
padding_of n b = (b - n % b) % b

pub padding_last : (n k l b : ℕ) → n ≡ k * b + l → 0 < l → l ≤ b → padding_of n b ≡ b - l
unfolding padding_of
padding_last n k l b e pos small = elim (dec_lt l b) [
  | yes less ↦ ap (λ (t : ℕ). (b - t) % b) (rest ∙ mod-eq_of_lt less) ∙ mod-eq_of_lt (omega arith)
  | no full ↦
      let same : l ≡ b = omega arith in
      let none_left : n % b ≡ 0 = rest ∙ ap (λ (t : ℕ). t % b) same ∙ mod_self b in
      ap (λ (t : ℕ). t % b) (let whole : b - n % b ≡ b = omega arith in whole)
      ∙ mod_self b
      ∙ omega arith
]
  where
    rest : n % b ≡ l % b
    rest = ap (λ (t : ℕ). t % b) e ∙ mul-add-mod_self_right k b l

pub padding_none : (b : ℕ) → padding_of 0 b ≡ 0
unfolding padding_of
padding_none b =
    ap (λ (t : ℕ). t % b) (let whole : b - 0 % b ≡ b = omega (arith, zero-mod b) in whole)
    ∙ mod_self b

-- The recorded hashes are few enough for the digest over them.
pub few_hashes : (n o b c p : ℕ) → n ≤ c * p → 2 ≤ c → 1 ≤ p → b ≡ c * o → n * o + b ≤ b * (c * p)
few_hashes n o b c p h big pos e = omega (
  arith,
  mul_mono n (c * p) o h,
  mul_mono (suc p) (c * p) b (next c p big pos),
  ap (λ (t : ℕ). t * p) e,
)
  where
    next : (c p : ℕ) → 2 ≤ c → 1 ≤ p → suc p ≤ c * p
    next zero p big pos = absurd (omega arith)
    next (suc zero) p big pos = absurd (omega arith)
    next (suc (suc c)) p big pos = omega arith

-- As many blocks as the bytes fill, if the bytes are within `b * m`.
pub few_blocks : (k l b m : ℕ) → k * b + l ≤ b * m → 0 < l → suc k ≤ m
few_blocks k l b m h pos = elim (dec_lt k m) [
  | yes less ↦ omega arith
  | no more ↦ absurd (omega (arith, mul_mono m k b (omega arith)))
]
