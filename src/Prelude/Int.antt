-- ===== src/Prelude/Int.antt =====
-- Signed numbers over the native numbers.
use Prim.Native.Nat.{ℕ}
use mathlib.Core.Bool.{Bool, true, false}
use cryptpilot.Prelude.Tests.{leb}

pub data ℤ : Type 0 where
  pos : ℕ → ℤ
  -- `negsuc n` is -1 - n.
  negsuc : ℕ → ℤ

abbrev pub is_negative : ℤ → Bool
is_negative (ℤ.pos n) = false
is_negative (ℤ.negsuc n) = true

-- `max(0)`, and the value as an unsigned number.
abbrev pub to_nat : ℤ → ℕ
to_nat (ℤ.pos n) = n
to_nat (ℤ.negsuc n) = 0

abbrev pub at_most : ℤ → ℕ → Bool
at_most (ℤ.pos n) m = leb n m
at_most (ℤ.negsuc n) m = true
