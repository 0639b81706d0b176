-- ===== src/Prelude/Integers.antt =====
-- The signed numbers of 64 bits, over the native natural numbers.
use Prim.Native.Nat.{ℕ, zero, suc}
use alac_bot.Prelude.{Bool, true, false}

-- `negsuc n` is the number n + 1 below zero.
pub data ℤ : Type 0 where
  pos negsuc : ℕ → ℤ

abbrev pub is_zero : ℤ → Bool
is_zero (pos zero) = true
is_zero (pos (suc n)) = false
is_zero (negsuc n) = false
