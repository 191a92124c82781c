-- ===== src/Common/Integers.antt =====
-- Signed numbers, where the source has an `int` or `int64` that may be negative.
use Prim.Native.Nat.{ℕ}

-- `negsuc n` is -(n + 1).
pub data ℤ : Type 0 where
  pos : ℕ → ℤ
  negsuc : ℕ → ℤ
