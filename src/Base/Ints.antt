-- ===== src/Base/Ints.antt =====
-- Signed integers, on the native numbers.
use Prim.Native.Nat.{ℕ}

pub data ℤ : Type 0 where
  pos negsuc : ℕ → ℤ
