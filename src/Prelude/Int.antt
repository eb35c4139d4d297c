-- ===== src/Prelude/Int.antt =====
-- Integers over the native numbers: C's `int` and the whole doubles that the program counts with.
use Prim.Native.Nat.{ℕ}

-- `negsuc n` is -(n + 1).
pub data ℤ : Type 0 where
  pos : ℕ → ℤ
  negsuc : ℕ → ℤ
