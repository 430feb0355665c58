-- ===== src/Base/Int.antt =====
-- C's `int` arguments that may be negative: the sign is matched on, as the guards of the code do.
use Prim.Native.Nat.{ℕ}

-- `negsuc n` is -(n + 1).
pub data ℤ : Type 0 where
  pos : ℕ → ℤ
  negsuc : ℕ → ℤ
