-- ===== src/Base/Int.antt =====
-- Signed integers, as far as the program needs them: the image marker -1 and negative positions.
use Prim.Native.Nat.{ℕ}

-- `negsuc n` is -(n + 1).
pub data ℤ : Type 0 where
  pos : ℕ → ℤ
  negsuc : ℕ → ℤ
