-- ===== src/Base/Int.antt =====
-- Signed machine integers of the source (`i32`).
use Prim.Native.Nat.{ℕ}

-- `negsuc n` is -(n + 1).
pub data ℤ : Type 0 where
  pos : ℕ → ℤ
  negsuc : ℕ → ℤ
