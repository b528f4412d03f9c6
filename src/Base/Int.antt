-- ===== src/Base/Int.antt =====
-- Signed numbers: the offsets of a field descriptor.
use Prim.Native.Nat.{ℕ}

-- `negsuc n` is -(n + 1).
pub data ℤ : Type 0 where
  pos : ℕ → ℤ
  negsuc : ℕ → ℤ
