-- ===== src/Common/Int.antt =====
-- Go's `int`, where the code lets a negative one through. Only order and printing are needed.
use Prim.Native.Nat.{ℕ}

-- `negsuc n` is -(n + 1).
pub data ℤ : Type 0 where
  pos : ℕ → ℤ
  negsuc : ℕ → ℤ
