-- ===== src/Prelude/Ints.antt =====
-- Signed machine integers; the code that uses them keeps their bounds.
use Prim.Native.Nat.{ℕ}

-- `pos n` is n, `negsuc n` is -(n + 1).
pub data ℤ : Type 0 where
  pos : ℕ → ℤ
  negsuc : ℕ → ℤ
