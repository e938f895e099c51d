-- ===== src/Prelude/Int.antt =====
-- Go's `int`, 64 bits wide: an integer with its range stated where it matters.
use Prim.Native.Nat.{ℕ}

-- `negsuc n` is -(n + 1).
pub data ℤ : Type 0 where
  pos : ℕ → ℤ
  negsuc : ℕ → ℤ
