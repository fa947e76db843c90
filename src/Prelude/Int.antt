-- ===== src/Prelude/Int.antt =====
-- The integers of Go's int64 as far as they are only passed on or compared.
use Prim.Native.Nat.{ℕ}

-- `negsuc n` is -(n + 1).
pub data ℤ : Type 0 where
  pos : ℕ → ℤ
  negsuc : ℕ → ℤ
