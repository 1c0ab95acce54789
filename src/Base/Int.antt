-- ===== src/Base/Int.antt =====
-- The C `int`, where only its value matters: the library's integers over the native numbers.
use Prim.Native.Nat.{ℕ}

pub data ℤ : Type 0 where
  pos negsuc : ℕ → ℤ
