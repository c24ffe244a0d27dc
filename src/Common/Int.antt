-- ===== src/Common/Int.antt =====
-- i64 values, under the library's names (its own ℤ stands on the unary numbers).
use Prim.Native.Nat.{ℕ}

-- `negsuc n` is -(n + 1).
pub data ℤ : Type 0 where
  pos : ℕ → ℤ
  negsuc : ℕ → ℤ
