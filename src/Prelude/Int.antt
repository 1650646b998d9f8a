-- ===== src/Prelude/Int.antt =====
-- Signed numbers over the native ones, under the library's names: what `strtoll` returns.
use Prim.Native.Nat.{ℕ, zero, suc}

-- `negsuc n` is -(n + 1).
pub data ℤ : Type 0 where
  pos : ℕ → ℤ
  negsuc : ℕ → ℤ

-- -n
unfoldable pub negate : ℕ → ℤ
negate zero = pos zero
negate (suc n) = negsuc n
