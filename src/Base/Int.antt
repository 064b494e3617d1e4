-- ===== src/Base/Int.antt =====
-- Signed results: `negsuc n` is -(n + 1).
use Prim.Native.Nat.{ℕ}

pub data ℤ : Type 0 where
  pos : ℕ → ℤ
  negsuc : ℕ → ℤ

-- The -1 by which the code says that there is nothing.
abbrev pub minus_one : ℤ
minus_one = negsuc 0
