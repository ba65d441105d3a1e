-- ===== src/Prelude/Integers.antt =====
-- Go's `int`, as far as the program uses it: limits that may be zero or negative, and counters.
use Prim.Native.Nat.{ℕ}

-- `negsuc n` is -(n + 1).
pub data ℤ : Type 0 where
  pos : ℕ → ℤ
  negsuc : ℕ → ℤ

-- the value of a positive limit, and 0 for every limit that the program reads as none
abbrev pub to_ℕ : ℤ → ℕ
to_ℕ (pos n) = n
to_ℕ (negsuc n) = 0
