-- ===== src/Prelude/Int.antt =====
-- C's `int` where its sign matters, and its range.
use Prim.Native.Nat.{ℕ, ◌-◌, ◌^◌}

-- `negsuc n` is -(n + 1).
pub data ℤ : Type 0 where
  pos : ℕ → ℤ
  negsuc : ℕ → ℤ

-- The greatest `int`.
abbrev pub int_max : ℕ
int_max = 2 ^ 31 - 1
