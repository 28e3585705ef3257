-- ===== src/Base/Int.antt =====
-- Signed integers over the native numbers, as far as the code's `int` results need them.
use Prim.Native.Nat.{ℕ, suc, ◌-◌}
use os_lab.Base.Tests.{leb, if◌then◌else◌}

-- `negsuc n` is -(n + 1).
pub data ℤ : Type 0 where
  pos : ℕ → ℤ
  negsuc : ℕ → ℤ

abbrev pub pos_part : ℤ → ℕ
pos_part (pos n) = n
pos_part (negsuc n) = 0

abbrev pub neg_part : ℤ → ℕ
neg_part (pos n) = 0
neg_part (negsuc n) = suc n

-- a - b, as an integer.
abbrev pub sub_ℕ : ℕ → ℕ → ℤ
sub_ℕ a b = if leb b a then pos (a - b) else negsuc (b - a - 1)

-- The int of which 2 ^ 32 - 1 is the bit pattern, which the code returns on an error.
abbrev pub minus_one : ℤ
minus_one = negsuc 0
