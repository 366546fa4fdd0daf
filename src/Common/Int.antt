-- ===== src/Common/Int.antt =====
-- Python's ints where a sign can reach the code: an ordinal or a sequence number of a request.
use Prim.Native.Nat.{ℕ, zero, suc}
use mathlib.Core.Bool.{Bool, true, false}
use instruct_eval.Common.Tests.{nat_beq}

-- `negsuc n` is -(n + 1).
pub data ℤ : Type 0 where
  pos : ℕ → ℤ
  negsuc : ℕ → ℤ

-- `z == n` for a column `n` that is never negative
abbrev pub equals : ℤ → ℕ → Bool
equals (pos m) n = nat_beq m n
equals (negsuc _) _ = false

-- `z - 1`
abbrev pub minus_one : ℤ → ℤ
minus_one (pos zero) = negsuc zero
minus_one (pos (suc n)) = pos n
minus_one (negsuc n) = negsuc (suc n)

-- `z < 0`
abbrev pub is_negative : ℤ → Bool
is_negative (pos _) = false
is_negative (negsuc _) = true

-- `z <= 0`
abbrev pub is_nonpositive : ℤ → Bool
is_nonpositive (pos zero) = true
is_nonpositive (pos (suc _)) = false
is_nonpositive (negsuc _) = true

-- the column that stores an int which a check has found not negative
abbrev pub to_column : ℤ → ℕ
to_column (pos n) = n
to_column (negsuc _) = 0
