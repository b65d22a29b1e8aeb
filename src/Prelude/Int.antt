-- ===== src/Prelude/Int.antt =====
-- Signed integers over the native numbers, with the operations that the program uses.
use Prim.Native.Nat.{ℕ, zero, suc, ◌+◌, ◌-◌, ◌^◌, ◌≤◌}
use mathlib.Core.Bool.{Bool, true, false}
use dirbase.Prelude.Tests.{leb, if◌then◌else◌}

-- `negsuc n` is -(n + 1).
pub data ℤ : Type 0 where
  pos : ℕ → ℤ
  negsuc : ℕ → ℤ

abbrev pub pos_part : ℤ → ℕ
pos_part (pos n) = n
pos_part (negsuc n) = 0

abbrev pub neg_part : ℤ → ℕ
neg_part (pos n) = 0
neg_part (negsuc n) = suc n

abbrev pub leb_ℤ : ℤ → ℤ → Bool
leb_ℤ (pos m) (pos n) = leb m n
leb_ℤ (pos m) (negsuc n) = false
leb_ℤ (negsuc m) (pos n) = true
leb_ℤ (negsuc m) (negsuc n) = leb n m

infix 50 ◌≤ℤ◌
abbrev pub ◌≤ℤ◌ : ℤ → ℤ → Type 0
a ≤ℤ b = pos_part a + neg_part b ≤ pos_part b + neg_part a

abbrev pub i64_max : ℤ
i64_max = pos (2 ^ 63 - 1)

abbrev pub i64_min : ℤ
i64_min = negsuc (2 ^ 63 - 1)

-- `z + 1` on an `i64` in a release build: the largest value wraps to the least.
unfoldable pub wrapping_suc : ℤ → ℤ
wrapping_suc (pos n) = if leb (2 ^ 63 - 1) n then i64_min else pos (n + 1)
wrapping_suc (negsuc zero) = pos 0
wrapping_suc (negsuc (suc n)) = negsuc n
