-- ===== src/Prelude/Int.antt =====
-- Python's integers, under the library's names (its ℤ stands on another ℕ): what the analyzer
-- compares with a process id, and what the specifications compute with.
use Prim.Native.Nat.{ℕ, suc, ◌+◌, ◌-◌, ◌*◌, ◌/◌, ◌≤◌}
use mathlib.Core.Bool.{Bool, false}
use krace.Prelude.Tests.{◌==◌, ltb, leb, if◌then◌else◌}

-- `negsuc n` is -(n + 1).
pub data ℤ : Type 0 where
  pos : ℕ → ℤ
  negsuc : ℕ → ℤ

abbrev pub is_pos : ℤ → ℕ → Bool
is_pos (pos a) n = a == n
is_pos (negsuc a) n = false

abbrev pub pos_part : ℤ → ℕ
pos_part (pos n) = n
pos_part (negsuc n) = 0

abbrev pub neg_part : ℤ → ℕ
neg_part (pos n) = 0
neg_part (negsuc n) = suc n

-- a - b, as an integer.
abbrev pub sub_ℕ : ℕ → ℕ → ℤ
sub_ℕ a b = if leb b a then pos (a - b) else negsuc (b - a - 1)

infixl 65 ◌+ℤ◌ ◌-ℤ◌
infix 50 ◌≤ℤ◌
unfoldable pub ◌+ℤ◌ : ℤ → ℤ → ℤ
a +ℤ b = sub_ℕ (pos_part a + pos_part b) (neg_part a + neg_part b)

unfoldable pub ◌-ℤ◌ : ℤ → ℤ → ℤ
a -ℤ b = sub_ℕ (pos_part a + neg_part b) (neg_part a + pos_part b)

abbrev pub ◌≤ℤ◌ : ℤ → ℤ → Type 0
a ≤ℤ b = pos_part a + neg_part b ≤ pos_part b + neg_part a

abbrev pub ltb_ℤ : ℤ → ℤ → Bool
ltb_ℤ a b = ltb (pos_part a + neg_part b) (pos_part b + neg_part a)

-- `-2 * a`
unfoldable pub minus_twice : ℤ → ℤ
minus_twice a = sub_ℕ (2 * neg_part a) (2 * pos_part a)

-- `abs(a // n)`: Python rounds towards minus infinity.
unfoldable pub abs_div : ℤ → ℕ → ℕ
abs_div (pos a) n = a / n
abs_div (negsuc a) n = suc (a / n)

-- `a // 2`
unfoldable pub halve : ℤ → ℤ
halve (pos a) = pos (a / 2)
halve (negsuc a) = negsuc (a / 2)
