-- ===== src/Base/Int.antt =====
-- The signed integers that stand for `i64`: `negsuc n` is -(n + 1).
use Prim.Native.Nat.{ℕ, suc, ◌+◌, ◌-◌, ◌≤◌, min}
use mathlib.Core.Bool.{Bool}
use psyche.Base.Tests.{ltb, leb, if◌then◌else◌}

pub data ℤ : Type 0 where
  pos : ℕ → ℤ
  negsuc : ℕ → ℤ

abbrev pub pos_part : ℤ → ℕ
pos_part (pos n) = n
pos_part (negsuc n) = 0

abbrev pub neg_part : ℤ → ℕ
neg_part (pos n) = 0
neg_part (negsuc n) = suc n

abbrev pub i64_max : ℕ
i64_max = 9223372036854775807

infix 50 ◌≤ℤ◌
abbrev pub ◌≤ℤ◌ : ℤ → ℤ → Type 0
a ≤ℤ b = pos_part a + neg_part b ≤ pos_part b + neg_part a

abbrev pub ltb_ℤ : ℤ → ℤ → Bool
ltb_ℤ a b = ltb (pos_part a + neg_part b) (pos_part b + neg_part a)

-- `a.saturating_add(k)` for a `k` that is not negative
abbrev pub saturating_add : ℤ → ℕ → ℤ
saturating_add (pos n) k = pos (min (n + k) i64_max)
saturating_add (negsuc n) k = if leb (suc n) k then pos (k - suc n) else negsuc (n - k)
