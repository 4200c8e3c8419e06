-- ===== src/Prelude/Int.antt =====
-- Go's int64: signed integers over the native numbers, and the wrap-around of their sums.
-- Sums and orders go through the two parts of an integer, which are numbers that `omega` reads.
use Prim.Native.Nat.{ℕ, suc, ◌+◌, ◌-◌, ◌%◌, ◌^◌, ◌≤◌, ◌<◌}
use mathlib.Core.Path.{◌≡◌, refl}
use mathlib.Core.Bool.{Bool}
use native.Mathlib.Omega.{arith}
use ai_local.Prelude.Tests.{ltb, leb, ◌==◌, if◌then◌else◌}

-- `negsuc n` is -(n + 1).
pub data ℤ : Type 0 where
  pos : ℕ → ℤ
  negsuc : ℕ → ℤ

abbrev pub pos_part : ℤ → ℕ
pos_part (pos n) = n
pos_part (negsuc n) = 0

abbrev pub neg_part : ℤ → ℕ
neg_part (pos n) = 0
neg_part (negsuc n) = suc n

-- a - b, as an integer.
abbrev pub sub_ℕ : ℕ → ℕ → ℤ
sub_ℕ a b = if leb b a then pos (a - b) else negsuc (b - a - 1)

infixl 65 ◌+ℤ◌
infix 50 ◌≤ℤ◌ ◌<ℤ◌
unfoldable pub ◌+ℤ◌ : ℤ → ℤ → ℤ
a +ℤ b = sub_ℕ (pos_part a + pos_part b) (neg_part a + neg_part b)

abbrev pub ◌≤ℤ◌ : ℤ → ℤ → Type 0
a ≤ℤ b = pos_part a + neg_part b ≤ pos_part b + neg_part a

abbrev pub ◌<ℤ◌ : ℤ → ℤ → Type 0
a <ℤ b = pos_part a + neg_part b < pos_part b + neg_part a

abbrev pub ltb_ℤ : ℤ → ℤ → Bool
ltb_ℤ a b = ltb (pos_part a + neg_part b) (pos_part b + neg_part a)

abbrev pub eqb_ℤ : ℤ → ℤ → Bool
eqb_ℤ a b = (pos_part a + neg_part b) == (pos_part b + neg_part a)

pub +ℤ_comm : (a b : ℤ) → a +ℤ b ≡ b +ℤ a
unfolding ◌+ℤ◌
+ℤ_comm a b = ground arith

pub +ℤ_assoc : (a b c : ℤ) → a +ℤ b +ℤ c ≡ a +ℤ (b +ℤ c)
unfolding ◌+ℤ◌
+ℤ_assoc a b c = ground arith

pub +ℤ_zero : (a : ℤ) → a +ℤ pos 0 ≡ a
unfolding ◌+ℤ◌
+ℤ_zero a = ground arith

pub +ℤ_zero_left : (a : ℤ) → pos 0 +ℤ a ≡ a
unfolding ◌+ℤ◌
+ℤ_zero_left a = ground arith

-- One lemma for each operation lets `omega` work with the operations shut, at any depth.
pub +ℤ_parts :
    (a b : ℤ)
    → pos_part (a +ℤ b) + neg_part a + neg_part b ≡ neg_part (a +ℤ b) + pos_part a + pos_part b
unfolding ◌+ℤ◌
+ℤ_parts a b = ground arith

pub eq_of_parts : (a b : ℤ) → pos_part a + neg_part b ≡ pos_part b + neg_part a → a ≡ b
eq_of_parts a b h = ground arith

-- The int64 range is -2^63 to 2^63 - 1.
abbrev pub IsInt64 : ℤ → Type 0
IsInt64 a = (pos_part a < 2 ^ 63) × (neg_part a ≤ 2 ^ 63)

of_residue : ℕ → ℤ
of_residue r = if ltb r (2 ^ 63) then pos r else negsuc (2 ^ 64 - r - 1)

-- The int64 with the same bits, for the exact result of an operation.
unfoldable pub wrap64 : ℤ → ℤ
unfolding of_residue
wrap64 (pos n) = of_residue (n % 2 ^ 64)
wrap64 (negsuc n) = of_residue (2 ^ 64 - 1 - n % 2 ^ 64)

pub wrap64-eq : (a : ℤ) → IsInt64 a → wrap64 a ≡ a
unfolding wrap64
wrap64-eq (pos n) h = ground arith
wrap64-eq (negsuc n) h = ground arith

pub wrap64-IsInt64 : (a : ℤ) → IsInt64 (wrap64 a)
unfolding wrap64
wrap64-IsInt64 (pos n) = ground arith
wrap64-IsInt64 (negsuc n) = ground arith

-- Go's `a + b` on int64.
infixl 65 ◌+64◌
unfoldable pub ◌+64◌ : ℤ → ℤ → ℤ
unfolding wrap64 ◌+ℤ◌
a +64 b = wrap64 (a +ℤ b)

pub +64_exact : (a b : ℤ) → IsInt64 (a +ℤ b) → a +64 b ≡ a +ℤ b
+64_exact a b h = unfold ◌+64◌ in wrap64-eq (a +ℤ b) h

wraps_at_the_top : pos (2 ^ 63 - 1) +64 pos 1 ≡ negsuc (2 ^ 63 - 1)
unfolding ◌+64◌
wraps_at_the_top = refl
