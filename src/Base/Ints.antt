-- ===== src/Base/Ints.antt =====
-- Signed 64-bit integers. A value is a ℤ over the native numbers; `i64::MIN` and `i64::MAX` are
-- the bounds of `IsI64`, and `wrap_i64` is the value that arithmetic without overflow checks keeps.
use Prim.Native.Nat.{◌%◌, ◌^◌, ℕ, suc, ◌+◌, ◌-◌, ◌≤◌}
use mathlib.Core.Bool.{Bool}
use infernal_pf2e_parser_sim.Base.Tests.{ltb, leb, if◌then◌else◌}

-- `negsuc n` is -(n + 1).
pub data ℤ : Type 0 where
  pos : ℕ → ℤ
  negsuc : ℕ → ℤ

abbrev pub pos_part : ℤ → ℕ
pos_part (pos n) = n
pos_part (negsuc n) = 0

abbrev pub neg_part : ℤ → ℕ
neg_part (pos n) = 0
neg_part (negsuc n) = suc n

-- a - b, as an integer.
abbrev pub sub_ℕ : ℕ → ℕ → ℤ
sub_ℕ a b = if leb b a then pos (a - b) else negsuc (b - a - 1)

infixl 65 ◌-ℤ◌
infix 50 ◌≤ℤ◌
unfoldable pub ◌-ℤ◌ : ℤ → ℤ → ℤ
a -ℤ b = sub_ℕ (pos_part a + neg_part b) (neg_part a + pos_part b)

abbrev pub ◌≤ℤ◌ : ℤ → ℤ → Type 0
a ≤ℤ b = pos_part a + neg_part b ≤ pos_part b + neg_part a

abbrev pub leb_ℤ : ℤ → ℤ → Bool
leb_ℤ a b = leb (pos_part a + neg_part b) (pos_part b + neg_part a)

abbrev pub ltb_ℤ : ℤ → ℤ → Bool
ltb_ℤ a b = ltb (pos_part a + neg_part b) (pos_part b + neg_part a)

abbrev pub max_i64 : ℕ
max_i64 = 2 ^ 63 - 1

abbrev pub IsI64 : ℤ → Type 0
IsI64 a = (pos_part a ≤ max_i64) × (neg_part a ≤ max_i64 + 1)

infixl 65 ◌+ℤ◌
abbrev pub ◌+ℤ◌ : ℤ → ℤ → ℤ
a +ℤ b = sub_ℕ (pos_part a + pos_part b) (neg_part a + neg_part b)

-- the residue modulo 2 ^ 64 that lies in the range of `i64`
abbrev pub wrap_i64 : ℤ → ℤ
wrap_i64 (pos n) = let r = n % 2 ^ 64 in if leb r max_i64 then pos r else negsuc (2 ^ 64 - 1 - r)
wrap_i64 (negsuc n) = let r = n % 2 ^ 64 in if leb r max_i64 then negsuc r else pos (2 ^ 64 - 1 - r)
