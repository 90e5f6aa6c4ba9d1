-- ===== src/Base/Int.antt =====
-- Signed machine integers, as numbers with a sign.
use Prim.Native.Nat.{ℕ, suc, ◌+◌, ◌-◌, ◌^◌}
use mathlib.Core.Bool.{Bool}
use hyprscheme.Base.Tests.{leb, ltb}

-- `negsuc n` is -(n + 1).
pub data ℤ : Type 0 where
  pos : ℕ → ℤ
  negsuc : ℕ → ℤ

abbrev pub pos_part : ℤ → ℕ
pos_part (pos n) = n
pos_part (negsuc n) = 0

abbrev pub neg_part : ℤ → ℕ
neg_part (pos n) = 0
neg_part (negsuc n) = suc n

abbrev pub ltb_ℤ : ℤ → ℤ → Bool
ltb_ℤ a b = ltb (pos_part a + neg_part b) (pos_part b + neg_part a)

abbrev pub is_negative : ℤ → Bool
is_negative a = ltb_ℤ a (pos 0)

-- The range of a 64-bit integer.
abbrev pub fits_int64 : ℤ → Bool
fits_int64 (pos n) = leb n (2 ^ 63 - 1)
fits_int64 (negsuc n) = leb n (2 ^ 63 - 1)
