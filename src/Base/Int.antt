-- ===== src/Base/Int.antt =====
-- Signed integers over the native numbers, for `int` results and `time_t` differences.
use ketamarouter.Base.{ℕ, suc, ◌+◌, ◌-◌, ◌%◌, Bool, ltb, leb, if◌then◌else◌, u32}

-- `negsuc n` is -(n + 1).
pub data ℤ : Type 0 where
  pos : ℕ → ℤ
  negsuc : ℕ → ℤ

abbrev pub pos_part : ℤ → ℕ
pos_part (pos n) = n
pos_part (negsuc n) = 0

abbrev pub neg_part : ℤ → ℕ
neg_part (pos n) = 0
neg_part (negsuc n) = suc n

-- a - b, as an integer.
abbrev pub sub_ℕ : ℕ → ℕ → ℤ
sub_ℕ a b = if leb b a then pos (a - b) else negsuc (b - a - 1)

abbrev pub leb_ℤ : ℤ → ℤ → Bool
leb_ℤ a b = leb (pos_part a + neg_part b) (pos_part b + neg_part a)

-- The conversion of an unsigned value to `int`, as two's complement makes it.
abbrev pub to_int : ℕ → ℤ
to_int n = let w = n % u32 in if ltb w 0x8000_0000 then pos w else negsuc (u32 - w - 1)
