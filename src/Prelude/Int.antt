-- ===== src/Prelude/Int.antt =====
-- Signed integers over the native numbers, and Go's int64 arithmetic on them.
use Prim.Native.Nat.{ℕ, suc, ◌+◌, ◌-◌, ◌*◌, ◌%◌, ◌≤◌, ◌<◌}
use mathlib.Core.Bool.{Bool}
use nexus_framework.Prelude.Tests.{ltb, leb, ◌=?◌, if◌then◌else◌}

-- `negsuc n` is -(n + 1).
pub data ℤ : Type 0 where
  pos : ℕ → ℤ
  negsuc : ℕ → ℤ

abbrev pub pos_part : ℤ → ℕ
pos_part (pos n) = n
pos_part (negsuc n) = 0

abbrev pub neg_part : ℤ → ℕ
neg_part (pos n) = 0
neg_part (negsuc n) = suc n

-- a - b, as an integer.
abbrev pub sub_ℕ : ℕ → ℕ → ℤ
sub_ℕ a b = if leb b a then pos (a - b) else negsuc (b - a - 1)

infix 50 ◌≤ℤ◌ ◌<ℤ◌
abbrev pub ◌≤ℤ◌ : ℤ → ℤ → Type 0
a ≤ℤ b = pos_part a + neg_part b ≤ pos_part b + neg_part a

abbrev pub ◌<ℤ◌ : ℤ → ℤ → Type 0
a <ℤ b = pos_part a + neg_part b < pos_part b + neg_part a

abbrev pub ltb_ℤ : ℤ → ℤ → Bool
ltb_ℤ a b = ltb (pos_part a + neg_part b) (pos_part b + neg_part a)

abbrev pub leb_ℤ : ℤ → ℤ → Bool
leb_ℤ a b = leb (pos_part a + neg_part b) (pos_part b + neg_part a)

-- Equality of integers, as a test.
infix 50 ◌=ℤ◌
abbrev pub ◌=ℤ◌ : ℤ → ℤ → Bool
a =ℤ b = pos_part a + neg_part b =? pos_part b + neg_part a

-- The exact difference, and the exact multiple by a number.
infixl 65 ◌+ℤ◌ ◌-ℤ◌
unfoldable pub ◌+ℤ◌ : ℤ → ℤ → ℤ
a +ℤ b = sub_ℕ (pos_part a + pos_part b) (neg_part a + neg_part b)

unfoldable pub ◌-ℤ◌ : ℤ → ℤ → ℤ
a -ℤ b = sub_ℕ (pos_part a + neg_part b) (neg_part a + pos_part b)

abbrev pub scale : ℕ → ℤ → ℤ
scale k a = sub_ℕ (k * pos_part a) (k * neg_part a)

-- The signed value of a 64-bit pattern.
abbrev signed64 : ℕ → ℤ
signed64 r = if ltb r 9223372036854775808 then pos r else negsuc (18446744073709551615 - r)

-- The int64 that an exact result wraps round to.
unfoldable pub wrap64 : ℤ → ℤ
wrap64 (pos n) = signed64 (n % 18446744073709551616)
wrap64 (negsuc n) = signed64 (18446744073709551615 - n % 18446744073709551616)

unfoldable pub add64 : ℤ → ℤ → ℤ
unfolding wrap64
add64 a b = wrap64 (sub_ℕ (pos_part a + pos_part b) (neg_part a + neg_part b))

unfoldable pub sub64 : ℤ → ℤ → ℤ
unfolding wrap64
sub64 a b = wrap64 (sub_ℕ (pos_part a + neg_part b) (neg_part a + pos_part b))

-- a * 2
unfoldable pub double64 : ℤ → ℤ
unfolding wrap64
double64 a = wrap64 (sub_ℕ (2 * pos_part a) (2 * neg_part a))

-- A difference of two times: it stops at the ends of the int64 range.
unfoldable pub saturate64 : ℤ → ℤ
saturate64 (pos n) = if ltb n 9223372036854775808 then pos n else pos 9223372036854775807
saturate64 (negsuc n) = if ltb n 9223372036854775808 then negsuc n else negsuc 9223372036854775807
