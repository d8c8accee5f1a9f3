-- ===== src/Prelude/Int.antt =====
-- Signed values: what the C code holds in `int`, `long`, `int64_t` and the like, and C's
-- conversions and operations on them.
use Prim.Native.Nat.{ℕ, suc, ◌+◌, ◌-◌, ◌/◌, ◌%◌, ◌^◌}
use templeos_loader.Prelude.Tests.{ltb, leb, if◌then◌else◌}

-- `negsuc n` is -(n + 1).
pub data ℤ : Type 0 where
  pos : ℕ → ℤ
  negsuc : ℕ → ℤ

abbrev pub minus_one : ℤ
minus_one = negsuc 0

abbrev pub sub_ℕ : ℕ → ℕ → ℤ
sub_ℕ a b = if leb b a then pos (a - b) else negsuc (b - a - 1)

infixl 65 ◌+ℤ◌
abbrev pub ◌+ℤ◌ : ℤ → ℤ → ℤ
pos a +ℤ pos b = pos (a + b)
pos a +ℤ negsuc b = sub_ℕ a (suc b)
negsuc a +ℤ pos b = sub_ℕ b (suc a)
negsuc a +ℤ negsuc b = negsuc (suc (a + b))

-- C's `/` and `%` by a positive number round towards zero.
abbrev pub quot : ℤ → ℕ → ℤ
quot (pos a) d = pos (a / d)
quot (negsuc a) d = sub_ℕ 0 (suc a / d)

abbrev pub rem : ℤ → ℕ → ℤ
rem (pos a) d = pos (a % d)
rem (negsuc a) d = sub_ℕ 0 (suc a % d)

-- The conversion to an unsigned type of `w` bits.
abbrev pub unsigned : ℕ → ℤ → ℕ
unsigned w (pos a) = a % 2 ^ w
unsigned w (negsuc a) = (2 ^ w - suc (a % 2 ^ w)) % 2 ^ w

-- The signed value of a pattern of 32 and of 64 bits.
abbrev pub signed32 : ℕ → ℤ
signed32 w = if ltb w (2 ^ 31) then pos w else negsuc (2 ^ 32 - w - 1)

abbrev pub signed64 : ℕ → ℤ
signed64 w = if ltb w (2 ^ 63) then pos w else negsuc (2 ^ 64 - w - 1)

-- The conversion of a wider value to `int`.
abbrev pub to_int : ℤ → ℤ
to_int z = signed32 (unsigned 32 z)
