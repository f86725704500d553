-- ===== src/Prelude/Int.antt =====
-- C integers. An `int` or `long` is a value of ℤ; the conversions between the widths wrap as
-- two's complement does. A `uint32_t` (Verilator's `IData`) is a native number below 2 ^ 32.
use Prim.Native.Nat.{ℕ, suc, ◌+◌, ◌-◌, ◌%◌, ◌<◌}
use mathlib.Core.Path.{◌≡◌}
use mathlib.Core.Bool.{Bool}
use native.Mathlib.Omega.{arith}
use risc_v_rv32i_multi_cycle.Prelude.Tests.{ltb, leb, ◌==◌, if◌then◌else◌}

-- `negsuc n` is -(n + 1).
pub data ℤ : Type 0 where
  pos : ℕ → ℤ
  negsuc : ℕ → ℤ

abbrev pub pos_part : ℤ → ℕ
pos_part (pos n) = n
pos_part (negsuc n) = 0

abbrev pub neg_part : ℤ → ℕ
neg_part (pos n) = 0
neg_part (negsuc n) = suc n

abbrev sub_ℕ : ℕ → ℕ → ℤ
sub_ℕ a b = if leb b a then pos (a - b) else negsuc (b - a - 1)

infixl 65 ◌+ℤ◌ ◌-ℤ◌
abbrev pub ◌+ℤ◌ : ℤ → ℤ → ℤ
a +ℤ b = sub_ℕ (pos_part a + pos_part b) (neg_part a + neg_part b)

abbrev pub ◌-ℤ◌ : ℤ → ℤ → ℤ
a -ℤ b = sub_ℕ (pos_part a + neg_part b) (neg_part a + pos_part b)

abbrev pub ltb_ℤ : ℤ → ℤ → Bool
ltb_ℤ a b = ltb (pos_part a + neg_part b) (pos_part b + neg_part a)

abbrev eq_ℤ : ℤ → ℤ → Bool
eq_ℤ a b = pos_part a + neg_part b == pos_part b + neg_part a

abbrev pub w32 : ℕ
w32 = 4294967296

abbrev pub w64 : ℕ
w64 = 18446744073709551616

-- The conversions to `uint32_t` and to `uint64_t`.
abbrev pub to_u32 : ℤ → ℕ
to_u32 (pos n) = n % w32
to_u32 (negsuc n) = w32 - 1 - n % w32

abbrev pub to_u64 : ℤ → ℕ
to_u64 (pos n) = n % w64
to_u64 (negsuc n) = w64 - 1 - n % w64

-- The value of an `int` with the given bit pattern.
abbrev pub signed32 : ℕ → ℤ
signed32 w = if ltb w 2147483648 then pos w else negsuc (w32 - w - 1)

-- A wider integer stored in an `int`.
abbrev pub to_int : ℤ → ℤ
to_int z = signed32 (to_u32 z)

-- `z` is a value of the C type `int`.
abbrev pub IsInt : ℤ → Type 0
IsInt (pos n) = n < 2147483648
IsInt (negsuc n) = n < 2147483648

to_int_id : (z : ℤ) → IsInt z → to_int z ≡ z
to_int_id (pos n) h = ground arith
to_int_id (negsuc n) h = ground arith

pub to_u32-signed32 : (w : ℕ) → w < w32 → to_u32 (signed32 w) ≡ w
to_u32-signed32 w h = ground arith

signed32-IsInt : (w : ℕ) → w < w32 → IsInt (signed32 w)
signed32-IsInt w h = ground arith
