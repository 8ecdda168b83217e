-- ===== src/Base/Word.antt =====
-- The machine words of C: casts by `%`, shifts, and the field macros of
-- device-fixes/nura/cpufreq/clk-cpu-osm-660.c (BM, BVAL, the core count and L_VAL fields).
use Prim.Native.Nat.{ℕ, ◌+◌, ◌-◌, ◌*◌, ◌/◌, ◌%◌, ◌^◌, bit_and}
use mathlib.Core.Bool.{Bool}
use xiaomi_pad4_ubuntu_touch.Base.Tests.{leb, if◌then◌else◌}

abbrev pub u16 : ℕ → ℕ
u16 n = n % 2 ^ 16

abbrev pub u32 : ℕ → ℕ
u32 n = n % 2 ^ 32

abbrev pub u64 : ℕ → ℕ
u64 n = n % 2 ^ 64

infixl 75 ◌<<<◌ ◌>>>◌
abbrev pub ◌<<<◌ : ℕ → ℕ → ℕ
x <<< k = x * 2 ^ k

abbrev pub ◌>>>◌ : ℕ → ℕ → ℕ
x >>> k = x / 2 ^ k

-- `~x` of a u32.
abbrev pub not32 : ℕ → ℕ
not32 x = 2 ^ 32 - 1 - u32 x

-- `a - b` of u32 values, with its wrap.
abbrev pub sub32 : ℕ → ℕ → ℕ
sub32 a b = (a + 2 ^ 32 - b) % 2 ^ 32

-- An `int` is kept as its 32-bit pattern; this is the test `x < 0`.
abbrev pub is_negative : ℕ → Bool
is_negative x = leb (2 ^ 31) x

-- The cast of an `int` pattern to u64, with its sign extension.
abbrev pub sign_extend : ℕ → ℕ
sign_extend x = if is_negative x then x + (2 ^ 64 - 2 ^ 32) else x

-- `x / d` of an `int` pattern, which rounds towards zero.
abbrev pub int_div : ℕ → ℕ → ℕ
int_div x d = if is_negative x then sub32 0 ((2 ^ 32 - x) / d) else x / d

-- BM(msb, lsb): the ones from bit `lsb` to bit `msb` of a u32.
abbrev pub bm : ℕ → ℕ → ℕ
bm msb lsb = u32 (u32 ((2 ^ 32 - 1) <<< (31 - msb)) >>> (31 - msb + lsb) <<< lsb)

-- BVAL(msb, lsb, val)
abbrev pub bval : ℕ → ℕ → ℕ → ℕ
bval msb lsb val = bit_and (u32 (val <<< lsb)) (bm msb lsb)

-- CORE_COUNT_VAL(val): GENMASK(18, 16) is 0x70000.
abbrev pub core_count_val : ℕ → ℕ
core_count_val val = bit_and val 0x70000 >>> 16

-- L_VAL(freq_data): GENMASK(7, 0) is 0xff.
abbrev pub l_val : ℕ → ℕ
l_val freq_data = bit_and freq_data 0xff
