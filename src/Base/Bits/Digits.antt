-- ===== src/Base/Bits/Digits.antt =====
-- Digits of remainders and of powers of two, and those of the values that are written to a register.
use Prim.Native.Nat.{ℕ, zero, suc, ◌+◌, ◌-◌, ◌*◌, ◌/◌, ◌%◌, ◌^◌, ◌<◌, bit_and, bit_or}
use mathlib.Core.Path.{◌≡◌, refl, ap, ◌∙◌}
use native.Mathlib.Nat.{pow-suc}
use native.Mathlib.Omega.{arith}
use xiaomi_pad4_ubuntu_touch.Base.Tests.{◌==◌, if◌then◌else◌}
use xiaomi_pad4_ubuntu_touch.Base.Bits.{
  digit, digit-suc, digit-bit_and, digit-bit_or, digit-complement,
}
use xiaomi_pad4_ubuntu_touch.Base.Bits.Fields.{mod_double}

two_pow-suc : (k : ℕ) → 2 ^ suc k ≡ 2 * 2 ^ k
two_pow-suc k = omega (arith, pow-suc 2 k)

two_pow-pos : (k : ℕ) → 0 < 2 ^ k
two_pow-pos zero = omega arith
two_pow-pos (suc k) = omega (arith, two_pow-pos k, pow-suc 2 k)

-- A remainder by `2 ^ k` keeps the first `k` digits.
pub digit-mod : (k i x : ℕ) → i < k → digit (x % 2 ^ k) i ≡ digit x i
digit-mod zero i x below = absurd (omega arith)
digit-mod (suc k) zero x below = omega (arith, split)
  where
    split : x % 2 ^ suc k ≡ x / 2 % 2 ^ k * 2 + x % 2
    split = ap (λ t. x % t) (two_pow-suc k) ∙ mod_double x (2 ^ k) (two_pow-pos k)
digit-mod (suc k) (suc i) x below =
    rw (digit-suc (x % 2 ^ suc k) i, digit-suc x i, half) (digit-mod k i (x / 2) (omega arith))
  where
    half : x % 2 ^ suc k / 2 ≡ x / 2 % 2 ^ k
    half = omega (arith, ap (λ t. x % t) (two_pow-suc k), mod_double x (2 ^ k) (two_pow-pos k))

digit-zero : (i : ℕ) → digit 0 i ≡ 0
digit-zero zero = refl
digit-zero (suc i) = rw (digit-suc 0 i) (digit-zero i)

-- A power of two has one digit.
pub digit-pow : (j i : ℕ) → digit (2 ^ j) i ≡ (if i == j then 1 else 0)
digit-pow zero zero = refl
digit-pow zero (suc i) = rw (digit-suc 1 i, digit-zero i) (ground arith)
digit-pow (suc j) zero = ground (arith, pow-suc 2 j)
digit-pow (suc j) (suc i) = rw (digit-suc (2 ^ suc j) i, half) (digit-pow j i ∙ same)
  where
    half : 2 ^ suc j / 2 ≡ 2 ^ j
    half = omega (arith, pow-suc 2 j)

    same : ◌≡◌ {A = ℕ} (if i == j then 1 else 0) (if suc i == suc j then 1 else 0)
    same = ground arith

-- What a write of `v | 2 ^ j` shows: digit `j` is set, and the others are those of `v`.
pub digit-set_bit :
    (j i v : ℕ) → i < 32 → digit (bit_or v (2 ^ j) % 2 ^ 32) i ≡ (if i == j then 1 else digit v i)
digit-set_bit j i v small = ground (
  arith,
  digit-mod 32 i (bit_or v (2 ^ j)) small,
  digit-bit_or v (2 ^ j) i,
  digit-pow j i,
  digit_bound v i,
)
  where
    digit_bound : (v i : ℕ) → digit v i < 2
    digit_bound v i = omega arith

-- The digits of `v & ~mask` within 32 bits.
digit-bit_and_not :
    (v mask i : ℕ)
    → i < 32
    → mask < 2 ^ 32
    → digit (bit_and v (2 ^ 32 - 1 - mask)) i ≡ (if digit mask i == 1 then 0 else digit v i)
digit-bit_and_not v mask i small below = ground (
  arith,
  digit-bit_and v (2 ^ 32 - 1 - mask) i,
  digit-complement 32 i mask small below,
  digit_bound v i,
  digit_bound mask i,
)
  where
    digit_bound : (v i : ℕ) → digit v i < 2
    digit_bound v i = omega arith

-- A write of `v & ~2 ^ j` clears digit `j`.
pub digit-clear_bit :
    (j i v : ℕ)
    → i < 32
    → 2 ^ j < 2 ^ 32
    → digit (bit_and v (2 ^ 32 - 1 - 2 ^ j) % 2 ^ 32) i ≡ (if i == j then 0 else digit v i)
digit-clear_bit j i v small below = ground (
  arith,
  digit-mod 32 i (bit_and v (2 ^ 32 - 1 - 2 ^ j)) small,
  digit-bit_and_not v (2 ^ j) i small below,
  digit-pow j i,
)

-- A masked write takes the digits under the mask from `val`, and keeps the others.
pub digit-masked :
    (v val mask i : ℕ)
    → i < 32
    → mask < 2 ^ 32
    → digit (bit_or (bit_and v (2 ^ 32 - 1 - mask)) (bit_and val mask) % 2 ^ 32) i
      ≡ (if digit mask i == 1 then digit val i else digit v i)
digit-masked v val mask i small below = ground (
  arith,
  digit-mod 32 i (bit_or (bit_and v (2 ^ 32 - 1 - mask)) (bit_and val mask)) small,
  digit-bit_or (bit_and v (2 ^ 32 - 1 - mask)) (bit_and val mask) i,
  digit-bit_and_not v mask i small below,
  digit-bit_and val mask i,
  digit_bound v i,
  digit_bound val i,
  digit_bound mask i,
)
  where
    digit_bound : (v i : ℕ) → digit v i < 2
    digit_bound v i = omega arith
