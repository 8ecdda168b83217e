-- ===== src/Base/Bits/Fields.antt =====
-- Masks of adjacent ones, as arithmetic: what GENMASK, BM and BVAL select.
use Prim.Native.Nat.{ℕ, zero, suc, ◌+◌, ◌*◌, ◌/◌, ◌%◌, ◌^◌, ◌<◌, bit_and}
use mathlib.Core.Path.{◌≡◌, refl, ap}
use native.Mathlib.Nat.{
  pow-suc, div-div-eq-div-mul, add-mul-mod_self_right, mod-eq_of_lt, mod-lt, mod-add-div,
}
use native.Mathlib.Omega.{arith}
use xiaomi_pad4_ubuntu_touch.Base.Bits.{bit_and-zero, bit_and-ones_suc, bit_and-shift_one}

-- `k` ones
abbrev pub ones : ℕ → ℕ
ones zero = 0
ones (suc k) = 2 * ones k + 1

pub ones_lem : (k : ℕ) → ones k + 1 ≡ 2 ^ k
ones_lem zero = refl
ones_lem (suc k) = omega (arith, ones_lem k, pow-suc 2 k)

-- The remainder by a doubled modulus, by the lowest digit.
pub mod_double : (a m : ℕ) → 0 < m → a % (2 * m) ≡ a / 2 % m * 2 + a % 2
mod_double a m h = omega (
  arith,
  ap (λ t. t % (2 * m)) split,
  add-mul-mod_self_right (a / 2 % m * 2 + a % 2) (a / 2 / m) (2 * m),
  mod-eq_of_lt {n = a / 2 % m * 2 + a % 2} {m = 2 * m} (omega (arith, mod-lt (a / 2) h)),
)
  where
    split : a ≡ a / 2 % m * 2 + a % 2 + a / 2 / m * (2 * m)
    split = omega (arith, mod-add-div (a / 2) m)

pub bit_and-ones : (k a : ℕ) → bit_and a (ones k) ≡ a % 2 ^ k
bit_and-ones zero a = omega (arith, bit_and-zero a)
bit_and-ones (suc k) a = omega (
  arith,
  bit_and-ones_suc (ones k) a,
  bit_and-ones k (a / 2),
  ap (λ t. a % t) (two_pow_suc k),
  mod_double a (2 ^ k) (omega (arith, ones_lem k)),
)
  where
    two_pow_suc : (k : ℕ) → 2 ^ suc k ≡ 2 * 2 ^ k
    two_pow_suc k = omega (arith, pow-suc 2 k)

-- A mask that is shifted left reads the bits from there on.
pub bit_and_shifted : (l a m : ℕ) → bit_and a (m * 2 ^ l) ≡ bit_and (a / 2 ^ l) m * 2 ^ l
bit_and_shifted zero a m = omega (arith, ap (bit_and a) (same m), ap (λ t. bit_and t m) (one a))
  where
    same : (x : ℕ) → x * 1 ≡ x
    same x = omega arith

    one : (x : ℕ) → x / 1 ≡ x
    one x = omega arith
bit_and_shifted (suc l) a m = omega (
  arith,
  ap (bit_and a) doubled,
  bit_and-shift_one a (m * 2 ^ l),
  bit_and_shifted l (a / 2) m,
  ap (λ t. bit_and t m * 2 ^ suc l) halved,
  ap (λ (t : ℕ). bit_and (a / 2 / 2 ^ l) m * t) (pow-suc 2 l),
)
  where
    doubled : m * 2 ^ suc l ≡ 2 * (m * 2 ^ l)
    doubled = omega (arith, ap (λ (t : ℕ). m * t) (pow-suc 2 l))

    two_pow_suc : (k : ℕ) → 2 ^ suc k ≡ 2 * 2 ^ k
    two_pow_suc k = omega (arith, pow-suc 2 k)

    halved : a / 2 ^ suc l ≡ a / 2 / 2 ^ l
    halved = omega (arith, div-div-eq-div-mul a 2 (2 ^ l), ap (λ t. a / t) (two_pow_suc l))

-- A field of `k` bits from bit `l` on.
pub bit_and_field : (k l a : ℕ) → bit_and a (ones k * 2 ^ l) ≡ a / 2 ^ l % 2 ^ k * 2 ^ l
bit_and_field k l a =
    omega (arith, bit_and_shifted l a (ones k), ap (λ t. t * 2 ^ l) (bit_and-ones k (a / 2 ^ l)))
