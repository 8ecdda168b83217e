-- ===== src/Base/Bits.antt =====
-- Laws of `&` and `|` at every width. Both are read digit by digit: digit `i` of a number is
-- `digit x i`, and a number is known by its digits.
pub mod Fields
pub mod Digits
use Prim.Native.Nat.{ℕ, zero, suc, ◌+◌, ◌*◌, ◌-◌, ◌/◌, ◌%◌, ◌^◌, ◌≤◌, ◌<◌, min, max}
use Prim.Native.Nat.{bit_and, bit_or, digits, bitwise, bit_and-bitwise, bit_or-bitwise}
use mathlib.Core.Path.{◌≡◌, refl, ap}
use native.Mathlib.Nat.{pow-suc, div-div-eq-div-mul}
use native.Mathlib.Omega.{arith}

-- Two fuels that both cover the first number give the same digits.
module _ (last : ℕ → ℕ) (op : ℕ → ℕ → ℕ) where
  same_digits :
      (x y fuel fuel' : ℕ)
      → x ≤ fuel'
      → x ≤ fuel
      → digits last op fuel x y ≡ digits last op fuel' x y
  same_digits zero y zero zero low high = refl
  same_digits zero y (suc fuel) (suc fuel') low high = refl
  same_digits zero y (suc fuel) zero low high = refl
  same_digits zero y zero (suc fuel') low high = refl
  same_digits (suc x) y fuel zero low high = absurd (omega arith)
  same_digits (suc x) y zero (suc fuel') low high = absurd (omega arith)
  same_digits (suc x) y (suc fuel) (suc fuel') low high =
      let rest = same_digits (suc x / 2) (y / 2) fuel fuel' (omega arith) (omega arith) in
      ap (λ upper. upper * 2 + op (suc x % 2) (y % 2)) rest

  bitwise-suc :
      (x y : ℕ)
      → bitwise last op (suc x) y ≡ bitwise last op (suc x / 2) (y / 2) * 2 + op (suc x % 2) (y % 2)
  bitwise-suc x y =
      let rest = same_digits (suc x / 2) (y / 2) x (suc x / 2) (omega arith) (omega arith) in
      ap (λ upper. upper * 2 + op (suc x % 2) (y % 2)) rest

pub bit_and-halve : (a b : ℕ) → bit_and a b ≡ min (a % 2) (b % 2) + 2 * bit_and (a / 2) (b / 2)
bit_and-halve zero y = omega (arith, bit_and-bitwise 0 (y / 2), bit_and-bitwise 0 y)
bit_and-halve (suc x) y =
    let step = bitwise-suc (λ y. 0) min x y in
    omega (arith, step, bit_and-bitwise (suc x / 2) (y / 2), bit_and-bitwise (suc x) y)

pub bit_or-halve : (a b : ℕ) → bit_or a b ≡ max (a % 2) (b % 2) + 2 * bit_or (a / 2) (b / 2)
bit_or-halve zero y = omega (arith, bit_or-bitwise 0 (y / 2), bit_or-bitwise 0 y)
bit_or-halve (suc x) y =
    let step = bitwise-suc (λ y. y) max x y in
    omega (arith, step, bit_or-bitwise (suc x / 2) (y / 2), bit_or-bitwise (suc x) y)

-- Digit `i` of `x`, counted from the lowest.
abbrev pub digit : ℕ → ℕ → ℕ
digit x i = x / 2 ^ i % 2

pub digit-suc : (x i : ℕ) → digit x (suc i) ≡ digit (x / 2) i
digit-suc x i = omega (arith, div-div-eq-div-mul x 2 (2 ^ i), ap (λ t. x / t) (two_pow-suc i))
  where
    two_pow-suc : (j : ℕ) → 2 ^ suc j ≡ 2 * 2 ^ j
    two_pow-suc j = omega (arith, pow-suc 2 j)

-- The digits of `a & b` are the smaller ones of those of `a` and `b`.
pub digit-bit_and : (a b i : ℕ) → digit (bit_and a b) i ≡ min (digit a i) (digit b i)
digit-bit_and a b zero = omega (arith, bit_and-halve a b)
digit-bit_and a b (suc i) =
    rw (digit-suc (bit_and a b) i, digit-suc a i, digit-suc b i, halves)
      (digit-bit_and (a / 2) (b / 2) i)
  where
    halves : bit_and a b / 2 ≡ bit_and (a / 2) (b / 2)
    halves = omega (arith, bit_and-halve a b)

-- The digits of `a | b` are the larger ones.
pub digit-bit_or : (a b i : ℕ) → digit (bit_or a b) i ≡ max (digit a i) (digit b i)
digit-bit_or a b zero = omega (arith, bit_or-halve a b)
digit-bit_or a b (suc i) =
    rw (digit-suc (bit_or a b) i, digit-suc a i, digit-suc b i, halves)
      (digit-bit_or (a / 2) (b / 2) i)
  where
    halves : bit_or a b / 2 ≡ bit_or (a / 2) (b / 2)
    halves = omega (arith, bit_or-halve a b)

bit_and-zero_below : (n a : ℕ) → a ≤ n → bit_and a 0 ≡ 0
bit_and-zero_below n zero h = refl
bit_and-zero_below zero (suc a) h = absurd (omega arith)
bit_and-zero_below (suc n) (suc a) h =
    omega (arith, bit_and-halve (suc a) 0, bit_and-zero_below n (suc a / 2) (omega arith))

pub bit_and-zero : (a : ℕ) → bit_and a 0 ≡ 0
bit_and-zero a = bit_and-zero_below a a (omega arith)

bit_or-zero_below : (n a : ℕ) → a ≤ n → bit_or a 0 ≡ a
bit_or-zero_below n zero h = refl
bit_or-zero_below zero (suc a) h = absurd (omega arith)
bit_or-zero_below (suc n) (suc a) h =
    omega (arith, bit_or-halve (suc a) 0, bit_or-zero_below n (suc a / 2) (omega arith))

pub bit_or-zero : (a : ℕ) → bit_or a 0 ≡ a
bit_or-zero a = bit_or-zero_below a a (omega arith)

bit_and-self_below : (n a : ℕ) → a ≤ n → bit_and a a ≡ a
bit_and-self_below n zero h = refl
bit_and-self_below zero (suc a) h = absurd (omega arith)
bit_and-self_below (suc n) (suc a) h =
    omega (arith, bit_and-halve (suc a) (suc a), bit_and-self_below n (suc a / 2) (omega arith))

pub bit_and_self : (a : ℕ) → bit_and a a ≡ a
bit_and_self a = bit_and-self_below a a (omega arith)

-- A mask of `k` ones keeps the remainder by `2 ^ k`: one digit at a time.
pub bit_and-ones_suc : (m a : ℕ) → bit_and a (2 * m + 1) ≡ bit_and (a / 2) m * 2 + a % 2
bit_and-ones_suc m a = omega (arith, bit_and-halve a (2 * m + 1), ap (bit_and (a / 2)) (half m))
  where
    half : (m : ℕ) → (2 * m + 1) / 2 ≡ m
    half m = omega arith

pub bit_and-shift_one : (a m : ℕ) → bit_and a (2 * m) ≡ bit_and (a / 2) m * 2
bit_and-shift_one a m = omega (arith, bit_and-halve a (2 * m), ap (bit_and (a / 2)) (half m))
  where
    half : (m : ℕ) → 2 * m / 2 ≡ m
    half m = omega arith

-- The law that drives a loop over set bits: `x & (x - 1)` keeps the half of an odd number, and
-- goes on in the half of an even one.
pub bit_and-pred_odd : (y : ℕ) → bit_and (2 * y + 1) (2 * y) ≡ 2 * y
bit_and-pred_odd y = omega (
  arith,
  bit_and-halve (2 * y + 1) (2 * y),
  ap (λ t. bit_and t (2 * y / 2)) (up y),
  ap (bit_and y) (down y),
  bit_and_self y,
)
  where
    up : (y : ℕ) → (2 * y + 1) / 2 ≡ y
    up y = omega arith

    down : (y : ℕ) → 2 * y / 2 ≡ y
    down y = omega arith

pub bit_and-pred_even : (y : ℕ) → bit_and (2 * suc y) (2 * y + 1) ≡ 2 * bit_and (suc y) y
bit_and-pred_even y = omega (
  arith,
  bit_and-halve (2 * suc y) (2 * y + 1),
  ap (λ t. bit_and t ((2 * y + 1) / 2)) (up y),
  ap (bit_and (suc y)) (down y),
)
  where
    up : (y : ℕ) → 2 * suc y / 2 ≡ suc y
    up y = omega arith

    down : (y : ℕ) → (2 * y + 1) / 2 ≡ y
    down y = omega arith

-- `|` of a shifted number and one that fits below the shift is their sum.
pub bit_or-disjoint : (k q r : ℕ) → r < 2 ^ k → bit_or (q * 2 ^ k) r ≡ q * 2 ^ k + r
bit_or-disjoint zero q r h =
    omega (arith, bit_or-zero q, ap (bit_or (q * 1)) (none_left r h), ap (λ t. bit_or t 0) (one q))
  where
    none_left : (r : ℕ) → r < 1 → r ≡ 0
    none_left r h = omega arith

    one : (q : ℕ) → q * 1 ≡ q
    one q = omega arith
bit_or-disjoint (suc k) q r h = omega (
  arith,
  bit_or-halve (q * 2 ^ suc k) r,
  bit_or-disjoint k q (r / 2) (omega (arith, pow-suc 2 k)),
  doubled,
  ap (λ t. bit_or t (r / 2)) halved,
)
  where
    doubled : q * 2 ^ suc k ≡ 2 * (q * 2 ^ k)
    doubled = omega (arith, ap (λ (t : ℕ). q * t) (pow-suc 2 k))

    halved : q * 2 ^ suc k / 2 ≡ q * 2 ^ k
    halved = omega (arith, ap (λ (t : ℕ). q * t) (pow-suc 2 k))

-- `|` of two numbers of `k` bits has `k` bits.
pub bit_or-lt : (k a b : ℕ) → a < 2 ^ k → b < 2 ^ k → bit_or a b < 2 ^ k
bit_or-lt zero a b low high =
    omega (arith, ap (λ t. bit_or t b) (none_left a low), ap (bit_or 0) (none_left b high))
  where
    none_left : (r : ℕ) → r < 1 → r ≡ 0
    none_left r h = omega arith
bit_or-lt (suc k) a b low high = omega (
  arith,
  bit_or-halve a b,
  bit_or-lt k (a / 2) (b / 2) (omega (arith, pow-suc 2 k)) (omega (arith, pow-suc 2 k)),
  pow-suc 2 k,
)

-- The digits of the complement within `k` bits.
pub digit-complement : (k i m : ℕ) → i < k → m < 2 ^ k → digit (2 ^ k - 1 - m) i ≡ 1 - digit m i
digit-complement zero i m small below = absurd (omega arith)
digit-complement (suc k) zero m small below = omega (arith, pow-suc 2 k)
digit-complement (suc k) (suc i) m small below =
    rw (digit-suc (2 ^ suc k - 1 - m) i, digit-suc m i, half)
      (digit-complement k i (m / 2) (omega arith) (omega (arith, pow-suc 2 k)))
  where
    half : (2 ^ suc k - 1 - m) / 2 ≡ 2 ^ k - 1 - m / 2
    half = omega (arith, pow-suc 2 k)
