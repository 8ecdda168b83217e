-- ===== src/Acd/Bits.antt =====
-- The count of the registers of a transfer, and its loop `bitmask &= bitmask - 1`.
use mathlib.Core.Path.{subst}
use xiaomi_pad4_ubuntu_touch.Base.{
  ℕ, zero, suc, ◌+◌, ◌-◌, ◌*◌, ◌/◌, ◌%◌, ◌^◌, ◌≤◌, ◌<◌, ◌≡◌, refl, ap, sym, ◌∙◌, ◌⊎◌, inl, inr,
  some, bit_and, arith, ==_of_ne,
}
use xiaomi_pad4_ubuntu_touch.Base.Bits.{bit_and-pred_odd, bit_and-pred_even}
use xiaomi_pad4_ubuntu_touch.Acd.{count_set_bits}

-- The number of ones among the first `n` binary digits of `x`.
abbrev pub ones_of : ℕ → ℕ → ℕ
ones_of zero x = 0
ones_of (suc n) x = x % 2 + ones_of n (x / 2)

ones_of-le : (n x : ℕ) → ones_of n x ≤ n
ones_of-le zero x = omega arith
ones_of-le (suc n) x = omega (arith, ones_of-le n (x / 2))

ones_of-zero : (n : ℕ) → ones_of n 0 ≡ 0
ones_of-zero zero = refl
ones_of-zero (suc n) = omega (arith, ones_of-zero n)

-- A number above 0 is odd, or twice a number above 0.
parity : (x : ℕ) → 0 < x → (x ≡ 2 * (x / 2) + 1) ⊎ ((0 < x / 2) × (x ≡ 2 * suc (x / 2 - 1)))
parity x pos = elim (remainder x) [
  | inl zero_left ↦ inr (omega arith, omega arith)
  | inr one_left ↦ inl (omega arith)
]
  where
    remainder : (x : ℕ) → (x % 2 ≡ 0) ⊎ (x % 2 ≡ 1)
    remainder x = ground arith

-- What `bitmask &= bitmask - 1` makes of a number.
abbrev cleared : ℕ → ℕ
cleared x = bit_and x (x - 1)

cleared_odd : (y : ℕ) → cleared (2 * y + 1) ≡ 2 * y
cleared_odd y = let down : 2 * y + 1 - 1 ≡ 2 * y = omega arith in rw down (bit_and-pred_odd y)

cleared_even : (y : ℕ) → cleared (2 * suc y) ≡ 2 * cleared (suc y)
cleared_even y =
    let down : 2 * suc y - 1 ≡ 2 * y + 1 = omega arith in
    let down2 : suc y - 1 ≡ y = omega arith in rw (down, down2) (bit_and-pred_even y)

ones_of-double : (n y : ℕ) → ones_of (suc n) (2 * y) ≡ ones_of n y
ones_of-double n y = let half : 2 * y / 2 ≡ y = omega arith in omega (arith, ap (ones_of n) half)

ones_of-double_suc : (n y : ℕ) → ones_of (suc n) (2 * y + 1) ≡ ones_of n y + 1
ones_of-double_suc n y =
    let half : (2 * y + 1) / 2 ≡ y = omega arith in omega (arith, ap (ones_of n) half)

-- A round of the loop takes one of the ones away.
abbrev Round : ℕ → ℕ → Type 0
Round n x = (ones_of n (cleared x) + 1 ≡ ones_of n x) × (cleared x < 2 ^ n)

Round-odd : (n y : ℕ) → 2 * y + 1 < 2 ^ suc n → Round (suc n) (2 * y + 1)
Round-odd n y below =
    rw (cleared_odd y) (omega (arith, ones_of-double n y, ones_of-double_suc n y), omega arith)

Round-even : (n y : ℕ) → Round n (suc y) → Round (suc n) (2 * suc y)
Round-even n y r =
    let twice : 2 ^ suc n ≡ 2 * 2 ^ n = omega arith in
    rw (cleared_even y) (
      omega (arith, ones_of-double n (cleared (suc y)), ones_of-double n (suc y), r.0),
      omega (arith, r.1, twice),
    )

round : (n x : ℕ) → 0 < x → x < 2 ^ n → Round n x
round zero x pos below = absurd (omega arith)
round (suc n) x pos below = elim (parity x pos) [
  | inl e ↦ subst (Round (suc n)) (sym e) (Round-odd n (x / 2) (omega arith))
  | inr (some_left, e) ↦
      subst (Round (suc n)) (sym e)
        (Round-even n (x / 2 - 1) (round n (suc (x / 2 - 1)) (omega arith) (omega arith)))
]

count_set_bits-zero : (fuel numregs : ℕ) → count_set_bits (suc fuel) 0 numregs ≡ some numregs
unfolding count_set_bits
count_set_bits-zero fuel numregs = refl

count_set_bits-pos :
    (fuel x numregs : ℕ)
    → 0 < x
    → count_set_bits (suc fuel) x numregs ≡ count_set_bits fuel (cleared x) (numregs + 1)
unfolding count_set_bits
count_set_bits-pos fuel x numregs pos = rw (==_of_ne x 0 (λ z. omega (arith, z, pos))) refl

-- With more rounds than ones, the loop adds the number of ones among the digits.
count_set_bits-ones_of :
    (n fuel x numregs : ℕ)
    → x < 2 ^ n
    → ones_of n x < fuel
    → count_set_bits fuel x numregs ≡ some (numregs + ones_of n x)
count_set_bits-ones_of n zero x numregs below enough = absurd (omega arith)
count_set_bits-ones_of n (suc fuel) zero numregs below enough =
    count_set_bits-zero fuel numregs ∙ ap some (omega (arith, ones_of-zero n))
count_set_bits-ones_of n (suc fuel) (suc x) numregs below enough =
    let (fewer, small) = round n (suc x) (omega arith) below in
    count_set_bits-pos fuel (suc x) numregs (omega arith)
    ∙ count_set_bits-ones_of n fuel (cleared (suc x)) (numregs + 1) small (omega arith)
    ∙ ap some (omega arith)

-- The count of a u32 ends, and is the number of its ones: 33 tests are enough for 32 digits.
pub count_set_bits-u32 :
    (bitmask : ℕ) → bitmask < 2 ^ 32 → count_set_bits 33 bitmask 0 ≡ some (ones_of 32 bitmask)
count_set_bits-u32 bitmask below =
    count_set_bits-ones_of 32 33 bitmask 0 below (omega (arith, ones_of-le 32 bitmask))
    ∙ ap some (omega arith)
