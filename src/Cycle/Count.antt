-- ===== src/Cycle/Count.antt =====
-- The 64-bit cycle counter that `clk_osm_get_cpu_cycle_counter` builds from 32-bit readings.
use xiaomi_pad4_ubuntu_touch.Base.{
  ℕ, ◌+◌, ◌-◌, ◌^◌, ◌<◌, ◌≡◌, refl, List, [], ◌∷◌, arith, u64, ltb, if◌then◌else◌,
}
use xiaomi_pad4_ubuntu_touch.Osm.{ClkOsm}
use xiaomi_pad4_ubuntu_touch.Cycle.{advance}

-- The driver's counters after the readings, in the order in which they are made.
abbrev pub after_readings : List ℕ → ClkOsm → ClkOsm
after_readings [] c = c
after_readings (val ∷ vals) c = after_readings vals (advance val c)

-- Every reading is a u32.
abbrev pub AllU32 : List ℕ → Type 0
AllU32 [] = Unit
AllU32 (val ∷ vals) = (val < 2 ^ 32) × AllU32 vals

-- The ticks of a 32-bit counter from the reading `prev` over the readings, if it wraps at most once
-- between two of them.
abbrev pub ticks : ℕ → List ℕ → ℕ
ticks prev [] = 0
ticks prev (val ∷ vals) =
    (if ltb val prev then val + 2 ^ 32 - prev else val - prev) + ticks val vals

-- How often the counter wraps.
abbrev pub wraps : ℕ → List ℕ → ℕ
wraps prev [] = 0
wraps prev (val ∷ vals) = (if ltb val prev then 1 else 0) + wraps val vals

u64_add : (a b : ℕ) → u64 (u64 a + b) ≡ u64 (a + b)
u64_add a b = omega arith

advance-prev : (val : ℕ) (c : ClkOsm) → (advance val c).prev_cycle_counter ≡ val
unfolding advance
advance-prev val c = ground arith

advance-total :
    (val prev : ℕ) (c : ClkOsm)
    → val < 2 ^ 32
    → prev < 2 ^ 32
    → c.prev_cycle_counter ≡ prev
    → u64 ((advance val c).total_cycle_counter + wraps prev (val ∷ []))
      ≡ u64 (c.total_cycle_counter + ticks prev (val ∷ []))
unfolding advance
advance-total val prev c small below same = ground arith

-- A step in front of the sums.
u64_step :
    (t a w1 w2 s k1 k2 : ℕ)
    → u64 (t + w2) ≡ u64 (a + k2)
    → u64 (a + (w1 + 0)) ≡ u64 (s + (k1 + 0))
    → u64 (t + (w1 + w2)) ≡ u64 (s + (k1 + k2))
u64_step t a w1 w2 s k1 k2 h g = omega arith

after_readings_from :
    (vals : List ℕ) (c : ClkOsm) (prev : ℕ)
    → AllU32 vals
    → c.prev_cycle_counter ≡ prev
    → prev < 2 ^ 32
    → u64 ((after_readings vals c).total_cycle_counter + wraps prev vals)
      ≡ u64 (c.total_cycle_counter + ticks prev vals)
after_readings_from [] c prev small same below = refl
after_readings_from (val ∷ vals) c prev small same below =
    let rest = after_readings_from vals (advance val c) val small.1 (advance-prev val c) small.0 in
    u64_step _ _ _ _ _ _ _ rest (advance-total val prev c small.0 below same)

-- Over any number of readings, the driver's counter falls behind the hardware's by one tick for
-- each time that the 32-bit counter wraps: with the wraps added, it has advanced by the ticks. It
-- wraps at most once between two readings; the sums are of 64 bits, the readings of 32.
pub after_readings-ticks :
    (vals : List ℕ) (c : ClkOsm)
    → AllU32 vals
    → c.prev_cycle_counter < 2 ^ 32
    → u64 ((after_readings vals c).total_cycle_counter + wraps c.prev_cycle_counter vals)
      ≡ u64 (c.total_cycle_counter + ticks c.prev_cycle_counter vals)
after_readings-ticks vals c small prev =
    after_readings_from vals c c.prev_cycle_counter small refl prev
