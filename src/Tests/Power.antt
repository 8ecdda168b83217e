-- ===== src/Tests/Power.antt =====
-- The theorems of Cycle, Opp, Corners, MemAcc, Acd, Config and Registration/CpuMap at concrete inputs.
use Prim.Native.String.{String}
use xiaomi_pad4_ubuntu_touch.Base.{
  ℕ, zero, suc, ◌+◌, ◌*◌, ◌≤◌, ◌<◌, ◌≡◌, ◌≢◌, refl, sym, true, false, [], ◌∷◌, none, some, Option,
  arith, length, get_elem?, inl, inr, ◌⊎◌, u64, ◌==◌, if◌then◌else◌, ◌||◌,
}
use xiaomi_pad4_ubuntu_touch.Osm.{
  pwrcl, perfcl, OsmEntry, World, clock, Result, ok, err, fault, last_written,
}
use xiaomi_pad4_ubuntu_touch.Cycle.Count.{after_readings, ticks, after_readings-ticks}
use xiaomi_pad4_ubuntu_touch.Opp.{OppPair, find_voltage, add_opp}
use xiaomi_pad4_ubuntu_touch.Opp.Points.{IsFirstAt, AllTaken, find_voltage-first, add_opp-points}
use xiaomi_pad4_ubuntu_touch.Corners.{Threshold, resolve_threshold}
use xiaomi_pad4_ubuntu_touch.Corners.Thresholds.{
  IsFirstReaching, resolve_threshold-first, resolve_threshold_default,
}
use xiaomi_pad4_ubuntu_touch.MemAcc.{level_map}
use xiaomi_pad4_ubuntu_touch.MemAcc.Levels.{boundaries, three, level_map-three}
use xiaomi_pad4_ubuntu_touch.Acd.{count_set_bits}
use xiaomi_pad4_ubuntu_touch.Acd.Bits.{count_set_bits-u32}
use text.Mathlib.Text.{◌==◌ as str_eq}
use xiaomi_pad4_ubuntu_touch.Osm.{etimedout}
use xiaomi_pad4_ubuntu_touch.Cycle.{clk_osm_debug_irq_cb}
use xiaomi_pad4_ubuntu_touch.Cycle.Estimate.{debug_irq_cb-divided}
use xiaomi_pad4_ubuntu_touch.Config.{clk_osm_parse_dt_configs}
use xiaomi_pad4_ubuntu_touch.Config.Outcome.{parse_outcome, parse_dt_configs-parse_outcome}
use xiaomi_pad4_ubuntu_touch.Acd.{clk_osm_enable}
use xiaomi_pad4_ubuntu_touch.Acd.Timeout.{enable-NeverDone}
use xiaomi_pad4_ubuntu_touch.Cycle.{owned_by, no_clock, cluster_of_hwid}
use xiaomi_pad4_ubuntu_touch.Registration.CpuMap.{
  no_clocks, look_up_cpus, owners_of, look_up_cpus-owners_of,
}
use xiaomi_pad4_ubuntu_touch.Sample.{entry, table, bases, sample, env, world}

after_readings-ticks_example :
    u64 ((after_readings (5 ∷ 50 ∷ 20 ∷ []) sample).total_cycle_counter + 2)
    ≡ u64 (100 + ticks 90 (5 ∷ 50 ∷ 20 ∷ []))
after_readings-ticks_example =
    after_readings-ticks (5 ∷ 50 ∷ 20 ∷ []) sample (omega arith, (omega arith, (omega arith, tt)))
      (omega arith)

-- A kernel that takes every point.
abbrev takes_all : OppPair → Option ℕ
takes_all p = none

abbrev volts : ℕ → ℕ
volts rate = if rate == 300 then 600000 else if rate == 600 then 602000 else 603000

IsFirstAt-300 : IsFirstAt 300 table 0 (entry 0 0x1000c 1 300)
IsFirstAt-300 = record { at = refl; runs_at = refl; earlier = λ m e lt at. absurd (omega arith) }

frequency_at :
    (m : ℕ) (e : OsmEntry)
    → get_elem? table m ≡ some e
    → (e.frequency ≡ 300) × (m < 2) ⊎ (e.frequency ≡ 600) × (m ≡ 2) ⊎ (e.frequency ≡ 900) × (m ≡ 3)
frequency_at zero e at =
    let same : entry 0 0x1000c 1 300 ≡ e = cc at in rw (sym same) (inl (refl, omega arith))
frequency_at (suc zero) e at =
    let same : entry 1 0x4000c 1 300 ≡ e = cc at in rw (sym same) (inl (refl, omega arith))
frequency_at (suc (suc zero)) e at =
    let same : entry 2 0x40010 2 600 ≡ e = cc at in rw (sym same) (inr (inl (refl, refl)))
frequency_at (suc (suc (suc zero))) e at =
    let same : entry 3 0x40014 2 900 ≡ e = cc at in rw (sym same) (inr (inr (refl, refl)))
frequency_at (suc (suc (suc (suc m)))) e at = cc at

IsFirstAt-600 : IsFirstAt 600 table 2 (entry 2 0x40010 2 600)
IsFirstAt-600 = record {
  at = refl;
  runs_at = refl;
  earlier = λ m e lt at. elim (frequency_at m e at) [
    | inl here ↦ λ same. omega (arith, same, here.0)
    | inr (inl here) ↦ absurd (omega (arith, here.1, lt))
    | inr (inr here) ↦ absurd (omega (arith, here.1, lt))
  ];
}

IsFirstAt-900 : IsFirstAt 900 table 3 (entry 3 0x40014 2 900)
IsFirstAt-900 = record {
  at = refl;
  runs_at = refl;
  earlier = λ m e lt at. elim (frequency_at m e at) [
    | inl here ↦ λ same. omega (arith, same, here.0)
    | inr (inl here) ↦ λ same. omega (arith, same, here.0)
    | inr (inr here) ↦ absurd (omega (arith, here.1, lt))
  ];
}

find_voltage-first_example : find_voltage sample 300 ≡ ok 600000
find_voltage-first_example =
    find_voltage-first sample 300 0 (entry 0 0x1000c 1 300) (omega arith) IsFirstAt-300

volts_of_rates : AllTaken takes_all sample volts (300 ∷ 600 ∷ 900 ∷ [])
volts_of_rates = (
  find_voltage-first sample 300 0 (entry 0 0x1000c 1 300) (omega arith) IsFirstAt-300,
  omega arith,
  refl,
  (
    find_voltage-first sample 600 2 (entry 2 0x40010 2 600) (omega arith) IsFirstAt-600,
    omega arith,
    refl,
    (
      find_voltage-first sample 900 3 (entry 3 0x40014 2 900) (omega arith) IsFirstAt-900,
      omega arith,
      refl,
      tt,
    ),
  ),
)

add_opp-points_example : add_opp takes_all sample ≡ record {
  points =
      record { rate = 300; uv = 600000 }
      ∷ record { rate = 600; uv = 602000 }
      ∷ record { rate = 900; uv = 603000 }
      ∷ [];
  outcome = ok tt;
}
add_opp-points_example =
    add_opp-points takes_all sample volts 300 (600 ∷ 900 ∷ []) refl (omega arith, (omega arith, tt))
      volts_of_rates

abbrev corner_volts : ℕ → ℕ
corner_volts corner = 600000 + 50000 * corner

IsFirstReaching-row : IsFirstReaching corner_volts 700000 table 1 (entry 1 0x4000c 1 300)
IsFirstReaching-row = record { at = refl; reaches = omega arith; earlier = below }
  where
    below :
        (m : ℕ) (e : OsmEntry)
        → m < 1
        → get_elem? table m ≡ some e
        → corner_volts (e.virtual_corner + 1) < 700000
    below zero e lt at = let same : entry 0 0x1000c 1 300 ≡ e = cc at in rw (sym same) (omega arith)
    below (suc m) e lt at = absurd (omega arith)

abbrev no_threshold : Threshold
no_threshold = record { vc = 0; pre_vc = 0 }

resolve_threshold-first_example :
    resolve_threshold corner_volts 700000 table no_threshold ≡ record { vc = 1; pre_vc = 0 }
resolve_threshold-first_example =
    resolve_threshold-first corner_volts 700000 1 table (entry 1 0x4000c 1 300) no_threshold
      IsFirstReaching-row

all_below :
    (m : ℕ) (e : OsmEntry)
    → get_elem? (entry 3 0x40014 2 900 ∷ []) m ≡ some e
    → corner_volts (e.virtual_corner + 1) < 900000
all_below zero e at = let same : entry 3 0x40014 2 900 ≡ e = cc at in rw (sym same) (omega arith)
all_below (suc m) e at = cc at

resolve_threshold_default_example :
    resolve_threshold corner_volts 900000 (entry 3 0x40014 2 900 ∷ []) no_threshold
    ≡ record { vc = 0x27; pre_vc = 0x26 }
resolve_threshold_default_example =
    resolve_threshold_default corner_volts 900000 (entry 3 0x40014 2 900 ∷ []) no_threshold
      all_below refl refl

level_map-three_example :
    let bs = boundaries 4 1 table in
    let r = level_map 4 1 0 (0 ∷ 0 ∷ 0 ∷ []) table in
    (length bs ≤ 3) × (r ≡ ok (three bs)) ⊎ (3 < length bs) × (r ≡ fault)
level_map-three_example = level_map-three 4 1 table (omega arith)

count_set_bits-u32_example : count_set_bits 33 0xf1 0 ≡ some 5
count_set_bits-u32_example = count_set_bits-u32 0xf1 (omega arith)

-- A cluster whose clock distribution block is enabled, on a device that answers 0 throughout.
abbrev deaf_world : World
deaf_world = record world {
  env = record env { device = λ h a. 0 };
  clocks = λ k. record sample { acd_init = true; vbases = record bases { acd_base = 0x179d0000 } };
}

enable-NeverDone_example :
    let (r, w') = clk_osm_enable perfcl deaf_world in
    (r ≡ err etimedout) × (last_written 0x179c1004 w'.bus ≡ none)
enable-NeverDone_example = enable-NeverDone perfcl deaf_world refl (omega arith) (λ h. refl)

debug_irq_cb-divided_example :
    let (r, w') = clk_osm_debug_irq_cb pwrcl world in
    ((clock pwrcl world).cycle_counter_factor ≢ 0)
      × ((estimate : ℕ) × (r ≡ ok estimate))
      × (w'.clocks ≡ world.clocks)
    ⊎ ((clock pwrcl world).cycle_counter_factor ≡ 0) × (r ≡ fault)
debug_irq_cb-divided_example = debug_irq_cb-divided pwrcl world

-- Device trees in which one property cannot be read.
abbrev without : String → World
without missing = record world {
  env = record env {
    of_read_array_error = λ name n. if str_eq name missing then some 22 else none;
  };
}

parse_dt_configs-parse_outcome_example :
    let w = without "qcom,perfcl-apcs-mem-acc-cfg" in
    (clk_osm_parse_dt_configs w).0
    ≡ parse_outcome w.env ((clock pwrcl w).acd_init || (clock perfcl w).acd_init)
parse_dt_configs-parse_outcome_example =
    parse_dt_configs-parse_outcome (without "qcom,perfcl-apcs-mem-acc-cfg")

-- The parse does without this property, and not without the other one.
OutcomeWithout : (missing : String) (r : Result (Unit {0})) → Type 0
OutcomeWithout missing r = parse_outcome (without missing).env false ≡ r

optional_cfg : OutcomeWithout "qcom,perfcl-apcs-mem-acc-cfg" (ok tt)
unfolding OutcomeWithout
optional_cfg = refl

demanded_factor : OutcomeWithout "qcom,cc-factor" (err 22)
unfolding OutcomeWithout
demanded_factor = refl

-- Of two CPUs, the second belongs to the other cluster; a third is not in the device tree.
abbrev two_cpus : ℕ → Option ℕ
two_cpus cpu = if cpu == 0 then some 0x100 else if cpu == 1 then some 0 else none

look_up_cpus-owners_of_example :
    look_up_cpus two_cpus (1 ∷ 0 ∷ 1 ∷ 2 ∷ 0 ∷ []) no_clocks
    ≡ owners_of two_cpus (1 ∷ 0 ∷ 1 ∷ 2 ∷ 0 ∷ [])
look_up_cpus-owners_of_example = look_up_cpus-owners_of two_cpus (1 ∷ 0 ∷ 1 ∷ 2 ∷ 0 ∷ [])

owners_of-two_cpus :
    owners_of two_cpus (1 ∷ 0 ∷ 2 ∷ []) ≡ owned_by pwrcl ∷ owned_by perfcl ∷ no_clock ∷ []
unfolding cluster_of_hwid
owners_of-two_cpus = refl
