-- ===== src/Tests.antt =====
-- The theorems of Rates, Lut, HwTable and Setup at concrete inputs.
mod Power
mod Control
mod Start
use Prim.Native.String.{String}
use mathlib.Core.List.{Memᴰ}
use xiaomi_pad4_ubuntu_touch.Base.{
  ℕ, zero, suc, ◌+◌, ◌-◌, ◌*◌, ◌≤◌, ◌<◌, ◌≡◌, ◌≢◌, refl, sym, true, false, Bool, List, [], ◌∷◌,
  none, some, Option, arith, length, get_elem?, inl, inr, ◌⊎◌, u32, u64, get_or, ◌==◌,
  if◌then◌else◌,
}
use xiaomi_pad4_ubuntu_touch.Osm.{
  Cluster, pwrcl, perfcl, Bases, OsmEntry, ClkOsm, TraceMethod, xor_packet, Access, Alloc, Env,
  World, clock, Result, ok, err, fault, einval, memory, memory_lem, last_written, Holds,
}
use xiaomi_pad4_ubuntu_touch.Osm.Regs.{
  max_core_count, single_core, max_virtual_corner, osm_table_size,
}
use xiaomi_pad4_ubuntu_touch.Rates.{
  clk_osm_determine_rate, clk_osm_set_rate, clk_osm_recalc_rate, clk_osm_search_table,
}
use xiaomi_pad4_ubuntu_touch.Rates.Choice.{All, NoWorse, determine_rate-NoWorse}
use xiaomi_pad4_ubuntu_touch.Rates.Table.{
  IsMatch, IsFirst, search_table-IsMatch, search_table-IsFirst,
}
use xiaomi_pad4_ubuntu_touch.Rates.SetRate.{desired, set_rate_refused, recalc_rate-set_rate}
use xiaomi_pad4_ubuntu_touch.Rates.{is_row}
use xiaomi_pad4_ubuntu_touch.Lut.{clk_osm_get_lut}
use xiaomi_pad4_ubuntu_touch.Lut.Parsed.{HasTable, with_table, get_lut-with_table}
use xiaomi_pad4_ubuntu_touch.HwTable.Volt.{volt_of-fields}
use xiaomi_pad4_ubuntu_touch.Base.{◌/◌, ◌%◌, ◌^◌}
use xiaomi_pad4_ubuntu_touch.HwTable.{volt_of, values_of, clk_osm_setup_hw_table}
use xiaomi_pad4_ubuntu_touch.HwTable.Check.{IsConsistent}
use xiaomi_pad4_ubuntu_touch.HwTable.Written.{HoldsRow, setup_hw_table-HoldsRow}
use xiaomi_pad4_ubuntu_touch.HwTable.Refused.{setup_hw_table_refused}
use xiaomi_pad4_ubuntu_touch.Cycle.Count.{after_readings, ticks, after_readings-ticks}
use xiaomi_pad4_ubuntu_touch.Opp.{OppPair, find_voltage, add_opp}
use xiaomi_pad4_ubuntu_touch.Opp.Points.{IsFirstAt, AllTaken, find_voltage-first, add_opp-points}
use xiaomi_pad4_ubuntu_touch.Corners.{Threshold, resolve_threshold}
use xiaomi_pad4_ubuntu_touch.Corners.Thresholds.{
  IsFirstReaching, resolve_threshold-first, resolve_threshold_default,
}
use xiaomi_pad4_ubuntu_touch.MemAcc.{level_map}
use xiaomi_pad4_ubuntu_touch.MemAcc.Levels.{boundaries, three, level_map-three}
use xiaomi_pad4_ubuntu_touch.Acd.{count_set_bits}
use xiaomi_pad4_ubuntu_touch.Acd.Bits.{count_set_bits-u32}
use xiaomi_pad4_ubuntu_touch.Setup.{clk_osm_setup_sequencer}
use xiaomi_pad4_ubuntu_touch.Setup.Sequencer.{setup_sequencer-last_written}
use xiaomi_pad4_ubuntu_touch.Sample.{entry, table, bases, sample, cells, env, world}

determine_rate-NoWorse_example :
    (best : ℕ) × (clk_osm_determine_rate pwrcl 500 world ≡ (ok best, world))
    × All (NoWorse 500 best) (300 ∷ 600 ∷ 900 ∷ [])
    × ((best ≡ 0) ⊎ Memᴰ best (300 ∷ 600 ∷ 900 ∷ []))
determine_rate-NoWorse_example =
    determine_rate-NoWorse pwrcl 500 world (omega arith)
      (omega arith, (omega arith, (omega arith, tt)))

Memᴰ-rates : (rate : ℕ) → Memᴰ rate (300 ∷ 600 ∷ 900 ∷ []) → (rate ≡ 300) ⊎ (300 < rate)
Memᴰ-rates rate (Memᴰ.head e) = inl e
Memᴰ-rates rate (Memᴰ.tail (Memᴰ.head e)) = inr (omega arith)
Memᴰ-rates rate (Memᴰ.tail (Memᴰ.tail (Memᴰ.head e))) = inr (omega arith)
Memᴰ-rates rate (Memᴰ.tail (Memᴰ.tail (Memᴰ.tail m))) = elim m [ ]

unlisted : ¬ Memᴰ {A = ℕ} 5 (300 ∷ 600 ∷ 900 ∷ [])
unlisted m = elim (Memᴰ-rates 5 m) [ inl e ↦ omega arith | inr h ↦ omega arith ]

set_rate_refused_example : clk_osm_set_rate pwrcl 5 world ≡ (err einval, world)
set_rate_refused_example = set_rate_refused pwrcl 5 world (omega arith) unlisted

-- Row 1 is the first for all cores at 300.
IsFirst-row : IsFirst 300 table 1
IsFirst-row = record { entry = entry 1 0x4000c 1 300; at = refl; hit = refl; earlier = not_before }
  where
    not_before :
        (m : ℕ) (e : OsmEntry)
        → m < 1
        → get_elem? table m ≡ some e
        → is_row 300 max_core_count e ≡ false
    not_before zero e lt at = let same : entry 0 0x1000c 1 300 ≡ e = cc at in rw (sym same) refl
    not_before (suc m) e lt at = absurd (omega arith)

desired-Holds : Holds world (desired pwrcl world)
desired-Holds h v last = memory_lem (λ a. 0) h (desired pwrcl world) v last

recalc_rate-set_rate_example :
    let (r, w') = clk_osm_set_rate pwrcl 300 world in
    (r ≡ ok tt)
    × (last_written (desired pwrcl world) w'.bus ≡ some 1)
    × ((clk_osm_recalc_rate pwrcl w').0 ≡ ok 300)
recalc_rate-set_rate_example =
    recalc_rate-set_rate pwrcl 300 1 world desired-Holds (omega arith) (omega arith)
      (omega arith, (omega arith, (omega arith, tt))) (Memᴰ.head refl) (omega arith) IsFirst-row

found_row : clk_osm_search_table table 4 300 ≡ ok 1
found_row = search_table-IsFirst 300 4 1 table (omega arith) IsFirst-row

search_table-IsMatch_example : IsMatch 300 table 4 1
search_table-IsMatch_example = search_table-IsMatch 300 4 1 table found_row

two_rows : HasTable world "qcom,osm-speedbin0-v0" 1
two_rows = record { found = refl; readable = refl; whole = refl; memory = λ a. refl }

get_lut-with_table_example :
    let (r, w') = clk_osm_get_lut pwrcl "qcom,osm-speedbin0-v0" world in
    (r ≡ ok tt) × (clock pwrcl w' ≡ with_table cells 1 sample) × (w'.bus ≡ [])
get_lut-with_table_example =
    get_lut-with_table pwrcl "qcom,osm-speedbin0-v0" 1 world two_rows (omega arith)

consistent : IsConsistent sample
consistent zero below pos same = refl
consistent (suc zero) below pos same = absurd (omega arith)
consistent (suc (suc zero)) below pos same = refl
consistent (suc (suc (suc i))) below pos same = absurd (omega arith)

setup_hw_table-HoldsRow_example :
    let (r, w') = clk_osm_setup_hw_table perfcl world in
    (r ≡ ok tt)
    × HoldsRow 0x179c0000 20 (values_of (entry 3 0x40014 2 900)) w'.bus
    × (w'.clocks ≡ world.clocks)
setup_hw_table-HoldsRow_example =
    setup_hw_table-HoldsRow perfcl world 20 (omega arith) (omega arith) consistent (omega arith)

-- Entries 1 and 2 are of corner 1 and differ in their spare data.
abbrev bad_world : World
bad_world = record world {
  clocks = λ k. record sample {
    osm_table = entry 0 0x1000c 1 300 ∷ entry 1 0x4000c 1 300 ∷ entry 1 0x40010 2 600 ∷ [];
    num_entries = 3;
  };
}

setup_hw_table_refused_example : (clk_osm_setup_hw_table pwrcl bad_world).0 ≡ err einval
setup_hw_table_refused_example =
    setup_hw_table_refused pwrcl bad_world 1 (omega arith) (omega arith) (omega arith)
      (λ h. omega arith, refl, λ h. omega arith)

-- Corner 3 at 603 mV.
volt_of-fields_example :
    (volt_of (entry 3 0x40014 2 900) / 2 ^ 16 ≡ 3)
    × (volt_of (entry 3 0x40014 2 900) % 2 ^ 16 ≡ 603)
volt_of-fields_example = volt_of-fields (entry 3 0x40014 2 900)

setup_sequencer-last_written_example :
    let (r, w') = clk_osm_setup_sequencer perfcl world in
    (r ≡ ok tt)
    × (last_written (0x179c0000 + (0x500 + 4)) w'.bus ≡ some 0x2c9e3b21)
    × (last_written (0x179c0000 + (0x170 + 8)) w'.bus ≡ some 0x21c)
setup_sequencer-last_written_example =
    setup_sequencer-last_written perfcl world 1 2 0x2c9e3b21 0x21c refl refl
