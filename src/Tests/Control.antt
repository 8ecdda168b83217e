-- ===== src/Tests/Control.antt =====
-- The theorems on the control registers, the rows, the thresholds and the debug files, at concrete
-- inputs.
use xiaomi_pad4_ubuntu_touch.Base.{ℕ, ◌+◌, ◌≡◌, refl, true, false, [], ◌∷◌, arith, if◌then◌else◌}
use xiaomi_pad4_ubuntu_touch.Osm.{pwrcl, perfcl, World, clock, ok, memory, xor_packet}
use xiaomi_pad4_ubuntu_touch.Osm.Effect.{held, memory-IsPlain}
use xiaomi_pad4_ubuntu_touch.Base.Bits.{digit}
use xiaomi_pad4_ubuntu_touch.Osm.Regs.{pdn_fsm_ctrl_reg, trace_ctrl}
use xiaomi_pad4_ubuntu_touch.Fsm.{clk_osm_setup_fsms}
use xiaomi_pad4_ubuntu_touch.Fsm.Control.{asked_for, setup_fsms-digit}
use xiaomi_pad4_ubuntu_touch.Trace.Mode.{
  Mode, trace_enable, trace_packet_id, trace_method, all_requested,
}
use xiaomi_pad4_ubuntu_touch.Trace.{UserBuf, periodic_text}
use xiaomi_pad4_ubuntu_touch.Trace.Mirror.{Mirrors, serve_all, serve_all-Mirrors}
use xiaomi_pad4_ubuntu_touch.Base.{take}
use xiaomi_pad4_ubuntu_touch.Rates.{clk_osm_search_table}
use xiaomi_pad4_ubuntu_touch.Rates.Reference.{chosen_row, search_table-chosen_row}
use xiaomi_pad4_ubuntu_touch.Base.{not, ◌||◌}
use xiaomi_pad4_ubuntu_touch.Osm.{Cluster, ClkOsm, ◌>>◌}
use xiaomi_pad4_ubuntu_touch.Osm.Regs.{llm_intf_dcvs_disable, osm_core_table_size}
use xiaomi_pad4_ubuntu_touch.Policy.{clk_osm_set_llm_freq_policy, clk_osm_set_llm_volt_policy}
use xiaomi_pad4_ubuntu_touch.Policy.Votes.{disabled_by, llm_policies-digit}
use xiaomi_pad4_ubuntu_touch.Registration.{clk_name, populate_debugfs_dir}
use xiaomi_pad4_ubuntu_touch.Registration.Files.{
  listing, all_or_none, populate_debugfs_dir-all_or_none,
}
use xiaomi_pad4_ubuntu_touch.MemAcc.{ThresholdVc, dynamic_thresholds}
use xiaomi_pad4_ubuntu_touch.MemAcc.Thresholds.{IsOrdered, dynamic_thresholds-IsOrdered}
use xiaomi_pad4_ubuntu_touch.Sample.{sample, env, world, bases, table}

-- Two machines are asked for.
abbrev with_machines : World
with_machines = record world {
  clocks = λ k. record sample { droop_fsm_en = true; wfx_fsm_en = true };
}

setup_fsms-digit_example :
    let control = (clock pwrcl with_machines).vbases.osm_base + pdn_fsm_ctrl_reg in
    let (r, w') = clk_osm_setup_fsms pwrcl with_machines in
    (r ≡ ok tt)
    × (digit (held env control w'.bus) 4
        ≡ (if asked_for (clock pwrcl with_machines) 4 then 1 else digit (held env control []) 4))
    × (w'.clocks ≡ with_machines.clocks)
setup_fsms-digit_example =
    setup_fsms-digit pwrcl with_machines 4 (memory-IsPlain (λ a. 0) _) (omega arith)

abbrev off : Mode
off = record { enabled = false; wdog = false; method = xor_packet; id = 0 }

abbrev trace_at : ℕ
trace_at = 0x179c0000 + trace_ctrl

Mirrors-off : Mirrors trace_at perfcl off world
unfolding memory
Mirrors-off = record {
  address = refl;
  plain = memory-IsPlain (λ a. 0) trace_at;
  fields = refl;
  shown = record {
    enable_shown = refl;
    id_low_shown = refl;
    id_high_shown = refl;
    method_shown = refl;
    wdog_shown = refl;
  };
}

-- A buffer that can be read, with "periodic\n".
abbrev periodic_buf : UserBuf
periodic_buf = record { bytes = periodic_text; readable = true }

serve_all-Mirrors_example :
    let requests =
      trace_packet_id 2 ∷ trace_method periodic_buf ∷ trace_packet_id 7 ∷ trace_enable 1 ∷ [] in
    Mirrors trace_at perfcl (all_requested requests off) (serve_all perfcl requests world)
serve_all-Mirrors_example =
    serve_all-Mirrors trace_at perfcl
      (trace_packet_id 2 ∷ trace_method periodic_buf ∷ trace_packet_id 7 ∷ trace_enable 1 ∷ []) off
      world Mirrors-off

search_table-chosen_row_example : clk_osm_search_table table 4 600 ≡ chosen_row 600 (take 4 table)
search_table-chosen_row_example = search_table-chosen_row 600 4 table (omega arith)

-- Two blocks, 8192 bytes apart.
abbrev clocks_apart : Cluster → ClkOsm
clocks_apart pwrcl = sample
clocks_apart perfcl = record sample {
  vbases = record bases { osm_base = 0x179c0000 + osm_core_table_size };
}

abbrev world_apart : World
world_apart = record world { clocks = clocks_apart }

llm_policies-digit_example :
    let at = (clock perfcl world_apart).vbases.osm_base + llm_intf_dcvs_disable in
    let (r, w') = (clk_osm_set_llm_freq_policy >> clk_osm_set_llm_volt_policy) world_apart in
    (r ≡ ok tt)
    × (digit (held env at w'.bus) 1 ≡ (if disabled_by env 1 then 1 else digit (held env at []) 1))
    × (w'.clocks ≡ clocks_apart)
llm_policies-digit_example =
    llm_policies-digit perfcl world_apart 1 refl (memory-IsPlain (λ a. 0) _) refl (omega arith)

populate_debugfs_dir-all_or_none_example :
    let (r, w') = populate_debugfs_dir perfcl false world in
    let there = false || not (world.env.platform.debugfs_fails "" "osm") in
    (r ≡ ok there) × (listing env (clk_name perfcl) w'.bus ≡ all_or_none env perfcl there)
populate_debugfs_dir-all_or_none_example = populate_debugfs_dir-all_or_none perfcl false world refl

-- Fixed thresholds, of which the second one is too high.
abbrev fixed : ThresholdVc
fixed = record { t0 = 4; t1 = 9; t2 = 11; t3 = 12 }

dynamic_thresholds-IsOrdered_example : IsOrdered 9 8 fixed (dynamic_thresholds 9 8 fixed)
dynamic_thresholds-IsOrdered_example =
    dynamic_thresholds-IsOrdered 9 8 fixed (omega arith) (omega arith) (omega arith)
      (λ e. omega (arith, e)) (omega arith) (omega arith)
