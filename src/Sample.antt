-- ===== src/Sample.antt =====
-- A cluster with a table of four rows, on a device whose registers hold what is written to them.
use xiaomi_pad4_ubuntu_touch.Base.{ℕ, ◌+◌, ◌*◌, true, false, List, [], ◌∷◌, none, some}
use xiaomi_pad4_ubuntu_touch.Osm.{
  Bases, OsmEntry, ClkOsm, xor_packet, Env, Platform, World, memory, sys_apcsaux_clk_gcc, pwrcl_hw,
  perfcl_hw, osm_clk_src,
}

abbrev pub entry : ℕ → ℕ → ℕ → ℕ → OsmEntry
entry vc fd spare freq = record {
  virtual_corner = vc;
  open_loop_volt = 600 + vc;
  freq_data = fd;
  override_data = 7;
  spare_data = spare;
  frequency = freq;
}

-- A row for one core, and three for all of them.
abbrev pub table : List OsmEntry
table =
    entry 0 0x1000c 1 300
    ∷ entry 1 0x4000c 1 300
    ∷ entry 2 0x40010 2 600
    ∷ entry 3 0x40014 2 900
    ∷ []

abbrev pub bases : Bases
bases = record { osm_base = 0x179c0000; pll_base = 0; efuse_base = 0; acd_base = 0 }

abbrev pub sample : ClkOsm
sample = record {
  osm_table = table;
  rate_max = 300 ∷ 600 ∷ 900 ∷ [];
  vbases = bases;
  pbases = bases;
  debug_regs = 0 ∷ 0 ∷ 0 ∷ [];
  irq = 0;
  num_entries = 4;
  apm_crossover_vc = 0;
  apm_threshold_pre_vc = 0;
  apm_threshold_vc = 0;
  mem_acc_crossover_vc = 0;
  mem_acc_threshold_pre_vc = 0;
  mem_acc_threshold_vc = 0;
  cycle_counter_reads = 3;
  cycle_counter_delay = 1;
  cycle_counter_factor = 0;
  total_cycle_counter = 100;
  prev_cycle_counter = 90;
  l_val_base = 0;
  apcs_itm_present = 0;
  apcs_cfg_rcgr = 0;
  apcs_cmd_rcgr = 0;
  apcs_pll_user_ctl = 0;
  apcs_mem_acc_cfg = [];
  apcs_mem_acc_val = [];
  llm_sw_overr = 1 ∷ 2 ∷ 3 ∷ [];
  apm_mode_ctl = 0;
  apm_ctrl_status = 0;
  osm_clk_rate = 200000000;
  xo_clk_rate = 19200000;
  acd_td = 0;
  acd_cr = 0;
  acd_sscr = 0;
  acd_extint0_cfg = 0;
  acd_extint1_cfg = 0;
  acd_autoxfer_ctl = 0;
  acd_debugfs_addr = 0;
  acd_debugfs_addr_size = 0;
  acd_init = false;
  secure_init = false;
  red_fsm_en = false;
  boost_fsm_en = false;
  safe_fsm_en = false;
  ps_fsm_en = false;
  droop_fsm_en = false;
  wfx_fsm_en = false;
  pc_fsm_en = false;
  trace_method = xor_packet;
  trace_id = 0;
  trace_periodic_timer = 0;
  trace_en = false;
  wdog_trace_en = false;
}

-- The cells of two rows of a look-up table.
abbrev pub cells : List ℕ
cells = 300 ∷ 0x1000c ∷ 7 ∷ 1 ∷ 1 ∷ 600 ∷ 0x40010 ∷ 7 ∷ 2 ∷ 2 ∷ []

-- A platform with every resource but the optional ones, on which no call fails.
abbrev pub platform : Platform
platform = record {
  get_resource = λ name. some (record { start = 0x179c0000; size = 0x4000 });
  ioremap = λ start size. start + 0x10000000;
  regmap_error = none;
  regulator_error = λ name. none;
  supply_node = λ name. true;
  supply_device = λ name. true;
  clk_get_error = λ name. none;
  get_irq = λ name. 35;
  request_irq_error = λ name. none;
  osm_qcom_clk_hws = sys_apcsaux_clk_gcc ∷ pwrcl_hw ∷ perfcl_hw ∷ osm_clk_src ∷ [];
  clk_register_error = λ id. none;
  add_provider_error = none;
  device_is_compatible = λ name. false;
  possible_cpus = 0 ∷ 1 ∷ [];
  online_cpus = 0 ∷ 1 ∷ [];
  cpu_hwid = λ cpu. some (cpu * 0x100);
  cpu_has_device = λ cpu. true;
  debugfs_fails = λ dir name. false;
}

abbrev pub env : Env
env = record {
  device = memory (λ a. 0);
  alloc = λ a. true;
  of_find_property = λ name. some 40;
  of_read_array_error = λ name n. none;
  of_read_array = λ name n. cells;
  of_read_u32_index = λ name i. none;
  of_read_bool = λ name. false;
  regulator_list_corner_voltage = λ k corner. 600000 + 50000 * corner;
  regulator_count_voltages = λ k. 10;
  platform = platform;
}

abbrev pub world : World
world = record { env = env; bus = []; clocks = λ k. sample }
