-- ===== src/Osm/State.antt =====
-- The data of clk-cpu-osm-660.c: `struct osm_entry`, `struct clk_osm`, the two static clocks, and
-- what the driver asks of the kernel and the hardware, which is an argument of everything.
use Prim.Native.String.{String}
use xiaomi_pad4_ubuntu_touch.Base.{ℕ, Bool, List, Option}
use xiaomi_pad4_ubuntu_touch.Osm.Host.{Platform}

-- `pwrcl_clk` and `perfcl_clk`, the only values that a `struct clk_osm *` takes.
pub data Cluster : Type 0 where
  pwrcl perfcl : Cluster

-- `.cluster_num`
abbrev pub cluster_num : Cluster → ℕ
cluster_num pwrcl = 0
cluster_num perfcl = 1

-- `.cpu_reg_mask`
abbrev pub cpu_reg_mask : Cluster → ℕ
cpu_reg_mask pwrcl = 0x3
cpu_reg_mask perfcl = 0x103

-- `vbases[NUM_BASES]`, `pbases[NUM_BASES]`; 0 is the null pointer.
pub record Bases : Type 0 where
  pub osm_base : ℕ
  pub pll_base : ℕ
  pub efuse_base : ℕ
  pub acd_base : ℕ

-- `struct osm_entry`; `frequency` is a `long` that holds a u32.
pub record OsmEntry : Type 0 where
  pub virtual_corner : ℕ
  pub open_loop_volt : ℕ
  pub freq_data : ℕ
  pub override_data : ℕ
  pub spare_data : ℕ
  pub frequency : ℕ

pub data TraceMethod : Type 0 where
  xor_packet periodic_packet : TraceMethod

-- `struct clk_osm`. The arrays are lists; `rate_max` is `osm_clks_init[cluster_num].rate_max`, and
-- `num_rate_max` is its length. Unsigned fields are numbers below 2 ^ 32 (2 ^ 64 where u64).
pub record ClkOsm : Type 0 where
  pub osm_table : List OsmEntry
  pub rate_max : List ℕ
  pub vbases : Bases
  pub pbases : Bases
  pub debug_regs : List ℕ
  pub irq : ℕ
  pub num_entries : ℕ
  pub apm_crossover_vc : ℕ
  pub apm_threshold_pre_vc : ℕ
  pub apm_threshold_vc : ℕ
  pub mem_acc_crossover_vc : ℕ
  pub mem_acc_threshold_pre_vc : ℕ
  pub mem_acc_threshold_vc : ℕ
  pub cycle_counter_reads : ℕ
  pub cycle_counter_delay : ℕ
  pub cycle_counter_factor : ℕ
  pub total_cycle_counter : ℕ
  pub prev_cycle_counter : ℕ
  pub l_val_base : ℕ
  pub apcs_itm_present : ℕ
  pub apcs_cfg_rcgr : ℕ
  pub apcs_cmd_rcgr : ℕ
  pub apcs_pll_user_ctl : ℕ
  pub apcs_mem_acc_cfg : List ℕ
  pub apcs_mem_acc_val : List ℕ
  pub llm_sw_overr : List ℕ
  pub apm_mode_ctl : ℕ
  pub apm_ctrl_status : ℕ
  pub osm_clk_rate : ℕ
  pub xo_clk_rate : ℕ
  pub acd_td : ℕ
  pub acd_cr : ℕ
  pub acd_sscr : ℕ
  pub acd_extint0_cfg : ℕ
  pub acd_extint1_cfg : ℕ
  pub acd_autoxfer_ctl : ℕ
  pub acd_debugfs_addr : ℕ
  pub acd_debugfs_addr_size : ℕ
  pub acd_init : Bool
  pub secure_init : Bool
  pub red_fsm_en : Bool
  pub boost_fsm_en : Bool
  pub safe_fsm_en : Bool
  pub ps_fsm_en : Bool
  pub droop_fsm_en : Bool
  pub wfx_fsm_en : Bool
  pub pc_fsm_en : Bool
  pub trace_method : TraceMethod
  pub trace_id : ℕ
  pub trace_periodic_timer : ℕ
  pub trace_en : Bool
  pub wdog_trace_en : Bool

-- What the driver asks the kernel to do that is not an access to the hardware.
pub data Call : Type 0 where
  request_irq : Cluster → ℕ → Call
  register_panic_notifier : Cluster → Call
  get_online_cpus put_online_cpus : Call
  of_platform_populate register_cpu_cycle_counter_cb : Call
  debugfs_create_dir debugfs_create_file : String → String → Call
  debugfs_remove_recursive : String → Call

-- One access to the hardware, in the order in which the driver makes them: a read with the value
-- that came back, a write, a write to a physical address by the secure world, a delay in ns; and the
-- calls of the kernel in between.
pub data Access : Type 0 where
  read_reg : ℕ → ℕ → Access
  write_reg : ℕ → ℕ → Access
  scm_write : ℕ → ℕ → Access
  wait_ns : ℕ → Access
  call : Call → Access

-- The allocations that can fail.
pub data Alloc : Type 0 where
  fmax_temp_alloc lut_alloc rate_max_alloc cluster_array_alloc clk_data_alloc clks_alloc : Alloc

-- What is not code of the driver. `device` answers a read of an address from the accesses made so
-- far, newest first. The `of_` fields are the device tree: `of_read_array_error` is the return code
-- of an array read, `some` the error, and the other options are values that may be missing. The `regulator_` fields give an `int` as its 32-bit pattern.
pub record Env : Type 0 where
  pub device : List Access → ℕ → ℕ
  pub alloc : Alloc → Bool
  pub of_find_property : String → Option ℕ
  pub of_read_array_error : String → ℕ → Option ℕ
  pub of_read_array : String → ℕ → List ℕ
  pub of_read_u32_index : String → ℕ → Option ℕ
  pub of_read_bool : String → Bool
  pub regulator_list_corner_voltage : Cluster → ℕ → ℕ
  pub regulator_count_voltages : Cluster → ℕ
  pub platform : Platform

-- The whole state: the two static clocks, and the accesses so far, newest first.
pub record World : Type 0 where
  pub env : Env
  pub bus : List Access
  pub clocks : Cluster → ClkOsm
