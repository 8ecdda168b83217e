-- ===== src/Probe.antt =====
-- `clk_cpu_osm_driver_probe` of clk-cpu-osm-660.c: the order in which the driver sets up the
-- hardware and registers with the kernel, and what it undoes when a step fails.
pub mod Order
pub mod Cpus
use Prim.Native.String.{String, ◌++◌}
use xiaomi_pad4_ubuntu_touch.Base.{
  ℕ, ◌+◌, ◌^◌, Bool, true, false, not, List, [], ◌∷◌, Option, none, some, bit_and, ◌>>>◌, ◌==◌,
  get_or, if◌then◌else◌,
}
use xiaomi_pad4_ubuntu_touch.Osm.{
  Cluster, pwrcl, perfcl, ClkId, sys_apcsaux_clk_gcc, pwrcl_hw, perfcl_hw, osm_clk_src,
  register_panic_notifier, get_online_cpus, put_online_cpus, of_platform_populate,
  register_cpu_cycle_counter_cb, clk_data_alloc, clks_alloc, World, Result, ok, err, fault, M,
  ◌>>=◌, ◌>>◌, pure, fail, crash, attempt, when, get, readl, allocate, of_error,
  of_property_read_bool,
}
use xiaomi_pad4_ubuntu_touch.Config.{clk_osm_parse_dt_configs}
use xiaomi_pad4_ubuntu_touch.Resources.{clk_osm_resources_init}
use xiaomi_pad4_ubuntu_touch.Lut.{clk_osm_get_lut}
use xiaomi_pad4_ubuntu_touch.Corners.{
  clk_osm_resolve_open_loop_voltages, clk_osm_resolve_crossover_corners,
}
use xiaomi_pad4_ubuntu_touch.Cycle.{Owner, owned_by, no_clock, clk_osm_setup_cycle_counters}
use xiaomi_pad4_ubuntu_touch.HwTable.{clk_osm_setup_hw_table}
use xiaomi_pad4_ubuntu_touch.Policy.{
  clk_osm_set_cc_policy, clk_osm_set_llm_freq_policy, clk_osm_set_llm_volt_policy,
}
use xiaomi_pad4_ubuntu_touch.Fsm.{clk_osm_setup_fsms}
use xiaomi_pad4_ubuntu_touch.Setup.{
  clk_osm_do_additional_setup, clk_osm_apm_vc_setup, clk_osm_setup_cluster_pll,
}
use xiaomi_pad4_ubuntu_touch.MemAcc.{clk_osm_program_mem_acc_regs}
use xiaomi_pad4_ubuntu_touch.Opp.{OppPair}
use xiaomi_pad4_ubuntu_touch.Registration.{
  call_kernel, clk_osm_setup_irq, logical_cpu_to_clk, populate_opp_table, populate_debugfs_dir,
}

-- A return code that is only worth a message.
abbrev pub message_only : Result (Unit {0}) → M (Unit {0})
message_only (ok u) = pure tt
message_only (err e) = pure tt
message_only fault = crash

abbrev pub warn : M (Unit {0}) → M (Unit {0})
warn m = attempt m >>= message_only

-- The same step for one cluster after the other.
abbrev pub both : (Cluster → M (Unit {0})) → M (Unit {0})
both step = do step pwrcl; step perfcl

-- devm_clk_get(dev, name)
abbrev pub devm_clk_get : String → M (Unit {0})
devm_clk_get name w = of_error (w.env.platform.clk_get_error name) w

-- `%d` of a number of three bits.
abbrev pub bin_text : ℕ → String
bin_text bin = get_or ("0" ∷ "1" ∷ "2" ∷ "3" ∷ "4" ∷ "5" ∷ "6" ∷ "7" ∷ []) bin ""

abbrev pub lut_name : Cluster → ℕ → String
lut_name pwrcl bin = "qcom,pwrcl-speedbin" ++ (bin_text bin ++ "-v0")
lut_name perfcl bin = "qcom,perfcl-speedbin" ++ (bin_text bin ++ "-v0")

-- The speed bin of a cluster; 0 in the property's name if there is no fuse.
abbrev pub read_speedbin : Cluster → M ℕ
read_speedbin k = do
  c ← get k
  if c.vbases.efuse_base == 0
      then pure 0
      else (readl c.vbases.efuse_base >>= λ pte_efuse. pure (bit_and (pte_efuse >>> 29) 0x7))

pub get_lut_of : Cluster → M (Unit {0})
get_lut_of k = do speedbin ← read_speedbin k; clk_osm_get_lut k (lut_name k speedbin)

-- Up to the mapped resources.
unfoldable pub probe_resources : M (Unit {0})
probe_resources = do
  devm_clk_get "xo_a"
  devm_clk_get "aux_clk"
  allocate clk_data_alloc
  allocate clks_alloc
  clk_osm_parse_dt_configs
  clk_osm_resources_init

-- The tables, the voltages and the corners; only a crossover corner may be missing.
pub probe_tables : M (Unit {0})
probe_tables = do
  both get_lut_of
  both clk_osm_resolve_open_loop_voltages
  warn (clk_osm_resolve_crossover_corners pwrcl none)
  warn
      (clk_osm_resolve_crossover_corners perfcl (some "qcom,perfcl-apcs-mem-acc-threshold-voltage"))

-- The registers of both clusters, and the interrupts.
pub probe_hardware : M (Unit {0})
probe_hardware = do
  both clk_osm_setup_cycle_counters
  both clk_osm_setup_hw_table
  clk_osm_set_cc_policy
  clk_osm_set_llm_freq_policy
  clk_osm_set_llm_volt_policy
  both clk_osm_setup_fsms
  both clk_osm_do_additional_setup
  both clk_osm_program_mem_acc_regs
  both clk_osm_apm_vc_setup
  warn (clk_osm_setup_irq pwrcl "pwrcl-irq")
  warn (clk_osm_setup_irq perfcl "perfcl-irq")
  pll_setup ← of_property_read_bool "qcom,osm-pll-setup"
  when pll_setup (both clk_osm_setup_cluster_pll)

abbrev pub devm_clk_register : ClkId → M (Unit {0})
devm_clk_register id w = of_error (w.env.platform.clk_register_error id) w

pub register_clks : List ClkId → M (Unit {0})
register_clks [] = pure tt
register_clks (id ∷ ids) = do devm_clk_register id; register_clks ids

-- The panic notifiers, the clocks and their provider.
pub probe_registration : M (Unit {0})
unfolding register_clks
probe_registration = do
  both λ k. call_kernel (register_panic_notifier k)
  λ w. register_clks w.env.platform.osm_qcom_clk_hws w
  λ w. of_error w.env.platform.add_provider_error w

abbrev pub init_rate : ℕ
init_rate = 300000000

abbrev pub osm_clk_init_rate : ℕ
osm_clk_init_rate = 200000000

abbrev pub boot_rate : Bool → Cluster → ℕ
boot_rate true pwrcl = 1382400000
boot_rate true perfcl = 1670400000
boot_rate false pwrcl = 1401600000
boot_rate false perfcl = 1747200000

-- of_device_is_compatible(of, name)
abbrev pub of_device_is_compatible : String → M Bool
of_device_is_compatible name w = pure (w.env.platform.device_is_compatible name) w

abbrev pub hw_of : Cluster → ClkId
hw_of pwrcl = pwrcl_hw
hw_of perfcl = perfcl_hw

-- The clock framework of the kernel, and `dev_pm_opp_add` of a CPU's device.
module _ (clk_set_rate : ClkId → ℕ → M (Unit {0})) (clk_prepare_enable : ClkId → M (Unit {0}))
    (clk_disable_unprepare : ClkId → World → World) (dev_pm_opp_add : ℕ → OppPair → Option ℕ) where
  -- `clk_prepare_enable` of no clock does nothing, successfully.
  abbrev pub enable_owner : Owner → M (Unit {0})
  enable_owner no_clock = pure tt
  enable_owner (owned_by k) = warn (clk_prepare_enable (hw_of k))

  -- The loop over the online CPUs.
  unfoldable pub enable_cpus : List ℕ → M (Unit {0})
  enable_cpus [] = pure tt
  enable_cpus (cpu ∷ cpus) = do owner ← logical_cpu_to_clk cpu; enable_owner owner; enable_cpus cpus

  unfoldable pub enable_online_cpus : M (Unit {0})
  unfolding enable_cpus
  enable_online_cpus w = enable_cpus w.env.platform.online_cpus w

  -- From `get_online_cpus` to `put_online_cpus`.
  unfoldable pub probe_cpus : M (Unit {0})
  probe_cpus = do
    call_kernel get_online_cpus
    enable_online_cpus
    is_sdm630 ← of_device_is_compatible "qcom,clk-cpu-osm-sdm630"
    clk_set_rate pwrcl_hw (boot_rate is_sdm630 pwrcl)
    clk_set_rate perfcl_hw (boot_rate is_sdm630 perfcl)
    _ ← populate_opp_table dev_pm_opp_add
    base ← populate_debugfs_dir pwrcl false
    _ ← populate_debugfs_dir perfcl base
    call_kernel of_platform_populate
    call_kernel register_cpu_cycle_counter_cb
    call_kernel put_online_cpus

  -- The steps whose failure goes to `exit2`.
  pub probe_rates : M (Unit {0})
  probe_rates = do
    clk_set_rate osm_clk_src osm_clk_init_rate
    clk_set_rate pwrcl_hw init_rate
    clk_set_rate perfcl_hw init_rate
    probe_cpus

  abbrev disable_after : Result (Unit {0}) → M (Unit {0})
  disable_after (ok u) w = (ok u, w)
  disable_after (err e) w = (err e, clk_disable_unprepare sys_apcsaux_clk_gcc w)
  disable_after fault w = (fault, w)

  pub clk_cpu_osm_driver_probe : M (Unit {0})
  clk_cpu_osm_driver_probe = do
    probe_resources
    probe_tables
    probe_hardware
    probe_registration
    clk_set_rate sys_apcsaux_clk_gcc init_rate
    warn (clk_prepare_enable sys_apcsaux_clk_gcc)
    attempt probe_rates >>= disable_after
