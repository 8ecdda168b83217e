-- ===== src/Cycle.antt =====
-- The cycle counter of clk-cpu-osm-660.c: how it is started, how its 32 bits are extended to 64,
-- and the estimate that the debug interrupt prints.
pub mod Count
pub mod Estimate
use xiaomi_pad4_ubuntu_touch.Base.{
  ℕ, zero, suc, ◌+◌, ◌-◌, ◌/◌, ◌^◌, Bool, not, ◌&&◌, List, [], ◌∷◌, bit_and, bit_or, bval, u32, u64,
  sub32, sign_extend, ltb, ◌==◌, if◌then◌else◌,
}
use xiaomi_pad4_ubuntu_touch.Osm.{
  Cluster, pwrcl, perfcl, cpu_reg_mask, ClkOsm, World, clock, Result, ok, M, ◌>>=◌, ◌>>◌, pure,
  crash, when, get, modify, put, clk_osm_write_reg, clk_osm_read_reg, udelay,
}
use xiaomi_pad4_ubuntu_touch.Osm.Regs.{
  osm_cycle_counter_ctrl_reg, osm_cycle_counter_status_reg, osm_cycle_counter_use_xo_edge_en,
  dcvs_perf_state_deviation_intr_stat, dcvs_perf_state_deviation_intr_clear,
  dcvs_perf_state_deviation_corrected_intr_stat, dcvs_perf_state_deviation_corrected_intr_clear,
  dcvs_perf_state_met_intr_stat, dcvs_perf_state_met_intr_clr,
}

-- A division; by 0 it is undefined.
abbrev pub divided : ℕ → ℕ → M ℕ
divided a b = if b == 0 then crash else pure (a / b)

pub clk_osm_setup_cycle_counters : Cluster → M (Unit {0})
clk_osm_setup_cycle_counters k = do
  c ← get k
  ratio ← divided c.osm_clk_rate c.xo_clk_rate
  clk_osm_write_reg k
      (bit_or 1 (bit_or (bval 5 1 (sub32 ratio 1)) osm_cycle_counter_use_xo_edge_en))
      osm_cycle_counter_ctrl_reg
  modify k λ c. record c { total_cycle_counter = 0; prev_cycle_counter = 0 }

-- Adds what the counter has advanced by, from its value at the read before. UINT_MAX is 2^32 - 1,
-- and `UINT_MAX - prev + val` is a u32.
pub advance : ℕ → ClkOsm → ClkOsm
advance val c =
    if ltb val c.prev_cycle_counter
    then (record c {
      total_cycle_counter =
          u64 (c.total_cycle_counter + u32 (2 ^ 32 - 1 - c.prev_cycle_counter + val));
      prev_cycle_counter = val;
    })
    else record c {
      total_cycle_counter = u64 (c.total_cycle_counter + (val - c.prev_cycle_counter));
      prev_cycle_counter = val;
    }

-- The locked part of `clk_osm_get_cpu_cycle_counter`, for the cluster of the CPU.
pub read_cycle_counter : Cluster → M ℕ
unfolding advance
read_cycle_counter k = do
  val ← clk_osm_read_reg k osm_cycle_counter_status_reg
  modify k (advance val)
  c ← get k
  pure c.total_cycle_counter

-- The cluster whose mask covers the CPU's hardware id: the part of `logical_cpu_to_clk` past the
-- device tree.
abbrev pub covers : ℕ → ℕ → Bool
covers mask hwid = bit_or hwid mask == mask

pub data Owner : Type 0 where
  owned_by : Cluster → Owner
  no_clock : Owner

unfoldable pub cluster_of_hwid : ℕ → Owner
cluster_of_hwid hwid =
    if covers (cpu_reg_mask pwrcl) hwid
    then owned_by pwrcl
    else if covers (cpu_reg_mask perfcl) hwid
    then owned_by perfcl
    else no_clock

pub clk_osm_get_cpu_cycle_counter : Owner → M ℕ
unfolding read_cycle_counter
clk_osm_get_cpu_cycle_counter no_clock = pure 0
clk_osm_get_cpu_cycle_counter (owned_by k) = read_cycle_counter k

-- Clears an interrupt if its status says that it is pending.
pub acknowledge : Cluster → ℕ → ℕ → M (Unit {0})
acknowledge k stat clear = do
  val ← clk_osm_read_reg k stat
  when (not (bit_and val 1 == 0)) (clk_osm_write_reg k 1 clear)

-- The loop over the reads that are left; `second - first` is of `unsigned long`, from values of
-- type `int`, which are sign-extended.
pub sample : Cluster → ℕ → ℕ → ℕ → ℕ → M ℕ
sample k zero delay factor total_delta = pure total_delta
sample k (suc n) delay factor total_delta = do
  first ← clk_osm_read_reg k osm_cycle_counter_status_reg
  when (not (delay == 0)) (udelay delay)
  second ← clk_osm_read_reg k osm_cycle_counter_status_reg
  sample k n delay factor
      (u64 (total_delta + u64 (sign_extend second + 2 ^ 64 - sign_extend first) / factor))

-- The estimate that is printed. The loop divides by `factor`, the last line by the field itself.
pub clk_osm_debug_irq_cb : Cluster → M ℕ
clk_osm_debug_irq_cb k = do
  acknowledge k dcvs_perf_state_deviation_intr_stat dcvs_perf_state_deviation_intr_clear
  acknowledge k dcvs_perf_state_deviation_corrected_intr_stat
      dcvs_perf_state_deviation_corrected_intr_clear
  acknowledge k dcvs_perf_state_met_intr_stat dcvs_perf_state_met_intr_clr
  c ← get k
  let factor = if c.cycle_counter_factor == 0 then 1 else c.cycle_counter_factor
  total_delta ← sample k c.cycle_counter_reads c.cycle_counter_delay factor 0
  divided total_delta c.cycle_counter_factor
