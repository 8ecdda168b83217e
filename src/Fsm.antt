-- ===== src/Fsm.antt =====
-- `clk_osm_setup_fsms` of clk-cpu-osm-660.c: enables the hardware's state machines that the device
-- tree asks for, with their timers.
pub mod Control
use xiaomi_pad4_ubuntu_touch.Base.{ℕ, ◌^◌, ◌||◌, bit_or, bval}
use xiaomi_pad4_ubuntu_touch.Osm.{
  Cluster, M, ◌>>=◌, ◌>>◌, when, get, clk_osm_write_reg, clk_osm_count_ns, set_bits, set_timer,
}
use xiaomi_pad4_ubuntu_touch.Osm.Regs.{
  vmin_reduc_enable_reg, vmin_reduc_timer_reg, pdn_fsm_ctrl_reg, cc_boost_timer_reg0,
  cc_boost_timer_reg1, cc_boost_timer_reg2, cc_boost_en_mask, ps_boost_en_mask, dcvs_boost_en_mask,
  pc_ret_exit_droop_en_mask, wfx_droop_en_mask, dcvs_droop_en_mask, safe_freq_wait_ns,
  dext_decrement_wait_ns, dcvs_boost_timer_reg0, dcvs_boost_timer_reg1, dcvs_boost_timer_reg2,
  ps_boost_timer_reg0, ps_boost_timer_reg1, ps_boost_timer_reg2, boost_prog_sync_delay_reg,
  droop_ctrl_reg, droop_release_timer_ctrl, droop_prog_sync_delay_reg, droop_unstall_timer_ctrl_reg,
  droop_wait_to_release_timer_ctrl0_reg, osm_pll_sw_override_en, pll_sw_override_droop_en,
  dcvs_droop_timer_ctrl, pll_wait_lock_time_ns,
}

-- val |= BVAL(15, 0, count(low)); val |= BVAL(31, 16, count(high)); between one read and one write.
abbrev pub set_timers : Cluster → ℕ → ℕ → ℕ → M (Unit {0})
set_timers k reg low high = do
  c ← get k
  set_bits k reg
      (bit_or (bval 15 0 (clk_osm_count_ns c low)) (bval 31 16 (clk_osm_count_ns c high)))

-- A boost machine: its enable bit in the control register, and its three timer registers.
abbrev pub enable_boost : Cluster → ℕ → ℕ → ℕ → ℕ → M (Unit {0})
enable_boost k mask timer0 timer1 timer2 = do
  set_bits k pdn_fsm_ctrl_reg mask
  set_timers k timer0 pll_wait_lock_time_ns safe_freq_wait_ns
  set_timers k timer1 pll_wait_lock_time_ns pll_wait_lock_time_ns
  set_timer k timer2 15 0 dext_decrement_wait_ns

pub enable_reduction : Cluster → M (Unit {0})
enable_reduction k = do
  c ← get k
  set_bits k vmin_reduc_enable_reg 1
  clk_osm_write_reg k (bval 15 0 (clk_osm_count_ns c 10000)) vmin_reduc_timer_reg

-- The WFx and the PC/RET machine: their halves of the two droop timers.
abbrev pub enable_droop : Cluster → ℕ → ℕ → ℕ → M (Unit {0})
enable_droop k mask msb lsb = do
  set_bits k pdn_fsm_ctrl_reg mask
  set_timer k droop_unstall_timer_ctrl_reg msb lsb 500
  set_timer k droop_wait_to_release_timer_ctrl0_reg msb lsb 250

pub setup_droop_timing : Cluster → M (Unit {0})
setup_droop_timing k = do
  c ← get k
  clk_osm_write_reg k 0x1 droop_prog_sync_delay_reg
  clk_osm_write_reg k (clk_osm_count_ns c 5) droop_release_timer_ctrl
  clk_osm_write_reg k (clk_osm_count_ns c 500) dcvs_droop_timer_ctrl
  set_bits k droop_ctrl_reg (bit_or (2 ^ 31) (bit_or (bval 22 16 0x2) (bval 6 0 0x8)))

pub clk_osm_setup_fsms : Cluster → M (Unit {0})
unfolding enable_reduction setup_droop_timing
clk_osm_setup_fsms k = do
  c ← get k
  when c.red_fsm_en (enable_reduction k)
  when c.boost_fsm_en
      (enable_boost k cc_boost_en_mask cc_boost_timer_reg0 cc_boost_timer_reg1 cc_boost_timer_reg2)
  when c.safe_fsm_en (
      enable_boost k dcvs_boost_en_mask dcvs_boost_timer_reg0 dcvs_boost_timer_reg1
        dcvs_boost_timer_reg2)
  when c.ps_fsm_en
      (enable_boost k ps_boost_en_mask ps_boost_timer_reg0 ps_boost_timer_reg1 ps_boost_timer_reg2)
  when (c.boost_fsm_en || (c.safe_fsm_en || c.ps_fsm_en))
      (clk_osm_write_reg k 0x5 boost_prog_sync_delay_reg)
  when c.wfx_fsm_en (enable_droop k wfx_droop_en_mask 31 16)
  when c.pc_fsm_en (enable_droop k pc_ret_exit_droop_en_mask 15 0)
  when c.droop_fsm_en (set_bits k pdn_fsm_ctrl_reg dcvs_droop_en_mask)
  when (c.wfx_fsm_en || (c.ps_fsm_en || c.droop_fsm_en)) (setup_droop_timing k)
  set_bits k osm_pll_sw_override_en pll_sw_override_droop_en
