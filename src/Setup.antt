-- ===== src/Setup.antt =====
-- What clk-cpu-osm-660.c programs once, in place of a secure world: the sequencer, the array power
-- mux, the handoff from the ITM, the PLL, and the corners at which the power mux switches.
pub mod Image
pub mod Sequencer
use Image.{seq_instr, seq_br_instr}
use xiaomi_pad4_ubuntu_touch.Base.{
  ℕ, ◌+◌, ◌*◌, ◌^◌, List, [], ◌∷◌, not, u32, u64, bit_or, bval, ◌<<<◌, ◌==◌, if◌then◌else◌,
}
use xiaomi_pad4_ubuntu_touch.Osm.{
  Cluster, pwrcl, perfcl, ClkOsm, M, ◌>>=◌, ◌>>◌, pure, when, get, clk_osm_write_reg, clk_osm_mb,
  clk_osm_mb_pll, scm_io_write, writel, udelay,
}
use xiaomi_pad4_ubuntu_touch.Osm.Regs.{
  seq_reg, seq_mem_addr, seq_cfg_br_addr, seq_reg1_offset, spm_cc_ctrl, pll_min_lval, pll_post_div1,
  pll_post_div2, gpll_sel, pll_early_sel, pll_main_sel, rcg_update, rcg_update_success, apm_mx_mode,
  apm_mx_mode_val, apm_mode_switch_mask, apm_apc_mode, apm_apc_mode_val,
  itm_cl0_disable_cl1_enabled, itm_cl0_enabled_cl1_disable, pll_mode, pll_l_val, pll_user_ctrl,
  pll_config_ctl_lo, pll_wait_lock_time_us,
}

-- The loop `write(words[i], start + i * 4)` from word `i` on.
pub write_words : Cluster → ℕ → ℕ → List ℕ → M (Unit {0})
write_words k start i [] = pure tt
write_words k start i (v ∷ words) =
    clk_osm_write_reg k v (start + i * 4) >> write_words k start (i + 1) words

pub clk_osm_setup_sequencer : Cluster → M (Unit {0})
clk_osm_setup_sequencer k = do
  write_words k seq_mem_addr 0 seq_instr
  write_words k seq_cfg_br_addr 0 seq_br_instr

pub clk_osm_setup_cluster_pll : Cluster → M (Unit {0})
clk_osm_setup_cluster_pll k = do
  c ← get k
  let pll = c.vbases.pll_base
  writel 0x0 (pll + pll_mode)
  writel 0x20 (pll + pll_l_val)
  writel 0x01000008 (pll + pll_user_ctrl)
  writel 0x20004AA8 (pll + pll_config_ctl_lo)
  writel 0x2 (pll + pll_mode)
  clk_osm_mb_pll k
  udelay pll_wait_lock_time_us
  writel 0x6 (pll + pll_mode)
  clk_osm_mb_pll k
  udelay 50
  writel 0x7 (pll + pll_mode)

pub clk_osm_setup_itm_to_osm_handoff : M (Unit {0})
clk_osm_setup_itm_to_osm_handoff = do
  cp ← get pwrcl
  cf ← get perfcl
  clk_osm_write_reg pwrcl cp.apcs_itm_present (seq_reg 37)
  clk_osm_write_reg pwrcl 0 (seq_reg 38)
  clk_osm_write_reg perfcl cf.apcs_itm_present (seq_reg 37)
  clk_osm_write_reg perfcl 0 (seq_reg 38)
  clk_osm_write_reg pwrcl itm_cl0_disable_cl1_enabled (seq_reg 39)
  clk_osm_write_reg perfcl itm_cl0_enabled_cl1_disable (seq_reg 39)

pub clk_osm_program_apm_regs : Cluster → M (Unit {0})
clk_osm_program_apm_regs k = do
  c ← get k
  clk_osm_write_reg k c.apm_mode_ctl (seq_reg 2)
  clk_osm_write_reg k c.apm_ctrl_status (seq_reg 3)
  clk_osm_write_reg k apm_mx_mode (seq_reg 77)
  clk_osm_write_reg k apm_mx_mode_val (seq_reg 78)
  clk_osm_write_reg k apm_mode_switch_mask (seq_reg 79)
  clk_osm_write_reg k apm_apc_mode (seq_reg 80)
  clk_osm_write_reg k apm_apc_mode_val (seq_reg 81)

-- The body of `clk_osm_do_additional_setup` past its guard.
pub setup_without_tz : Cluster → M (Unit {0})
unfolding clk_osm_program_apm_regs clk_osm_setup_itm_to_osm_handoff clk_osm_setup_sequencer
setup_without_tz k = do
  c ← get k
  clk_osm_write_reg k (bval 23 16 0xF) spm_cc_ctrl
  clk_osm_write_reg k c.l_val_base (seq_reg 0)
  clk_osm_write_reg k pll_min_lval (seq_reg 21)
  clk_osm_write_reg k c.apcs_pll_user_ctl (seq_reg 18)
  clk_osm_write_reg k pll_post_div2 (seq_reg 19)
  clk_osm_write_reg k pll_post_div1 (seq_reg 29)
  clk_osm_program_apm_regs k
  clk_osm_write_reg k c.apcs_cfg_rcgr (seq_reg 16)
  clk_osm_write_reg k c.apcs_cmd_rcgr (seq_reg 33)
  clk_osm_write_reg k rcg_update (seq_reg 34)
  clk_osm_write_reg k gpll_sel (seq_reg 17)
  clk_osm_write_reg k pll_early_sel (seq_reg 82)
  clk_osm_write_reg k pll_main_sel (seq_reg 83)
  clk_osm_write_reg k rcg_update_success (seq_reg 84)
  clk_osm_write_reg k rcg_update (seq_reg 85)
  clk_osm_setup_itm_to_osm_handoff
  clk_osm_setup_sequencer pwrcl
  clk_osm_setup_sequencer perfcl

pub clk_osm_do_additional_setup : Cluster → M (Unit {0})
unfolding setup_without_tz
clk_osm_do_additional_setup k = do c ← get k; when c.secure_init (setup_without_tz k)

-- The corner `vc` in an instruction: `op | vc << 6`.
abbrev pub with_corner : ℕ → ℕ → ℕ
with_corner op vc = bit_or op (u32 (vc <<< 6))

abbrev pub phys : ClkOsm → ℕ → ℕ
phys c n = u64 (c.pbases.osm_base + seq_reg n)

abbrev pub apm_vc_direct : Cluster → ClkOsm → M (Unit {0})
apm_vc_direct k c = do
  clk_osm_write_reg k c.apm_threshold_vc (seq_reg 1)
  clk_osm_write_reg k c.apm_crossover_vc (seq_reg 72)
  clk_osm_write_reg k (phys c 1) (seq_reg 8)
  clk_osm_write_reg k c.apm_threshold_vc (seq_reg 15)
  clk_osm_write_reg k c.apm_threshold_pre_vc (seq_reg 31)
  clk_osm_write_reg k (with_corner 0x3b c.apm_threshold_vc) (seq_reg 73)
  clk_osm_write_reg k (with_corner 0x39 c.apm_threshold_vc) (seq_reg 76)
  clk_osm_mb k

abbrev pub apm_vc_scm : Cluster → ClkOsm → M (Unit {0})
apm_vc_scm k c = do
  when (not (c.apm_threshold_vc == 0)) (clk_osm_write_reg k c.apm_threshold_vc seq_reg1_offset)
  scm_io_write (phys c 72) c.apm_crossover_vc
  scm_io_write (phys c 15) c.apm_threshold_vc
  scm_io_write (phys c 31) c.apm_threshold_pre_vc
  scm_io_write (phys c 76) (with_corner 0x39 c.apm_threshold_vc)

pub clk_osm_apm_vc_setup : Cluster → M (Unit {0})
clk_osm_apm_vc_setup k = do c ← get k; if c.secure_init then apm_vc_direct k c else apm_vc_scm k c
