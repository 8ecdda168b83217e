-- ===== src/Osm/Regs/Pll.antt =====
-- Constants of clk-cpu-osm-660.c: the PLL, the clock mux and the fuses.
use Prim.Native.Nat.{ℕ}

abbrev pub pll_mode : ℕ
pll_mode = 0x0

abbrev pub pll_l_val : ℕ
pll_l_val = 0x4

abbrev pub pll_user_ctrl : ℕ
pll_user_ctrl = 0xC

abbrev pub pll_config_ctl_lo : ℕ
pll_config_ctl_lo = 0x10

abbrev pub pll_wait_lock_time_us : ℕ
pll_wait_lock_time_us = 10

abbrev pub pll_wait_lock_time_ns : ℕ
pll_wait_lock_time_ns = 0x2710

abbrev pub pll_min_lval : ℕ
pll_min_lval = 43

abbrev pub gpll_sel : ℕ
gpll_sel = 0x400

abbrev pub pll_early_sel : ℕ
pll_early_sel = 0x500

abbrev pub pll_main_sel : ℕ
pll_main_sel = 0x300

abbrev pub rcg_update : ℕ
rcg_update = 0x3

abbrev pub rcg_update_success : ℕ
rcg_update_success = 0x2

abbrev pub pll_post_div1 : ℕ
pll_post_div1 = 0x1F

abbrev pub pll_post_div2 : ℕ
pll_post_div2 = 0x11F

abbrev pub pll_sw_override_droop_en : ℕ
pll_sw_override_droop_en = 1

abbrev pub pwrcl_efuse_shift : ℕ
pwrcl_efuse_shift = 29

abbrev pub pwrcl_efuse_mask : ℕ
pwrcl_efuse_mask = 0x7

abbrev pub perfcl_efuse_shift : ℕ
perfcl_efuse_shift = 29

abbrev pub perfcl_efuse_mask : ℕ
perfcl_efuse_mask = 0x7
