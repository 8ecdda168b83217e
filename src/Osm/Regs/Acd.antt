-- ===== src/Osm/Regs/Acd.antt =====
-- Constants of clk-cpu-osm-660.c: the adaptive clock distribution block.
use Prim.Native.Nat.{ℕ}

abbrev pub acd_hw_version : ℕ
acd_hw_version = 0x0

abbrev pub acdcr : ℕ
acdcr = 0x4

abbrev pub acdtd : ℕ
acdtd = 0x8

abbrev pub acdsscr : ℕ
acdsscr = 0x28

abbrev pub acd_extint_cfg : ℕ
acd_extint_cfg = 0x30

abbrev pub acd_dcvs_sw : ℕ
acd_dcvs_sw = 0x34

abbrev pub acd_gfmux_cfg : ℕ
acd_gfmux_cfg = 0x3c

abbrev pub acd_readout_cfg : ℕ
acd_readout_cfg = 0x48

abbrev pub acd_autoxfer_cfg : ℕ
acd_autoxfer_cfg = 0x80

abbrev pub acd_autoxfer : ℕ
acd_autoxfer = 0x84

abbrev pub acd_autoxfer_ctl : ℕ
acd_autoxfer_ctl = 0x88

abbrev pub acd_autoxfer_status : ℕ
acd_autoxfer_status = 0x8c

abbrev pub acd_write_ctl : ℕ
acd_write_ctl = 0x90

abbrev pub acd_write_status : ℕ
acd_write_status = 0x94

abbrev pub acd_readout : ℕ
acd_readout = 0x98

abbrev pub acd_master_only_reg_addr : ℕ
acd_master_only_reg_addr = 0x80

abbrev pub acd_write_ctl_update_en : ℕ
acd_write_ctl_update_en = 1

abbrev pub acd_write_ctl_select_shift : ℕ
acd_write_ctl_select_shift = 1

abbrev pub acd_gfmux_cfg_select : ℕ
acd_gfmux_cfg_select = 1

abbrev pub acd_autoxfer_start_clear : ℕ
acd_autoxfer_start_clear = 0

abbrev pub acd_autoxfer_start_set : ℕ
acd_autoxfer_start_set = 1

abbrev pub auto_xfer_done_mask : ℕ
auto_xfer_done_mask = 1

abbrev pub acd_dcvs_sw_dcvs_in_prgr_set : ℕ
acd_dcvs_sw_dcvs_in_prgr_set = 1

abbrev pub acd_dcvs_sw_dcvs_in_prgr_clear : ℕ
acd_dcvs_sw_dcvs_in_prgr_clear = 0

abbrev pub acd_local_transfer_timeout_ns : ℕ
acd_local_transfer_timeout_ns = 500
