-- ===== src/Osm/Regs/Seq.antt =====
-- Constants of clk-cpu-osm-660.c: the sequencer, the array power mux and the memory accelerator.
use Prim.Native.Nat.{ℕ, ◌+◌, ◌*◌}

abbrev pub seq_reg1_offset : ℕ
seq_reg1_offset = 0x1048

abbrev pub osm_seq_minus_one : ℕ
osm_seq_minus_one = 0xff

abbrev pub itm_cl0_disable_cl1_enabled : ℕ
itm_cl0_disable_cl1_enabled = 0x2

abbrev pub itm_cl0_enabled_cl1_disable : ℕ
itm_cl0_enabled_cl1_disable = 0x1

abbrev pub apm_mx_mode : ℕ
apm_mx_mode = 0

abbrev pub apm_apc_mode : ℕ
apm_apc_mode = 2

abbrev pub apm_mode_switch_mask : ℕ
apm_mode_switch_mask = 0x1f

abbrev pub apm_mx_mode_val : ℕ
apm_mx_mode_val = 0

abbrev pub apm_apc_mode_val : ℕ
apm_apc_mode_val = 0x3

abbrev pub seq_mem_addr : ℕ
seq_mem_addr = 0x500

abbrev pub seq_cfg_br_addr : ℕ
seq_cfg_br_addr = 0x170

abbrev pub max_mem_acc_levels : ℕ
max_mem_acc_levels = 3

abbrev pub max_mem_acc_val_per_level : ℕ
max_mem_acc_val_per_level = 3

abbrev pub max_mem_acc_values : ℕ
max_mem_acc_values = 9

abbrev pub mem_acc_apm_read_mask : ℕ
mem_acc_apm_read_mask = 0xff

-- SEQ_REG(n)
abbrev pub seq_reg : ℕ → ℕ
seq_reg n = 0x300 + n * 4
