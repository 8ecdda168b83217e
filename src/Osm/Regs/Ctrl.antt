-- ===== src/Osm/Regs/Ctrl.antt =====
-- Constants of clk-cpu-osm-660.c: the control registers of an OSM cluster and the limits of its table.
use Prim.Native.Nat.{ℕ}

abbrev pub version_reg : ℕ
version_reg = 0x0

abbrev pub osm_table_size : ℕ
osm_table_size = 40

abbrev pub max_virtual_corner : ℕ
max_virtual_corner = 0x27

abbrev pub max_cluster_cnt : ℕ
max_cluster_cnt = 2

abbrev pub llm_sw_override_cnt : ℕ
llm_sw_override_cnt = 3

abbrev pub single_core : ℕ
single_core = 1

abbrev pub max_core_count : ℕ
max_core_count = 4

abbrev pub debug_reg_num : ℕ
debug_reg_num = 3

abbrev pub enable_reg : ℕ
enable_reg = 0x1004

abbrev pub index_reg : ℕ
index_reg = 0x1150

abbrev pub freq_reg : ℕ
freq_reg = 0x1154

abbrev pub volt_reg : ℕ
volt_reg = 0x1158

abbrev pub override_reg : ℕ
override_reg = 0x115C

abbrev pub spare_reg : ℕ
spare_reg = 0x1164

abbrev pub osm_cycle_counter_ctrl_reg : ℕ
osm_cycle_counter_ctrl_reg = 0x1F00

abbrev pub osm_cycle_counter_status_reg : ℕ
osm_cycle_counter_status_reg = 0x1F04

abbrev pub osm_core_table_size : ℕ
osm_core_table_size = 8192

abbrev pub osm_reg_size : ℕ
osm_reg_size = 32

abbrev pub osm_cycle_counter_use_xo_edge_en : ℕ
osm_cycle_counter_use_xo_edge_en = 0x100

abbrev pub cc_zero_behav_ctrl : ℕ
cc_zero_behav_ctrl = 0x100C

abbrev pub spm_cc_dcvs_disable : ℕ
spm_cc_dcvs_disable = 0x1020

abbrev pub spm_cc_ctrl : ℕ
spm_cc_ctrl = 0x1028

abbrev pub spm_cc_hysteresis : ℕ
spm_cc_hysteresis = 0x101C

abbrev pub spm_core_ret_mapping : ℕ
spm_core_ret_mapping = 0x1024

abbrev pub llm_freq_vote_hysteresis : ℕ
llm_freq_vote_hysteresis = 0x102C

abbrev pub llm_volt_vote_hysteresis : ℕ
llm_volt_vote_hysteresis = 0x1030

abbrev pub llm_intf_dcvs_disable : ℕ
llm_intf_dcvs_disable = 0x1034

abbrev pub enable_override : ℕ
enable_override = 1

abbrev pub llm_sw_override_reg : ℕ
llm_sw_override_reg = 0x1038

abbrev pub vmin_reduc_enable_reg : ℕ
vmin_reduc_enable_reg = 0x103C

abbrev pub vmin_reduc_timer_reg : ℕ
vmin_reduc_timer_reg = 0x1040

abbrev pub pdn_fsm_ctrl_reg : ℕ
pdn_fsm_ctrl_reg = 0x1070

abbrev pub cc_boost_timer_reg0 : ℕ
cc_boost_timer_reg0 = 0x1074

abbrev pub cc_boost_timer_reg1 : ℕ
cc_boost_timer_reg1 = 0x1078

abbrev pub cc_boost_timer_reg2 : ℕ
cc_boost_timer_reg2 = 0x107C

abbrev pub cc_boost_en_mask : ℕ
cc_boost_en_mask = 1

abbrev pub ps_boost_en_mask : ℕ
ps_boost_en_mask = 2

abbrev pub dcvs_boost_en_mask : ℕ
dcvs_boost_en_mask = 4

abbrev pub pc_ret_exit_droop_en_mask : ℕ
pc_ret_exit_droop_en_mask = 8

abbrev pub wfx_droop_en_mask : ℕ
wfx_droop_en_mask = 0x10

abbrev pub dcvs_droop_en_mask : ℕ
dcvs_droop_en_mask = 0x20

abbrev pub safe_freq_wait_ns : ℕ
safe_freq_wait_ns = 5000

abbrev pub dext_decrement_wait_ns : ℕ
dext_decrement_wait_ns = 1000

abbrev pub dcvs_boost_timer_reg0 : ℕ
dcvs_boost_timer_reg0 = 0x1084

abbrev pub dcvs_boost_timer_reg1 : ℕ
dcvs_boost_timer_reg1 = 0x1088

abbrev pub dcvs_boost_timer_reg2 : ℕ
dcvs_boost_timer_reg2 = 0x108C

abbrev pub ps_boost_timer_reg0 : ℕ
ps_boost_timer_reg0 = 0x1094

abbrev pub ps_boost_timer_reg1 : ℕ
ps_boost_timer_reg1 = 0x1098

abbrev pub ps_boost_timer_reg2 : ℕ
ps_boost_timer_reg2 = 0x109C

abbrev pub boost_prog_sync_delay_reg : ℕ
boost_prog_sync_delay_reg = 0x10A0

abbrev pub droop_ctrl_reg : ℕ
droop_ctrl_reg = 0x10A4

abbrev pub droop_release_timer_ctrl : ℕ
droop_release_timer_ctrl = 0x10A8

abbrev pub droop_prog_sync_delay_reg : ℕ
droop_prog_sync_delay_reg = 0x10BC

abbrev pub droop_unstall_timer_ctrl_reg : ℕ
droop_unstall_timer_ctrl_reg = 0x10AC

abbrev pub droop_wait_to_release_timer_ctrl0_reg : ℕ
droop_wait_to_release_timer_ctrl0_reg = 0x10B0

abbrev pub osm_pll_sw_override_en : ℕ
osm_pll_sw_override_en = 0x10C0

abbrev pub dcvs_droop_timer_ctrl : ℕ
dcvs_droop_timer_ctrl = 0x10B8
