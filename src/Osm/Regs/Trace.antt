-- ===== src/Osm/Regs/Trace.antt =====
-- Constants of clk-cpu-osm-660.c: the trace, performance state and watchdog registers.
use Prim.Native.Nat.{ℕ}

abbrev pub dcvs_perf_state_desired_reg : ℕ
dcvs_perf_state_desired_reg = 0x1F10

abbrev pub dcvs_perf_state_deviation_intr_stat : ℕ
dcvs_perf_state_deviation_intr_stat = 0x1F14

abbrev pub dcvs_perf_state_deviation_intr_en : ℕ
dcvs_perf_state_deviation_intr_en = 0x1F18

abbrev pub dcvs_perf_state_deviation_intr_clear : ℕ
dcvs_perf_state_deviation_intr_clear = 0x1F1C

abbrev pub dcvs_perf_state_deviation_corrected_intr_stat : ℕ
dcvs_perf_state_deviation_corrected_intr_stat = 0x1F20

abbrev pub dcvs_perf_state_deviation_corrected_intr_en : ℕ
dcvs_perf_state_deviation_corrected_intr_en = 0x1F24

abbrev pub dcvs_perf_state_deviation_corrected_intr_clear : ℕ
dcvs_perf_state_deviation_corrected_intr_clear = 0x1F28

abbrev pub dcvs_perf_state_met_intr_stat : ℕ
dcvs_perf_state_met_intr_stat = 0x1F2C

abbrev pub dcvs_perf_state_met_intr_en : ℕ
dcvs_perf_state_met_intr_en = 0x1F30

abbrev pub dcvs_perf_state_met_intr_clr : ℕ
dcvs_perf_state_met_intr_clr = 0x1F34

abbrev pub wdog_domain_pstate_status : ℕ
wdog_domain_pstate_status = 0x1c00

abbrev pub wdog_program_counter : ℕ
wdog_program_counter = 0x1c74

abbrev pub trace_ctrl : ℕ
trace_ctrl = 0x1F38

abbrev pub trace_ctrl_en_mask : ℕ
trace_ctrl_en_mask = 1

abbrev pub trace_ctrl_enable : ℕ
trace_ctrl_enable = 1

abbrev pub trace_ctrl_disable : ℕ
trace_ctrl_disable = 0

abbrev pub trace_ctrl_enable_wdog_status : ℕ
trace_ctrl_enable_wdog_status = 0x40000000

abbrev pub trace_ctrl_packet_type_mask : ℕ
trace_ctrl_packet_type_mask = 6

abbrev pub trace_ctrl_packet_type_shift : ℕ
trace_ctrl_packet_type_shift = 1

abbrev pub trace_ctrl_periodic_trace_en_mask : ℕ
trace_ctrl_periodic_trace_en_mask = 8

abbrev pub trace_ctrl_periodic_trace_enable : ℕ
trace_ctrl_periodic_trace_enable = 8

abbrev pub periodic_trace_timer_ctrl : ℕ
periodic_trace_timer_ctrl = 0x1F3C

abbrev pub periodic_trace_min_ns : ℕ
periodic_trace_min_ns = 1000

abbrev pub periodic_trace_max_ns : ℕ
periodic_trace_max_ns = 0x4fffffffb

abbrev pub periodic_trace_default_ns : ℕ
periodic_trace_default_ns = 1000000
