-- ===== src/Policy.antt =====
-- The policies of clk-cpu-osm-660.c: how long the hardware waits before it follows a vote of the
-- core counters or of the limits manager, and which votes it honours.
pub mod Votes
use xiaomi_pad4_ubuntu_touch.Base.{ℕ, ◌^◌, bit_or, bval, if◌then◌else◌}
use xiaomi_pad4_ubuntu_touch.Osm.{
  pwrcl, perfcl, M, ◌>>=◌, ◌>>◌, pure, allocate, cluster_array_alloc, clk_osm_write_reg, clk_osm_mb,
  of_property_read_bool, with_cluster_array, for_both, set_timer, set_bits,
}
use xiaomi_pad4_ubuntu_touch.Osm.Regs.{
  spm_cc_hysteresis, cc_zero_behav_ctrl, spm_core_ret_mapping, spm_cc_dcvs_disable, enable_override,
  llm_freq_vote_hysteresis, llm_volt_vote_hysteresis, llm_intf_dcvs_disable,
}

-- Both clusters get the same value.
abbrev pub write_both : ℕ → ℕ → M (Unit {0})
write_both val reg = do clk_osm_write_reg pwrcl val reg; clk_osm_write_reg perfcl val reg

pub clk_osm_set_cc_policy : M (Unit {0})
clk_osm_set_cc_policy = do
  allocate cluster_array_alloc
  with_cluster_array "qcom,up-timer"
      (λ array. for_both array (λ k ns. set_timer k spm_cc_hysteresis 31 16 ns)) (pure tt)
  with_cluster_array "qcom,down-timer"
      (λ array. for_both array (λ k ns. set_timer k spm_cc_hysteresis 15 0 ns)) (pure tt)
  with_cluster_array "qcom,pc-override-index"
      (λ array.
        for_both array
          (λ k i. clk_osm_write_reg k (bit_or (bval 6 1 i) enable_override) cc_zero_behav_ctrl))
      (write_both 0 cc_zero_behav_ctrl)
  clk_osm_mb perfcl
  ret_inactive ← of_property_read_bool "qcom,set-ret-inactive"
  write_both (if ret_inactive then 0 else 1) spm_core_ret_mapping
  disabled ← of_property_read_bool "qcom,disable-cc-dvcs"
  write_both (if disabled then 1 else 0) spm_cc_dcvs_disable
  clk_osm_mb perfcl

pub clk_osm_set_llm_freq_policy : M (Unit {0})
clk_osm_set_llm_freq_policy = do
  allocate cluster_array_alloc
  with_cluster_array "qcom,llm-freq-up-timer"
      (λ array. for_both array (λ k ns. set_timer k llm_freq_vote_hysteresis 31 16 ns)) (pure tt)
  with_cluster_array "qcom,llm-freq-down-timer"
      (λ array. for_both array (λ k ns. set_timer k llm_freq_vote_hysteresis 15 0 ns)) (pure tt)
  honoured ← of_property_read_bool "qcom,enable-llm-freq-vote"
  let val = if honoured then 0 else 1
  set_bits pwrcl llm_intf_dcvs_disable val
  set_bits perfcl llm_intf_dcvs_disable val
  clk_osm_mb perfcl

pub clk_osm_set_llm_volt_policy : M (Unit {0})
clk_osm_set_llm_volt_policy = do
  allocate cluster_array_alloc
  with_cluster_array "qcom,llm-volt-up-timer"
      (λ array. for_both array (λ k ns. set_timer k llm_volt_vote_hysteresis 31 16 ns)) (pure tt)
  with_cluster_array "qcom,llm-volt-down-timer"
      (λ array. for_both array (λ k ns. set_timer k llm_volt_vote_hysteresis 15 0 ns)) (pure tt)
  honoured ← of_property_read_bool "qcom,enable-llm-volt-vote"
  let val = if honoured then 0 else 2 ^ 1
  set_bits pwrcl llm_intf_dcvs_disable val
  set_bits perfcl llm_intf_dcvs_disable val
  clk_osm_mb perfcl
