-- ===== src/Config/Demands.antt =====
-- The properties that the steps of `clk_osm_parse_dt_configs` of clk-cpu-osm-660.c demand, and how
-- the steps up to the rates end.
use xiaomi_pad4_ubuntu_touch.Base.{refl, List, [], ◌∷◌}
use xiaomi_pad4_ubuntu_touch.Osm.Regs.{max_mem_acc_val_per_level, max_mem_acc_values}
use xiaomi_pad4_ubuntu_touch.Config.{parse_cluster_arrays, parse_acd, parse_rates}
use xiaomi_pad4_ubuntu_touch.Config.Ends.{
  Demand, Ends, Ends-last, Ends-need, cells-Ends, needed, u32-Ends,
}

abbrev pub cluster_demands : List Demand
cluster_demands =
    ("qcom,l-val-base", 2)
    ∷ ("qcom,apcs-itm-present", 2)
    ∷ ("qcom,apcs-cfg-rcgr", 2)
    ∷ ("qcom,apcs-cmd-rcgr", 2)
    ∷ ("qcom,apcs-pll-user-ctl", 2)
    ∷ ("qcom,apm-mode-ctl", 2)
    ∷ ("qcom,apm-ctrl-status", 2)
    ∷ []

abbrev pub acd_demands : List Demand
acd_demands =
    ("qcom,acdtd-val", 2)
    ∷ ("qcom,acdcr-val", 2)
    ∷ ("qcom,acdsscr-val", 2)
    ∷ ("qcom,acdextint0-val", 2)
    ∷ ("qcom,acdextint1-val", 2)
    ∷ ("qcom,acdautoxfer-val", 2)
    ∷ []

abbrev pub rate_demands : List Demand
rate_demands = ("qcom,xo-clk-rate", 1) ∷ ("qcom,osm-clk-rate", 1) ∷ ("qcom,cc-reads", 1) ∷ []

-- Without `qcom,perfcl-apcs-mem-acc-cfg`.
abbrev pub mem_acc_demands : List Demand
mem_acc_demands =
    ("qcom,pwrcl-apcs-mem-acc-cfg", max_mem_acc_val_per_level)
    ∷ ("qcom,pwrcl-apcs-mem-acc-val", max_mem_acc_values)
    ∷ ("qcom,perfcl-apcs-mem-acc-val", max_mem_acc_values)
    ∷ []

pub arrays-Ends : Ends parse_cluster_arrays (needed cluster_demands)
unfolding parse_cluster_arrays
arrays-Ends =
    Ends-need "qcom,l-val-base" 2
      (("qcom,apcs-itm-present", 2)
        ∷ ("qcom,apcs-cfg-rcgr", 2)
        ∷ ("qcom,apcs-cmd-rcgr", 2)
        ∷ ("qcom,apcs-pll-user-ctl", 2)
        ∷ ("qcom,apm-mode-ctl", 2)
        ∷ ("qcom,apm-ctrl-status", 2)
        ∷ [])
      (cells-Ends "qcom,l-val-base" (λ c v. record c { l_val_base = v }) (λ c v. refl))
      (Ends-need "qcom,apcs-itm-present" 2
        (("qcom,apcs-cfg-rcgr", 2)
          ∷ ("qcom,apcs-cmd-rcgr", 2)
          ∷ ("qcom,apcs-pll-user-ctl", 2)
          ∷ ("qcom,apm-mode-ctl", 2)
          ∷ ("qcom,apm-ctrl-status", 2)
          ∷ [])
        (cells-Ends "qcom,apcs-itm-present" (λ c v. record c { apcs_itm_present = v })
          (λ c v. refl))
        (Ends-need "qcom,apcs-cfg-rcgr" 2
          (("qcom,apcs-cmd-rcgr", 2)
            ∷ ("qcom,apcs-pll-user-ctl", 2)
            ∷ ("qcom,apm-mode-ctl", 2)
            ∷ ("qcom,apm-ctrl-status", 2)
            ∷ [])
          (cells-Ends "qcom,apcs-cfg-rcgr" (λ c v. record c { apcs_cfg_rcgr = v }) (λ c v. refl))
          (Ends-need "qcom,apcs-cmd-rcgr" 2
            (("qcom,apcs-pll-user-ctl", 2)
              ∷ ("qcom,apm-mode-ctl", 2)
              ∷ ("qcom,apm-ctrl-status", 2)
              ∷ [])
            (cells-Ends "qcom,apcs-cmd-rcgr" (λ c v. record c { apcs_cmd_rcgr = v }) (λ c v. refl))
            (Ends-need "qcom,apcs-pll-user-ctl" 2
              (("qcom,apm-mode-ctl", 2) ∷ ("qcom,apm-ctrl-status", 2) ∷ [])
              (cells-Ends "qcom,apcs-pll-user-ctl" (λ c v. record c { apcs_pll_user_ctl = v })
                (λ c v. refl))
              (Ends-need "qcom,apm-mode-ctl" 2 (("qcom,apm-ctrl-status", 2) ∷ [])
                (cells-Ends "qcom,apm-mode-ctl" (λ c v. record c { apm_mode_ctl = v })
                  (λ c v. refl))
                (Ends-last "qcom,apm-ctrl-status" 2 (
                  cells-Ends "qcom,apm-ctrl-status" (λ c v. record c { apm_ctrl_status = v })
                    (λ c v. refl))))))))

pub acd-Ends : Ends parse_acd (needed acd_demands)
unfolding parse_acd
acd-Ends =
    Ends-need "qcom,acdtd-val" 2
      (("qcom,acdcr-val", 2)
        ∷ ("qcom,acdsscr-val", 2)
        ∷ ("qcom,acdextint0-val", 2)
        ∷ ("qcom,acdextint1-val", 2)
        ∷ ("qcom,acdautoxfer-val", 2)
        ∷ [])
      (cells-Ends "qcom,acdtd-val" (λ c v. record c { acd_td = v }) (λ c v. refl))
      (Ends-need "qcom,acdcr-val" 2
        (("qcom,acdsscr-val", 2)
          ∷ ("qcom,acdextint0-val", 2)
          ∷ ("qcom,acdextint1-val", 2)
          ∷ ("qcom,acdautoxfer-val", 2)
          ∷ [])
        (cells-Ends "qcom,acdcr-val" (λ c v. record c { acd_cr = v }) (λ c v. refl))
        (Ends-need "qcom,acdsscr-val" 2
          (("qcom,acdextint0-val", 2)
            ∷ ("qcom,acdextint1-val", 2)
            ∷ ("qcom,acdautoxfer-val", 2)
            ∷ [])
          (cells-Ends "qcom,acdsscr-val" (λ c v. record c { acd_sscr = v }) (λ c v. refl))
          (Ends-need "qcom,acdextint0-val" 2
            (("qcom,acdextint1-val", 2) ∷ ("qcom,acdautoxfer-val", 2) ∷ [])
            (cells-Ends "qcom,acdextint0-val" (λ c v. record c { acd_extint0_cfg = v })
              (λ c v. refl))
            (Ends-need "qcom,acdextint1-val" 2 (("qcom,acdautoxfer-val", 2) ∷ [])
              (cells-Ends "qcom,acdextint1-val" (λ c v. record c { acd_extint1_cfg = v })
                (λ c v. refl))
              (Ends-last "qcom,acdautoxfer-val" 2 (
                cells-Ends "qcom,acdautoxfer-val" (λ c v. record c { acd_autoxfer_ctl = v })
                  (λ c v. refl)))))))

pub rates-Ends : Ends parse_rates (needed rate_demands)
unfolding parse_rates
rates-Ends =
    Ends-need "qcom,xo-clk-rate" 1 (("qcom,osm-clk-rate", 1) ∷ ("qcom,cc-reads", 1) ∷ [])
      (u32-Ends "qcom,xo-clk-rate" (λ c v. record c { xo_clk_rate = v }) (λ c v. refl))
      (Ends-need "qcom,osm-clk-rate" 1 (("qcom,cc-reads", 1) ∷ [])
        (u32-Ends "qcom,osm-clk-rate" (λ c v. record c { osm_clk_rate = v }) (λ c v. refl))
        (Ends-last "qcom,cc-reads" 1
          (u32-Ends "qcom,cc-reads" (λ c v. record c { cycle_counter_reads = v }) (λ c v. refl))))
