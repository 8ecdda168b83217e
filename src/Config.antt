-- ===== src/Config.antt =====
-- `clk_osm_parse_dt_configs` of clk-cpu-osm-660.c: the configuration of both clusters from the
-- device tree. A property that is required ends the parse with `-EINVAL`.
pub mod Kept
pub mod Ends
pub mod Demands
pub mod Tail
pub mod Outcome
use Prim.Native.String.{String}
use xiaomi_pad4_ubuntu_touch.Base.{
  ℕ, ◌+◌, ◌*◌, Bool, not, ◌||◌, List, Option, none, some, set, get_or, if◌then◌else◌,
}
use xiaomi_pad4_ubuntu_touch.Osm.{
  Cluster, pwrcl, perfcl, cluster_num, ClkOsm, Result, ok, err, fault, M, ◌>>=◌, ◌>>◌, pure, fail,
  crash, attempt, when, get, modify, allocate, cluster_array_alloc, for_both, of_property_read_bool,
  of_property_read_u32, of_property_read_u32_array, result_cases, with_cluster_array, einval,
  for_range,
}
use xiaomi_pad4_ubuntu_touch.Osm.Regs.{
  llm_sw_override_cnt, max_mem_acc_val_per_level, max_mem_acc_values,
}

-- A cell for each cluster; both are stored, or the parse ends.
abbrev pub required_cells : String → (ClkOsm → ℕ → ClkOsm) → M (Unit {0})
required_cells name store =
    with_cluster_array name (λ array. for_both array (λ k v. modify k (λ c. store c v)))
      (fail einval)

-- One cell for both clusters.
abbrev pub store_both : (ClkOsm → ℕ → ClkOsm) → ℕ → M (Unit {0})
store_both store v = do modify pwrcl (λ c. store c v); modify perfcl (λ c. store c v)

abbrev pub required_u32 : String → (ClkOsm → ℕ → ClkOsm) → M (Unit {0})
required_u32 name store = do
  r ← attempt (of_property_read_u32 name)
  result_cases r (store_both store) (fail einval)

-- One cell that may be missing; the return code of the read is the result.
abbrev pub optional_u32 : String → (ClkOsm → ℕ → ClkOsm) → M (Result (Unit {0}))
optional_u32 name store = attempt (of_property_read_u32 name >>= store_both store)

abbrev pub both_bool : String → (ClkOsm → Bool → ClkOsm) → M (Unit {0})
both_bool name store = do
  v ← of_property_read_bool name
  modify perfcl (λ c. store c v)
  modify pwrcl (λ c. store c v)

abbrev pub set_or_keep : Option ℕ → List ℕ → ℕ → List ℕ
set_or_keep none cells i = cells
set_or_keep (some v) cells i = set cells i v

-- An index that cannot be read leaves its cell as it was.
abbrev pub read_override : Cluster → ℕ → M (Unit {0})
read_override k i w =
    modify k
      (λ c. record c {
        llm_sw_overr =
            set_or_keep
              (w.env.of_read_u32_index "qcom,llm-sw-overr"
                (cluster_num k * llm_sw_override_cnt + i))
              c.llm_sw_overr i;
      })
      w

-- The arrays from `qcom,l-val-base` to `qcom,apm-ctrl-status`.
unfoldable pub parse_cluster_arrays : M (Unit {0})
parse_cluster_arrays = do
  required_cells "qcom,l-val-base" λ c v. record c { l_val_base = v }
  required_cells "qcom,apcs-itm-present" λ c v. record c { apcs_itm_present = v }
  required_cells "qcom,apcs-cfg-rcgr" λ c v. record c { apcs_cfg_rcgr = v }
  required_cells "qcom,apcs-cmd-rcgr" λ c v. record c { apcs_cmd_rcgr = v }
  required_cells "qcom,apcs-pll-user-ctl" λ c v. record c { apcs_pll_user_ctl = v }
  required_cells "qcom,apm-mode-ctl" λ c v. record c { apm_mode_ctl = v }
  required_cells "qcom,apm-ctrl-status" λ c v. record c { apm_ctrl_status = v }

unfoldable pub parse_overrides : M (Unit {0})
unfolding for_range
parse_overrides = do
  for_range llm_sw_override_cnt 0 (read_override pwrcl)
  for_range llm_sw_override_cnt 0 (read_override perfcl)

unfoldable pub parse_acd : M (Unit {0})
parse_acd = do
  required_cells "qcom,acdtd-val" λ c v. record c { acd_td = v }
  required_cells "qcom,acdcr-val" λ c v. record c { acd_cr = v }
  required_cells "qcom,acdsscr-val" λ c v. record c { acd_sscr = v }
  required_cells "qcom,acdextint0-val" λ c v. record c { acd_extint0_cfg = v }
  required_cells "qcom,acdextint1-val" λ c v. record c { acd_extint1_cfg = v }
  required_cells "qcom,acdautoxfer-val" λ c v. record c { acd_autoxfer_ctl = v }

unfoldable pub parse_rates : M (Unit {0})
parse_rates = do
  required_u32 "qcom,xo-clk-rate" λ c v. record c { xo_clk_rate = v }
  required_u32 "qcom,osm-clk-rate" λ c v. record c { osm_clk_rate = v }
  required_u32 "qcom,cc-reads" λ c v. record c { cycle_counter_reads = v }

unfoldable pub parse_fsm_flags : M (Unit {0})
parse_fsm_flags = do
  both_bool "qcom,red-fsm-en" λ c v. record c { red_fsm_en = v }
  both_bool "qcom,boost-fsm-en" λ c v. record c { boost_fsm_en = v }
  both_bool "qcom,safe-fsm-en" λ c v. record c { safe_fsm_en = v }
  both_bool "qcom,ps-fsm-en" λ c v. record c { ps_fsm_en = v }
  both_bool "qcom,droop-fsm-en" λ c v. record c { droop_fsm_en = v }
  both_bool "qcom,wfx-fsm-en" λ c v. record c { wfx_fsm_en = v }
  both_bool "qcom,pc-fsm-en" λ c v. record c { pc_fsm_en = v }
  both_bool "qcom,osm-no-tz" λ c v. record c { secure_init = v }

abbrev pub required_array : String → ℕ → Cluster → (ClkOsm → List ℕ → ClkOsm) → M (Unit {0})
required_array name count k store = do
  r ← attempt (of_property_read_u32_array name count)
  result_cases r (λ cells. modify k (λ c. store c cells)) (fail einval)

-- The second property's return code is not stored: the check below it reads that of the first.
unfoldable pub parse_mem_acc : M (Unit {0})
parse_mem_acc = do
  required_array "qcom,pwrcl-apcs-mem-acc-cfg" max_mem_acc_val_per_level pwrcl
      λ c cells. record c { apcs_mem_acc_cfg = cells }
  r ← attempt (of_property_read_u32_array "qcom,perfcl-apcs-mem-acc-cfg" max_mem_acc_val_per_level)
  result_cases r (λ cells. modify perfcl (λ c. record c { apcs_mem_acc_cfg = cells })) (pure tt)
  required_array "qcom,pwrcl-apcs-mem-acc-val" max_mem_acc_values pwrcl
      λ c cells. record c { apcs_mem_acc_val = cells }
  required_array "qcom,perfcl-apcs-mem-acc-val" max_mem_acc_values perfcl
      λ c cells. record c { apcs_mem_acc_val = cells }

-- `return rc;` with the code of an earlier read.
abbrev pub return_code : Result (Unit {0}) → M (Unit {0})
return_code (ok u) = pure tt
return_code (err e) = fail e
return_code fault = crash

-- From `qcom,cc-delay` on.
unfoldable pub parse_end : M (Unit {0})
parse_end = do
  _ ← optional_u32 "qcom,cc-delay" λ c v. record c { cycle_counter_delay = v }
  rc ← optional_u32 "qcom,cc-factor" λ c v. record c { cycle_counter_factor = v }
  parse_fsm_flags
  c ← get pwrcl
  if not c.secure_init then return_code rc else parse_mem_acc

unfoldable pub clk_osm_parse_dt_configs : M (Unit {0})
clk_osm_parse_dt_configs = do
  allocate cluster_array_alloc
  parse_cluster_arrays
  parse_overrides
  cp ← get pwrcl
  cf ← get perfcl
  when (cp.acd_init || cf.acd_init) parse_acd
  parse_rates
  parse_end
