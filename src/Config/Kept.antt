-- ===== src/Config/Kept.antt =====
-- What the parse of the device tree leaves as it was: a part of both clocks that the properties that
-- are read are not stored in.
use Prim.Native.String.{String}
use xiaomi_pad4_ubuntu_touch.Base.{ℕ, ◌+◌, ◌*◌, ◌≡◌, refl, Bool, false, not, ◌||◌, List, get_or}
use xiaomi_pad4_ubuntu_touch.Osm.{
  Cluster, pwrcl, perfcl, cluster_num, ClkOsm, World, clock, Result, ok, err, fault, ◌>>◌, modify,
  of_property_read_bool, einval, when, cluster_array_alloc,
}
use xiaomi_pad4_ubuntu_touch.Osm.Regs.{
  llm_sw_override_cnt, max_mem_acc_val_per_level, max_mem_acc_values,
}
use xiaomi_pad4_ubuntu_touch.Osm.Keeps.{
  Keeps, Keeps-pure, Keeps-fail, Keeps-crash, Keeps-bind, Keeps-then, Keeps-attempt, Keeps-cases,
  Keeps-allocate, Keeps-read_array, Keeps-read_u32, Keeps-cluster_array, Keeps-for_range, Keeps-get,
  Keeps-if, KeepsFrom, KeepsFrom-then, views, Keeps-modify,
}
use xiaomi_pad4_ubuntu_touch.Config.{
  required_cells, store_both, required_u32, optional_u32, both_bool, set_or_keep, read_override,
  parse_cluster_arrays, parse_overrides, parse_acd, parse_rates, parse_fsm_flags, required_array,
  parse_mem_acc, return_code, parse_end, clk_osm_parse_dt_configs,
}

-- What is stored of the ACD, and whether it is started.
pub record AcdConfig : Type 0 where
  pub td : ℕ
  pub cr : ℕ
  pub sscr : ℕ
  pub extint0_cfg : ℕ
  pub extint1_cfg : ℕ
  pub autoxfer_ctl : ℕ

abbrev pub acd_config : ClkOsm → AcdConfig
acd_config c = record {
  td = c.acd_td;
  cr = c.acd_cr;
  sscr = c.acd_sscr;
  extint0_cfg = c.acd_extint0_cfg;
  extint1_cfg = c.acd_extint1_cfg;
  autoxfer_ctl = c.acd_autoxfer_ctl;
}

abbrev pub whole : ClkOsm → Bool × AcdConfig
whole c = (c.acd_init, acd_config c)

abbrev pub part : World → (Bool × AcdConfig) × (Bool × AcdConfig)
part w = views whole w

abbrev Same : {V : Type 0} → (ClkOsm → V → ClkOsm) → Type 0
Same {V} store = (c : ClkOsm) (v : V) → whole (store c v) ≡ whole c

stored :
    {V : Type 0} (k : Cluster) (store : ClkOsm → V → ClkOsm) (v : V)
    → Same store
    → Keeps part (modify k (λ c. store c v))
stored k store v same = Keeps-modify whole k (λ c. store c v) (λ c. same c v)

cells-Kept :
    (name : String) (store : ClkOsm → ℕ → ClkOsm)
    → Same store
    → Keeps part (required_cells name store)
cells-Kept name store same =
    Keeps-cluster_array part name
      (λ cells.
        Keeps-then part (stored pwrcl store (get_or cells 0 0) same)
          (stored perfcl store (get_or cells 1 0) same))
      (Keeps-fail part einval)

store_both-Kept :
    (store : ClkOsm → ℕ → ClkOsm) (v : ℕ) → Same store → Keeps part (store_both store v)
store_both-Kept store v same =
    Keeps-then part (stored pwrcl store v same) (stored perfcl store v same)

u32-Kept :
    (name : String) (store : ClkOsm → ℕ → ClkOsm)
    → Same store
    → Keeps part (required_u32 name store)
u32-Kept name store same =
    Keeps-bind part (Keeps-attempt part (Keeps-read_u32 part name))
      (λ r. Keeps-cases part r (λ v. store_both-Kept store v same) (Keeps-fail part einval))

optional-Kept :
    (name : String) (store : ClkOsm → ℕ → ClkOsm)
    → Same store
    → Keeps part (optional_u32 name store)
optional-Kept name store same =
    Keeps-attempt part
      (Keeps-bind part (Keeps-read_u32 part name) (λ v. store_both-Kept store v same))

read_bool-Kept : (name : String) → Keeps part (of_property_read_bool name)
read_bool-Kept name = record { keeps = λ w. refl }

bool-Kept :
    (name : String) (store : ClkOsm → Bool → ClkOsm)
    → Same store
    → Keeps part (both_bool name store)
bool-Kept name store same =
    Keeps-bind part (read_bool-Kept name)
      (λ v. Keeps-then part (stored perfcl store v same) (stored pwrcl store v same))

array-Kept :
    (name : String) (n : ℕ) (k : Cluster) (store : ClkOsm → List ℕ → ClkOsm)
    → Same store
    → Keeps part (required_array name n k store)
array-Kept name n k store same =
    Keeps-bind part (Keeps-attempt part (Keeps-read_array part name n))
      (λ r. Keeps-cases part r (λ cells. stored k store cells same) (Keeps-fail part einval))

arrays-Kept : Keeps part parse_cluster_arrays
unfolding parse_cluster_arrays
arrays-Kept =
    Keeps-then part
      (cells-Kept "qcom,l-val-base" (λ c v. record c { l_val_base = v }) (λ c v. refl))
      (Keeps-then part
        (cells-Kept "qcom,apcs-itm-present" (λ c v. record c { apcs_itm_present = v })
          (λ c v. refl))
        (Keeps-then part
          (cells-Kept "qcom,apcs-cfg-rcgr" (λ c v. record c { apcs_cfg_rcgr = v }) (λ c v. refl))
          (Keeps-then part
            (cells-Kept "qcom,apcs-cmd-rcgr" (λ c v. record c { apcs_cmd_rcgr = v }) (λ c v. refl))
            (Keeps-then part
              (cells-Kept "qcom,apcs-pll-user-ctl" (λ c v. record c { apcs_pll_user_ctl = v })
                (λ c v. refl))
              (Keeps-then part
                (cells-Kept "qcom,apm-mode-ctl" (λ c v. record c { apm_mode_ctl = v })
                  (λ c v. refl))
                (cells-Kept "qcom,apm-ctrl-status" (λ c v. record c { apm_ctrl_status = v })
                  (λ c v. refl)))))))

override-Kept : (k : Cluster) (i : ℕ) → Keeps part (read_override k i)
override-Kept k i = record {
  keeps = λ w.
      (stored k (λ c cells. record c { llm_sw_overr = set_or_keep cells c.llm_sw_overr i })
          (w.env.of_read_u32_index "qcom,llm-sw-overr" (cluster_num k * llm_sw_override_cnt + i))
          (λ c v. refl)).keeps
        w;
}

overrides-Kept : Keeps part parse_overrides
unfolding parse_overrides
overrides-Kept =
    Keeps-then part (Keeps-for_range part llm_sw_override_cnt 0 (override-Kept pwrcl))
      (Keeps-for_range part llm_sw_override_cnt 0 (override-Kept perfcl))

rates-Kept : Keeps part parse_rates
unfolding parse_rates
rates-Kept =
    Keeps-then part
      (u32-Kept "qcom,xo-clk-rate" (λ c v. record c { xo_clk_rate = v }) (λ c v. refl))
      (Keeps-then part
        (u32-Kept "qcom,osm-clk-rate" (λ c v. record c { osm_clk_rate = v }) (λ c v. refl))
        (u32-Kept "qcom,cc-reads" (λ c v. record c { cycle_counter_reads = v }) (λ c v. refl)))

flags-Kept : Keeps part parse_fsm_flags
unfolding parse_fsm_flags
flags-Kept =
    Keeps-then part (bool-Kept "qcom,red-fsm-en" (λ c v. record c { red_fsm_en = v }) (λ c v. refl))
      (Keeps-then part
        (bool-Kept "qcom,boost-fsm-en" (λ c v. record c { boost_fsm_en = v }) (λ c v. refl))
        (Keeps-then part
          (bool-Kept "qcom,safe-fsm-en" (λ c v. record c { safe_fsm_en = v }) (λ c v. refl))
          (Keeps-then part
            (bool-Kept "qcom,ps-fsm-en" (λ c v. record c { ps_fsm_en = v }) (λ c v. refl))
            (Keeps-then part
              (bool-Kept "qcom,droop-fsm-en" (λ c v. record c { droop_fsm_en = v }) (λ c v. refl))
              (Keeps-then part
                (bool-Kept "qcom,wfx-fsm-en" (λ c v. record c { wfx_fsm_en = v }) (λ c v. refl))
                (Keeps-then part
                  (bool-Kept "qcom,pc-fsm-en" (λ c v. record c { pc_fsm_en = v }) (λ c v. refl))
                  (bool-Kept "qcom,osm-no-tz" (λ c v. record c { secure_init = v })
                    (λ c v. refl))))))))

mem_acc-Kept : Keeps part parse_mem_acc
unfolding parse_mem_acc
mem_acc-Kept =
    Keeps-then part
      (array-Kept "qcom,pwrcl-apcs-mem-acc-cfg" max_mem_acc_val_per_level pwrcl
        (λ c cells. record c { apcs_mem_acc_cfg = cells }) (λ c v. refl))
      (Keeps-bind part
        (Keeps-attempt part
          (Keeps-read_array part "qcom,perfcl-apcs-mem-acc-cfg" max_mem_acc_val_per_level))
        (λ r.
          Keeps-then part
            (Keeps-cases part r
              (λ cells.
                stored perfcl (λ c v. record c { apcs_mem_acc_cfg = v }) cells (λ c v. refl))
              (Keeps-pure part tt))
            (Keeps-then part
              (array-Kept "qcom,pwrcl-apcs-mem-acc-val" max_mem_acc_values pwrcl
                (λ c cells. record c { apcs_mem_acc_val = cells }) (λ c v. refl))
              (array-Kept "qcom,perfcl-apcs-mem-acc-val" max_mem_acc_values perfcl
                (λ c cells. record c { apcs_mem_acc_val = cells }) (λ c v. refl)))))

code-Kept : (rc : Result (Unit {0})) → Keeps part (return_code rc)
code-Kept (ok u) = Keeps-pure part tt
code-Kept (err e) = Keeps-fail part e
code-Kept fault = Keeps-crash part

end-Kept : Keeps part parse_end
unfolding parse_end
end-Kept =
    Keeps-bind part
      (optional-Kept "qcom,cc-delay" (λ c v. record c { cycle_counter_delay = v }) (λ c v. refl))
      λ _.
        Keeps-bind part
          (optional-Kept "qcom,cc-factor" (λ c v. record c { cycle_counter_factor = v })
            (λ c v. refl))
          λ rc. Keeps-then part flags-Kept (
            Keeps-bind part (Keeps-get part pwrcl)
              λ c. Keeps-if part (not c.secure_init) (code-Kept rc) mem_acc-Kept)

-- Neither cluster's ACD is marked for its start.
abbrev pub NoAcd : (Bool × AcdConfig) × (Bool × AcdConfig) → Type 0
NoAcd ((p, config_p), (f, config_f)) = (p ≡ false) × (f ≡ false)

no_acd-Kept :
    (p f : Bool)
    → p ≡ false
    → f ≡ false
    → Keeps part (do when (p || f) parse_acd; parse_rates; parse_end)
no_acd-Kept p f no_p no_f =
    rw (no_p, no_f) (Keeps-then part (Keeps-pure part tt) (Keeps-then part rates-Kept end-Kept))

pub parse-KeepsFrom : KeepsFrom part NoAcd clk_osm_parse_dt_configs
unfolding clk_osm_parse_dt_configs
parse-KeepsFrom = KeepsFrom-then part (Keeps-allocate part cluster_array_alloc) (
    KeepsFrom-then part arrays-Kept (
      KeepsFrom-then part overrides-Kept (record {
        keeps_from = λ w (no_p, no_f).
            (no_acd-Kept (clock pwrcl w).acd_init (clock perfcl w).acd_init no_p no_f).keeps w;
      })))
