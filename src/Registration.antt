-- ===== src/Registration.antt =====
-- What clk-cpu-osm-660.c registers with the kernel, and what the kernel calls back: the debug
-- interrupt, the panic notifier, the operating points of the CPUs, and the debug files.
pub mod Kept
pub mod CpuMap
pub mod Files
use Prim.Native.String.{String}
use xiaomi_pad4_ubuntu_touch.Base.{
  ℕ, ◌-◌, ◌^◌, Bool, true, false, List, [], ◌∷◌, Option, none, some, leb, get_or, if◌then◌else◌,
}
use xiaomi_pad4_ubuntu_touch.Osm.{
  Cluster, pwrcl, perfcl, ClkOsm, Call, request_irq, debugfs_create_dir, debugfs_create_file,
  debugfs_remove_recursive, call, Result, ok, err, fault, M, ◌>>=◌, ◌>>◌, pure, fail, crash, when,
  get, modify, log, readl, of_error,
}
use xiaomi_pad4_ubuntu_touch.Cycle.{Owner, owned_by, no_clock, cluster_of_hwid}
use xiaomi_pad4_ubuntu_touch.Opp.{OppPair, Added, add_opp}

abbrev pub call_kernel : Call → M (Unit {0})
call_kernel c = log (call c)

-- platform_get_irq_byname(pdev, name): an `int`.
abbrev pub platform_get_irq : String → M ℕ
platform_get_irq name w = pure (w.env.platform.get_irq name) w

abbrev pub devm_request_irq : Cluster → ℕ → String → M (Unit {0})
devm_request_irq k irq name w =
    (do call_kernel (request_irq k irq); of_error (w.env.platform.request_irq_error name)) w

pub clk_osm_setup_irq : Cluster → String → M (Unit {0})
clk_osm_setup_irq k irq_name = do
  rc ← platform_get_irq irq_name
  modify k λ c. record c { irq = rc }
  when (leb (2 ^ 31) rc) (fail (2 ^ 32 - rc))
  devm_request_irq k rc irq_name

-- The three values that are printed.
pub clk_osm_panic_callback : Cluster → M (List ℕ)
clk_osm_panic_callback k = do
  c ← get k
  pstate ← readl (get_or c.debug_regs 0 0)
  counter ← readl (get_or c.debug_regs 1 0)
  apm ← readl (get_or c.debug_regs 2 0)
  pure (pstate ∷ counter ∷ apm ∷ [])

-- `logical_cpu_to_clk` past its static array of the clocks found before, which `CpuMap` has: no
-- clock for a CPU that the device tree does not have.
abbrev pub owner_of : Option ℕ → Owner
owner_of none = no_clock
owner_of (some hwid) = cluster_of_hwid hwid

abbrev pub logical_cpu_to_clk : ℕ → M Owner
logical_cpu_to_clk cpu w = pure (owner_of (w.env.platform.cpu_hwid cpu)) w

-- What a CPU's device got.
pub record CpuPoints : Type 0 where
  pub cpu : ℕ
  pub added : Added

-- An error of `add_opp` is only a warning.
abbrev pub warned : ℕ → Added → M (List CpuPoints)
warned cpu a = of_outcome a.outcome
  where
    of_outcome : Result (Unit {0}) → M (List CpuPoints)
    of_outcome (ok u) = pure (record { cpu = cpu; added = a } ∷ [])
    of_outcome (err e) = pure (record { cpu = cpu; added = a } ∷ [])
    of_outcome fault = crash

abbrev pub append : List CpuPoints → List CpuPoints → List CpuPoints
append [] ys = ys
append (x ∷ xs) ys = x ∷ append xs ys

-- `dev_pm_opp_add` of a CPU's device answers `some e` for an error; it is code of the kernel.
module _ (dev_pm_opp_add : ℕ → OppPair → Option ℕ) where
  pub add_cpu : ℕ → Owner → M (List CpuPoints)
  add_cpu cpu no_clock w = (ok [], w)
  add_cpu cpu (owned_by k) w =
      if w.env.platform.cpu_has_device cpu
      then warned cpu (add_opp (dev_pm_opp_add cpu) (w.clocks k)) w
      else (ok [], w)

  -- The loop over the possible CPUs.
  pub add_cpus : List ℕ → M (List CpuPoints)
  add_cpus [] = pure []
  add_cpus (cpu ∷ cpus) = do
    owner ← logical_cpu_to_clk cpu
    here ← add_cpu cpu owner
    rest ← add_cpus cpus
    pure (append here rest)

  pub populate_opp_table : M (List CpuPoints)
  populate_opp_table w = add_cpus w.env.platform.possible_cpus w

-- `c->hw.init->name`
abbrev pub clk_name : Cluster → String
clk_name pwrcl = "pwrcl_clk"
clk_name perfcl = "perfcl_clk"

abbrev pub debugfs_files : List String
debugfs_files =
    "perf_state_met_irq_enable" ∷ "perf_state_deviation_irq_enable"
    ∷ "perf_state_deviation_corrected_irq_enable" ∷ "wdog_trace_enable" ∷ "trace_enable"
    ∷ "trace_method" ∷ "trace_packet_id" ∷ "trace_periodic_timer" ∷ "acd_debug_reg"
    ∷ "acd_debug_reg_addr" ∷ []

-- debugfs_create_dir and debugfs_create_file: whether there is an entry.
abbrev pub create_dir : String → String → M Bool
create_dir dir name w =
    (do
      call_kernel (debugfs_create_dir dir name)
      pure (if w.env.platform.debugfs_fails dir name then false else true))
      w

abbrev pub create_file : String → String → M Bool
create_file dir name w =
    (do
      call_kernel (debugfs_create_file dir name)
      pure (if w.env.platform.debugfs_fails dir name then false else true))
      w

-- The files that are left to create; the first one that fails ends it, and takes the directory away.
pub create_files : String → List String → M (Unit {0})
create_files dir [] = pure tt
create_files dir (name ∷ names) = do
  made ← create_file dir name
  if made then create_files dir names else call_kernel (debugfs_remove_recursive dir)

abbrev pub create_in : Cluster → Bool → M (Unit {0})
create_in k false = pure tt
create_in k true = do
  made ← create_dir "osm" (clk_name k)
  if made then create_files (clk_name k) debugfs_files else pure tt

-- `base` says whether `osm_debugfs_base` is set; so does the result.
pub populate_debugfs_dir : Cluster → Bool → M Bool
unfolding create_files
populate_debugfs_dir k base = do
  there ← if base then pure true else create_dir "" "osm"
  create_in k there
  pure there
