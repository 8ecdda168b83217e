-- ===== src/Probe/Cpus.antt =====
-- The lock on the set of online CPUs that `clk_cpu_osm_driver_probe` of clk-cpu-osm-660.c takes.
use Prim.Native.String.{String}
use xiaomi_pad4_ubuntu_touch.Base.{
  ℕ, ◌+◌, ◌-◌, ◌≡◌, refl, ap, ◌∙◌, Bool, false, List, [], ◌∷◌, Option, arith,
}
use xiaomi_pad4_ubuntu_touch.Osm.{
  Cluster, pwrcl, perfcl, ClkId, pwrcl_hw, perfcl_hw, Access, read_reg, write_reg, scm_write,
  wait_ns, call, Call, request_irq, register_panic_notifier, get_online_cpus, put_online_cpus,
  of_platform_populate, register_cpu_cycle_counter_cb, debugfs_create_dir, debugfs_create_file,
  debugfs_remove_recursive, World, Result, ok, err, fault, M, ◌>>=◌, ◌>>◌, continue,
}
use xiaomi_pad4_ubuntu_touch.Osm.Keeps.{
  Keeps, Keeps-pure, Keeps-crash, Keeps-bind, Keeps-then, Keeps-attempt,
}
use xiaomi_pad4_ubuntu_touch.Cycle.{Owner, owned_by, no_clock}
use xiaomi_pad4_ubuntu_touch.Opp.{OppPair}
use xiaomi_pad4_ubuntu_touch.Registration.{call_kernel, populate_opp_table, populate_debugfs_dir}
use xiaomi_pad4_ubuntu_touch.Registration.Kept.{owner-Kept, opp_table-Kept, debugfs-Kept}
use xiaomi_pad4_ubuntu_touch.Probe.{
  message_only, hw_of, boot_rate, enable_owner, enable_cpus, enable_online_cpus,
  of_device_is_compatible, probe_cpus,
}

abbrev by_call : Call → ℕ → ℕ
by_call get_online_cpus n = n + 1
by_call put_online_cpus n = n - 1
by_call (request_irq k irq) n = n
by_call (register_panic_notifier k) n = n
by_call of_platform_populate n = n
by_call register_cpu_cycle_counter_cb n = n
by_call (debugfs_create_dir dir name) n = n
by_call (debugfs_create_file dir name) n = n
by_call (debugfs_remove_recursive name) n = n

-- How often the set of online CPUs is locked, by the calls so far.
abbrev pub locks : List Access → ℕ
locks [] = 0
locks (call c ∷ h) = by_call c (locks h)
locks (read_reg a v ∷ h) = locks h
locks (write_reg a v ∷ h) = locks h
locks (scm_write a v ∷ h) = locks h
locks (wait_ns n ∷ h) = locks h

abbrev pub held_locks : World → ℕ
held_locks w = locks w.bus

-- A run that succeeds unlocks once, and any other run leaves the lock as it was.
unlocked : Result (Unit {0}) → ℕ → ℕ
unlocked (ok u) n = n - 1
unlocked (err e) n = n
unlocked fault n = n

record Unlocks (m : M (Unit {0})) : Type 0 where
  unlocks : (w : World) → held_locks (m w).1 ≡ unlocked (m w).0 (held_locks w)

Unlocks-bind :
    {A : Type 0} {m : M A} {f : A → M (Unit {0})}
    → Keeps held_locks m
    → ((a : A) → Unlocks (f a))
    → Unlocks (m >>= f)
unfolding unlocked
Unlocks-bind {A} {m} {f} first rest = record {
  unlocks = λ w. cases w (m w).0 (m w).1 (first.keeps w);
}
  where
    cases :
        (w : World) (r : Result A) (w' : World)
        → held_locks w' ≡ held_locks w
        → held_locks (continue f r w').1 ≡ unlocked (continue f r w').0 (held_locks w)
    cases w (ok a) w' same = (rest a).unlocks w' ∙ ap (unlocked (f a w').0) same
    cases w (err e) w' same = same
    cases w fault w' same = same

Unlocks-then : {m n : M (Unit {0})} → Keeps held_locks m → Unlocks n → Unlocks (m >> n)
Unlocks-then first second = Unlocks-bind first (λ done. second)

put-Unlocks : Unlocks (call_kernel put_online_cpus)
unfolding unlocked
put-Unlocks = record { unlocks = λ w. refl }

message_only-Kept : (r : Result (Unit {0})) → Keeps held_locks (message_only r)
message_only-Kept (ok u) = Keeps-pure held_locks tt
message_only-Kept (err e) = Keeps-pure held_locks tt
message_only-Kept fault = Keeps-crash held_locks

silent : (c : Call) → ((n : ℕ) → by_call c n ≡ n) → Keeps held_locks (call_kernel c)
silent c same = record { keeps = λ w. same (held_locks w) }

-- How many locks a run of the block leaves behind.
abbrev pub left_behind : Result (Unit {0}) → ℕ
left_behind (ok u) = 0
left_behind (err e) = 1
left_behind fault = 1

module _ (clk_set_rate : ClkId → ℕ → M (Unit {0})) (clk_prepare_enable : ClkId → M (Unit {0}))
    (clk_disable_unprepare : ClkId → World → World) (dev_pm_opp_add : ℕ → OppPair → Option ℕ)
    (set_rate-Keeps : (id : ClkId) (rate : ℕ) → Keeps held_locks (clk_set_rate id rate))
    (prepare_enable-Keeps : (id : ClkId) → Keeps held_locks (clk_prepare_enable id)) where
  enable_cpus-Kept :
      (cpus : List ℕ)
      → Keeps held_locks
          (enable_cpus clk_set_rate clk_prepare_enable clk_disable_unprepare dev_pm_opp_add cpus)
  unfolding enable_cpus
  enable_cpus-Kept [] = Keeps-pure held_locks tt
  enable_cpus-Kept (cpu ∷ cpus) =
      Keeps-bind held_locks (owner-Kept held_locks cpu)
        λ o. Keeps-then held_locks (enabled o) (enable_cpus-Kept cpus)
    where
      enabled :
          (o : Owner)
          → Keeps held_locks
              (enable_owner clk_set_rate clk_prepare_enable clk_disable_unprepare dev_pm_opp_add o)
      enabled no_clock = Keeps-pure held_locks tt
      enabled (owned_by k) =
          Keeps-bind held_locks (Keeps-attempt held_locks (prepare_enable-Keeps (hw_of k)))
            message_only-Kept

  online-Kept :
      Keeps held_locks
        (enable_online_cpus clk_set_rate clk_prepare_enable clk_disable_unprepare dev_pm_opp_add)
  unfolding enable_online_cpus
  online-Kept = record { keeps = λ w. (enable_cpus-Kept w.env.platform.online_cpus).keeps w }

  compatible-Kept : (name : String) → Keeps held_locks (of_device_is_compatible name)
  compatible-Kept name = record { keeps = λ w. refl }

  files-Kept : (k : Cluster) (base : Bool) → Keeps held_locks (populate_debugfs_dir k base)
  files-Kept k base =
      debugfs-Kept held_locks (λ dir name. silent (debugfs_create_dir dir name) (λ n. refl))
        (λ dir name. silent (debugfs_create_file dir name) (λ n. refl))
        (λ name. silent (debugfs_remove_recursive name) (λ n. refl)) k base

  -- What comes after the lock is taken.
  locked-Unlocks : Unlocks (do
    enable_online_cpus clk_set_rate clk_prepare_enable clk_disable_unprepare dev_pm_opp_add
    is_sdm630 ← of_device_is_compatible "qcom,clk-cpu-osm-sdm630"
    clk_set_rate pwrcl_hw (boot_rate is_sdm630 pwrcl)
    clk_set_rate perfcl_hw (boot_rate is_sdm630 perfcl)
    _ ← populate_opp_table dev_pm_opp_add
    base ← populate_debugfs_dir pwrcl false
    _ ← populate_debugfs_dir perfcl base
    call_kernel of_platform_populate
    call_kernel register_cpu_cycle_counter_cb
    call_kernel put_online_cpus)
  locked-Unlocks = Unlocks-then online-Kept (
      Unlocks-bind (compatible-Kept "qcom,clk-cpu-osm-sdm630") λ is_sdm630.
        Unlocks-then (set_rate-Keeps pwrcl_hw (boot_rate is_sdm630 pwrcl)) (
          Unlocks-then (set_rate-Keeps perfcl_hw (boot_rate is_sdm630 perfcl)) (
            Unlocks-bind (opp_table-Kept held_locks dev_pm_opp_add) λ _.
              Unlocks-bind (files-Kept pwrcl false) λ base.
                Unlocks-bind (files-Kept perfcl base) λ _.
                  Unlocks-then (silent of_platform_populate (λ n. refl))
                    (Unlocks-then (silent register_cpu_cycle_counter_cb (λ n. refl)) put-Unlocks))))

  -- From the enabling of the CPUs to the end of the probe: a clock framework that leaves the lock on
  -- the set of online CPUs alone. If the block succeeds, the lock is as it was; if it fails, as when a
  -- boot rate is refused, the lock is still held once more than before.
  pub probe_cpus-left_behind :
      (w : World)
      → let (r, w') =
          probe_cpus clk_set_rate clk_prepare_enable clk_disable_unprepare dev_pm_opp_add w in
        held_locks w' ≡ held_locks w + left_behind r
  unfolding probe_cpus unlocked
  probe_cpus-left_behind w =
      let locked = record w { bus = call get_online_cpus ∷ w.bus } in
      let (r, w') =
        probe_cpus clk_set_rate clk_prepare_enable clk_disable_unprepare dev_pm_opp_add w in
      locked-Unlocks.unlocks locked ∙ counted (held_locks w) r
    where
      counted : (n : ℕ) (r : Result (Unit {0})) → unlocked r (n + 1) ≡ n + left_behind r
      counted n (ok u) = omega arith
      counted n (err e) = omega arith
      counted n fault = omega arith
