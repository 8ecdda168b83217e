-- ===== src/Registration/Kept.antt =====
-- What the registrations leave as it was: a part of the world that the log of the debug files does
-- not change.
use Prim.Native.String.{String}
use xiaomi_pad4_ubuntu_touch.Base.{
  ℕ, refl, Bool, true, false, List, [], ◌∷◌, Option, inl, inr, Bool-cases,
}
use xiaomi_pad4_ubuntu_touch.Osm.{
  Cluster, debugfs_create_dir, debugfs_create_file, debugfs_remove_recursive, World, Result, ok,
  err, fault,
}
use xiaomi_pad4_ubuntu_touch.Osm.Keeps.{Keeps, Keeps-pure, Keeps-bind, Keeps-then, Keeps-if}
use xiaomi_pad4_ubuntu_touch.Cycle.{Owner, owned_by, no_clock}
use xiaomi_pad4_ubuntu_touch.Opp.{OppPair, Added, add_opp}
use xiaomi_pad4_ubuntu_touch.Registration.{
  call_kernel, logical_cpu_to_clk, warned, append, add_cpu, add_cpus, populate_opp_table, clk_name,
  debugfs_files, create_dir, create_file, create_files, create_in, populate_debugfs_dir,
}

module _ {X : Type 0} (part : World → X) where
  pub owner-Kept : (cpu : ℕ) → Keeps part (logical_cpu_to_clk cpu)
  owner-Kept cpu = record { keeps = λ w. refl }

  module _ (dev_pm_opp_add : ℕ → OppPair → Option ℕ) where
    warned-Kept : (cpu : ℕ) (a : Added) → Keeps part (warned cpu a)
    warned-Kept cpu a = of_outcome a.outcome
      where
        of_outcome : (r : Result (Unit {0})) → Keeps part (warned cpu (record a { outcome = r }))
        of_outcome (ok u) = record { keeps = λ w. refl }
        of_outcome (err e) = record { keeps = λ w. refl }
        of_outcome fault = record { keeps = λ w. refl }

    add_cpu-Kept : (cpu : ℕ) (o : Owner) → Keeps part (add_cpu dev_pm_opp_add cpu o)
    unfolding add_cpu
    add_cpu-Kept cpu no_clock = record { keeps = λ w. refl }
    add_cpu-Kept cpu (owned_by k) = record {
      keeps = λ w. elim (Bool-cases (w.env.platform.cpu_has_device cpu)) [
        | inl there ↦
            rw there ((warned-Kept cpu (add_opp (dev_pm_opp_add cpu) (w.clocks k))).keeps w)
        | inr out ↦ rw out refl
      ];
    }

    add_cpus-Kept : (cpus : List ℕ) → Keeps part (add_cpus dev_pm_opp_add cpus)
    unfolding add_cpus
    add_cpus-Kept [] = Keeps-pure part []
    add_cpus-Kept (cpu ∷ cpus) = Keeps-bind part (owner-Kept cpu) λ o.
        Keeps-bind part (add_cpu-Kept cpu o)
          λ here. Keeps-bind part (add_cpus-Kept cpus) λ rest. Keeps-pure part (append here rest)

    pub opp_table-Kept : Keeps part (populate_opp_table dev_pm_opp_add)
    unfolding populate_opp_table
    opp_table-Kept = record { keeps = λ w. (add_cpus-Kept w.env.platform.possible_cpus).keeps w }

  module _ (dir : (dir name : String) → Keeps part (call_kernel (debugfs_create_dir dir name)))
      (file : (dir name : String) → Keeps part (call_kernel (debugfs_create_file dir name)))
      (remove : (name : String) → Keeps part (call_kernel (debugfs_remove_recursive name))) where
    create_dir-Kept : (d name : String) → Keeps part (create_dir d name)
    create_dir-Kept d name = record { keeps = λ w. (dir d name).keeps w }

    create_file-Kept : (d name : String) → Keeps part (create_file d name)
    create_file-Kept d name = record { keeps = λ w. (file d name).keeps w }

    create_files-Kept : (d : String) (names : List String) → Keeps part (create_files d names)
    unfolding create_files
    create_files-Kept d [] = Keeps-pure part tt
    create_files-Kept d (name ∷ names) =
        Keeps-bind part (create_file-Kept d name)
          λ made. Keeps-if part made (create_files-Kept d names) (remove d)

    create_in-Kept : (k : Cluster) (there : Bool) → Keeps part (create_in k there)
    create_in-Kept k false = Keeps-pure part tt
    create_in-Kept k true = Keeps-bind part (create_dir-Kept "osm" (clk_name k)) λ made.
        Keeps-if part made (create_files-Kept (clk_name k) debugfs_files) (Keeps-pure part tt)

    pub debugfs-Kept : (k : Cluster) (base : Bool) → Keeps part (populate_debugfs_dir k base)
    unfolding populate_debugfs_dir
    debugfs-Kept k base =
        Keeps-bind part (Keeps-if part base (Keeps-pure part true) (create_dir-Kept "" "osm"))
          λ there. Keeps-then part (create_in-Kept k there) (Keeps-pure part there)
