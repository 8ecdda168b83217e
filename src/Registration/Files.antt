-- ===== src/Registration/Files.antt =====
-- The debug directory of a cluster after `populate_debugfs_dir` of clk-cpu-osm-660.c.
use Prim.Native.String.{String}
use text.Mathlib.Text.{◌==◌ as str_eq}
use xiaomi_pad4_ubuntu_touch.Base.{
  ◌≡◌, refl, ap, ◌∙◌, Bool, true, false, not, ◌&&◌, ◌||◌, List, [], ◌∷◌, if◌then◌else◌, inl, inr,
  Bool-cases,
}
use xiaomi_pad4_ubuntu_touch.Osm.{
  Cluster, pwrcl, perfcl, Env, World, Access, read_reg, write_reg, scm_write, wait_ns, call, Call,
  request_irq, register_panic_notifier, get_online_cpus, put_online_cpus, of_platform_populate,
  register_cpu_cycle_counter_cb, debugfs_create_dir, debugfs_create_file, debugfs_remove_recursive,
  ClkOsm, ok,
}
use xiaomi_pad4_ubuntu_touch.Registration.{
  clk_name, debugfs_files, create_files, create_in, populate_debugfs_dir,
}

module _ (env : Env) (dir : String) where
  abbrev fails : String → String → Bool
  fails d name = env.platform.debugfs_fails d name

  abbrev by_call : Call → List String → List String
  by_call (debugfs_create_file d name) files =
      if str_eq d dir && not (fails d name) then name ∷ files else files
  by_call (debugfs_remove_recursive d) files = if str_eq d dir then [] else files
  by_call (debugfs_create_dir d name) files = files
  by_call (request_irq k irq) files = files
  by_call (register_panic_notifier k) files = files
  by_call get_online_cpus files = files
  by_call put_online_cpus files = files
  by_call of_platform_populate files = files
  by_call register_cpu_cycle_counter_cb files = files

  -- The files of the directory, after the calls so far.
  abbrev pub listing : List Access → List String
  listing [] = []
  listing (call c ∷ h) = by_call c (listing h)
  listing (read_reg a v ∷ h) = listing h
  listing (write_reg a v ∷ h) = listing h
  listing (scm_write a v ∷ h) = listing h
  listing (wait_ns n ∷ h) = listing h

  abbrev pub none_fails : List String → Bool
  none_fails [] = true
  none_fails (name ∷ names) = not (fails dir name) && none_fails names

  -- One file after the other, the last one first.
  abbrev pub added_to : List String → List String → List String
  added_to files [] = files
  added_to files (name ∷ names) = added_to (name ∷ files) names

  module _ (same : str_eq dir dir ≡ true) (clocks : Cluster → ClkOsm) where
    abbrev world : List Access → World
    world bus = record { env = env; bus = bus; clocks = clocks }

    create_files-listing :
        (names : List String) (bus : List Access)
        → (bus' : List Access) × (create_files dir names (world bus) ≡ (ok tt, world bus'))
          × (listing bus' ≡ (if none_fails names then added_to (listing bus) names else []))
    unfolding create_files
    create_files-listing [] bus = (bus, refl, refl)
    create_files-listing (name ∷ names) bus =
        let created = call (debugfs_create_file dir name) ∷ bus in
        elim (Bool-cases (fails dir name)) [
          | inl broken ↦
              rw broken (call (debugfs_remove_recursive dir) ∷ created, refl, rw same refl)
          | inr made ↦
              let (bus', ran, shows) = create_files-listing names created in
              let here : listing created ≡ name ∷ listing bus = rw (same, made) refl in
              rw made (
                bus',
                ran,
                shows ∙ ap (λ l. if none_fails names then added_to l names else []) here,
              )
        ]

str_eq-clk_name : (k : Cluster) → str_eq (clk_name k) (clk_name k) ≡ true
str_eq-clk_name pwrcl = refl
str_eq-clk_name perfcl = refl

-- The cluster's directory and all of its files can be created.
abbrev pub can_create : Env → Cluster → Bool
can_create env k =
    not (env.platform.debugfs_fails "osm" (clk_name k)) && none_fails env (clk_name k) debugfs_files

-- All files, or none.
abbrev pub all_or_none : Env → Cluster → Bool → List String
all_or_none env k there =
    if there && can_create env k then added_to env (clk_name k) [] debugfs_files else []

create_in-listing :
    (env : Env) (clocks : Cluster → ClkOsm) (k : Cluster) (there : Bool) (bus : List Access)
    → listing env (clk_name k) bus ≡ []
    → (bus' : List Access) × (create_in k there (record { env = env; bus = bus; clocks = clocks })
        ≡ (ok tt, record { env = env; bus = bus'; clocks = clocks }))
      × (listing env (clk_name k) bus' ≡ all_or_none env k there)
create_in-listing env clocks k false bus empty = (bus, refl, empty)
create_in-listing env clocks k true bus empty =
    let created = call (debugfs_create_dir "osm" (clk_name k)) ∷ bus in
    elim (Bool-cases (env.platform.debugfs_fails "osm" (clk_name k))) [
      | inl broken ↦ rw broken (created, refl, empty)
      | inr made ↦
          let (bus', ran, shows) =
            create_files-listing env (clk_name k) (str_eq-clk_name k) clocks debugfs_files
              created in
          rw made (
            bus',
            ran,
            shows
                ∙ ap
                    (λ l.
                      if none_fails env (clk_name k) debugfs_files
                      then added_to env (clk_name k) l debugfs_files
                      else [])
                    empty,
          )
    ]

-- After `populate_debugfs_dir`, if the cluster's directory had no files before: it has all ten files,
-- if the base directory is there or can be created, and the directory and each file can be; and
-- otherwise none. It is never left with some of them.
pub populate_debugfs_dir-all_or_none :
    (k : Cluster) (base : Bool) (w : World)
    → listing w.env (clk_name k) w.bus ≡ []
    → let (r, w') = populate_debugfs_dir k base w in
      let there = base || not (w.env.platform.debugfs_fails "" "osm") in
      (r ≡ ok there) × (listing w.env (clk_name k) w'.bus ≡ all_or_none w.env k there)
unfolding populate_debugfs_dir
populate_debugfs_dir-all_or_none k true w empty =
    let (bus, ran, shows) = create_in-listing w.env w.clocks k true w.bus empty in
    rw ran (refl, shows)
populate_debugfs_dir-all_or_none k false w empty =
    let created = call (debugfs_create_dir "" "osm") ∷ w.bus in
    elim (Bool-cases (w.env.platform.debugfs_fails "" "osm")) [
      | inl broken ↦ rw broken (refl, empty)
      | inr made ↦
          let (bus, ran, shows) = create_in-listing w.env w.clocks k true created empty in
          rw (made, ran) (refl, shows)
    ]
