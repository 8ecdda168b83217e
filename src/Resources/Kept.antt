-- ===== src/Resources/Kept.antt =====
-- What the steps of `clk_osm_resources_init` leave as it was.
use Prim.Native.String.{String}
use xiaomi_pad4_ubuntu_touch.Base.{ℕ, ◌+◌, ◌*◌, refl, not, Option, none, some, ◌==◌, u64}
use xiaomi_pad4_ubuntu_touch.Osm.{
  Cluster, pwrcl, perfcl, cluster_num, Resource, World, modify, clock, einval, enomem,
}
use xiaomi_pad4_ubuntu_touch.Osm.Regs.{osm_core_table_size}
use xiaomi_pad4_ubuntu_touch.Osm.Keeps.{
  Keeps, Keeps-pure, Keeps-fail, Keeps-bind, Keeps-then, Keeps-when, Keeps-of_error, Keeps-get,
}
use xiaomi_pad4_ubuntu_touch.Resources.{
  platform_get_resource, devm_ioremap, or_fail, required_resource, mapped, set_osm_base, map_osm,
  store_osm, store_pll, map_pll, map_common, store_efuse, map_efuse, map_efuse_of, store_acd,
  no_acd, map_acd, map_acd_of, store_debug, map_debug_reg, map_debug_regs,
  wdog_domain_pstate_status, wdog_program_counter, find_supplies, find_supply, devm_regulator_get,
}

module _ {X : Type 0} (part : World → X) where
  pub or_fail-Kept : (e : ℕ) (r : Option Resource) → Keeps part (or_fail e r)
  or_fail-Kept e none = Keeps-fail part e
  or_fail-Kept e (some res) = Keeps-pure part res

  get_resource-Kept : (name : String) → Keeps part (platform_get_resource name)
  get_resource-Kept name = record { keeps = λ w. refl }

  required-Kept : (name : String) (e : ℕ) → Keeps part (required_resource name e)
  required-Kept name e = Keeps-bind part (get_resource-Kept name) (or_fail-Kept e)

  ioremap-Kept : (start size : ℕ) → Keeps part (devm_ioremap start size)
  ioremap-Kept start size = record { keeps = λ w. refl }

  pub mapped-Kept : (res : Resource) → Keeps part (mapped res)
  mapped-Kept res = Keeps-bind part (ioremap-Kept res.start res.size) (λ vbase.
      Keeps-then part (Keeps-when part (vbase == 0) (Keeps-fail part enomem))
        (Keeps-pure part vbase))

  pub osm-Kept :
      ((p : ℕ) → Keeps part (modify pwrcl (λ c. record c { pbases = set_osm_base p c.pbases })))
      → ((v : ℕ) → Keeps part (modify pwrcl (λ c. record c { vbases = set_osm_base v c.vbases })))
      → ((p v : ℕ) → Keeps part (modify perfcl (store_osm p v)))
      → Keeps part map_osm
  unfolding map_osm
  osm-Kept first second third = Keeps-bind part (required-Kept "osm" enomem) λ res.
      Keeps-then part (first res.start) (
        Keeps-bind part (ioremap-Kept res.start res.size) λ vbase. Keeps-then part (second vbase) (
          Keeps-then part (Keeps-when part (vbase == 0) (Keeps-fail part enomem)) (
            Keeps-bind part (Keeps-get part pwrcl) λ p.
              let offset = cluster_num perfcl * osm_core_table_size in
              third (u64 (p.pbases.osm_base + offset)) (p.vbases.osm_base + offset))))

  pub pll-Kept :
      (k : Cluster) (name : String)
      → ((p v : ℕ) → Keeps part (modify k (store_pll p v)))
      → Keeps part (map_pll k name)
  unfolding map_pll
  pll-Kept k name store =
      Keeps-bind part (required-Kept name enomem)
        (λ res. Keeps-bind part (mapped-Kept res) (λ vbase. store res.start vbase))

  pub common-Kept : Keeps part map_common
  unfolding map_common
  common-Kept = Keeps-bind part (required-Kept "apcs_common" einval) (λ res.
      Keeps-bind part (mapped-Kept res) (λ vbase. record {
        keeps = λ w. (Keeps-of_error part w.env.platform.regmap_error).keeps w;
      }))

  efuse_of-Kept :
      (k : Cluster) (r : Option Resource)
      → ((p v : ℕ) → Keeps part (modify k (store_efuse p v)))
      → Keeps part (map_efuse_of k r)
  efuse_of-Kept k none store = Keeps-pure part tt
  efuse_of-Kept k (some res) store = Keeps-bind part (mapped-Kept res) (store res.start)

  pub efuse-Kept :
      (k : Cluster) (name : String)
      → ((p v : ℕ) → Keeps part (modify k (store_efuse p v)))
      → Keeps part (map_efuse k name)
  unfolding map_efuse
  efuse-Kept k name store = Keeps-bind part (get_resource-Kept name) (λ r. efuse_of-Kept k r store)

  acd_of-Kept :
      (k : Cluster) (r : Option Resource)
      → Keeps part (modify k no_acd)
      → ((res : Resource) (v : ℕ) → Keeps part (modify k (store_acd res v)))
      → Keeps part (map_acd_of k r)
  acd_of-Kept k none clear store = clear
  acd_of-Kept k (some res) clear store = Keeps-bind part (mapped-Kept res) (store res)

  pub acd-Kept :
      (k : Cluster) (name : String)
      → Keeps part (modify k no_acd)
      → ((res : Resource) (v : ℕ) → Keeps part (modify k (store_acd res v)))
      → Keeps part (map_acd k name)
  unfolding map_acd
  acd-Kept k name clear store =
      Keeps-bind part (get_resource-Kept name) (λ r. acd_of-Kept k r clear store)

  debug_reg-Kept :
      (k : Cluster) (i address : ℕ)
      → ((i v : ℕ) → Keeps part (modify k (store_debug i v)))
      → Keeps part (map_debug_reg k i address)
  debug_reg-Kept k i address store = Keeps-bind part (ioremap-Kept address 4) (λ vbase.
      Keeps-then part (store i vbase) (Keeps-when part (vbase == 0) (Keeps-fail part enomem)))

  pub debug_regs-Kept :
      (k : Cluster)
      → ((i v : ℕ) → Keeps part (modify k (store_debug i v)))
      → Keeps part (map_debug_regs k)
  unfolding map_debug_regs
  debug_regs-Kept k store = record {
    keeps = λ w.
        let c = clock k w in
        (Keeps-then part
            (debug_reg-Kept k 0 (u64 (c.pbases.osm_base + wdog_domain_pstate_status)) store)
            (Keeps-then part
              (debug_reg-Kept k 1 (u64 (c.pbases.osm_base + wdog_program_counter)) store)
              (debug_reg-Kept k 2 c.apm_ctrl_status store))).keeps
          w;
  }

  regulator-Kept : (name : String) → Keeps part (devm_regulator_get name)
  regulator-Kept name = record {
    keeps = λ w. (Keeps-of_error part (w.env.platform.regulator_error name)).keeps w;
  }

  supply-Kept : (name : String) → Keeps part (find_supply name)
  supply-Kept name = record {
    keeps = λ w.
        (Keeps-then part
            (Keeps-when part (not (w.env.platform.supply_node name)) (Keeps-fail part einval))
            (Keeps-when part (not (w.env.platform.supply_device name))
              (Keeps-fail part einval))).keeps
          w;
  }

  pub supplies-Kept : Keeps part find_supplies
  unfolding find_supplies
  supplies-Kept = Keeps-then part (regulator-Kept "vdd-pwrcl") (
      Keeps-then part (regulator-Kept "vdd-perfcl")
        (Keeps-then part (supply-Kept "vdd-pwrcl-supply") (supply-Kept "vdd-perfcl-supply")))
