-- ===== src/Resources.antt =====
-- `clk_osm_resources_init` of clk-cpu-osm-660.c: maps the register banks of both clusters, and finds
-- the regulators that supply them.
pub mod Kept
pub mod Mapped
pub mod Acd
use Prim.Native.String.{String}
use xiaomi_pad4_ubuntu_touch.Base.{
  ℕ, ◌+◌, ◌*◌, true, false, not, List, Option, none, some, set, get_or, ◌==◌, u64,
}
use xiaomi_pad4_ubuntu_touch.Osm.{
  Cluster, pwrcl, perfcl, cluster_num, Bases, ClkOsm, Resource, M, ◌>>=◌, ◌>>◌, pure, fail, when,
  get, modify, einval, enomem, of_error,
}
use xiaomi_pad4_ubuntu_touch.Osm.Regs.{osm_core_table_size}

-- platform_get_resource_byname(pdev, IORESOURCE_MEM, name)
abbrev pub platform_get_resource : String → M (Option Resource)
platform_get_resource name w = pure (w.env.platform.get_resource name) w

-- devm_ioremap(dev, start, size)
abbrev pub devm_ioremap : ℕ → ℕ → M ℕ
devm_ioremap start size w = pure (w.env.platform.ioremap start size) w

abbrev pub or_fail : ℕ → Option Resource → M Resource
or_fail e none = fail e
or_fail e (some res) = pure res

-- A resource that must be there; `e` is the error if it is not.
abbrev pub required_resource : String → ℕ → M Resource
required_resource name e = platform_get_resource name >>= or_fail e

-- A mapping that must not fail.
abbrev pub mapped : Resource → M ℕ
mapped res = do vbase ← devm_ioremap res.start res.size; when (vbase == 0) (fail enomem); pure vbase

abbrev pub set_osm_base : ℕ → Bases → Bases
set_osm_base a b = record b { osm_base = a }

abbrev pub store_osm : ℕ → ℕ → ClkOsm → ClkOsm
store_osm pbase vbase c = record c {
  pbases = set_osm_base pbase c.pbases;
  vbases = set_osm_base vbase c.vbases;
}

-- The second cluster's block follows the first one's.
unfoldable pub map_osm : M (Unit {0})
map_osm = do
  res ← required_resource "osm" enomem
  modify pwrcl λ c. record c { pbases = set_osm_base res.start c.pbases }
  vbase ← devm_ioremap res.start res.size
  modify pwrcl λ c. record c { vbases = set_osm_base vbase c.vbases }
  when (vbase == 0) (fail enomem)
  p ← get pwrcl
  let offset = cluster_num perfcl * osm_core_table_size
  modify perfcl (store_osm (u64 (p.pbases.osm_base + offset)) (p.vbases.osm_base + offset))

abbrev pub store_pll : ℕ → ℕ → ClkOsm → ClkOsm
store_pll pbase vbase c = record c {
  pbases = record c.pbases { pll_base = pbase };
  vbases = record c.vbases { pll_base = vbase };
}

unfoldable pub map_pll : Cluster → String → M (Unit {0})
map_pll k name = do
  res ← required_resource name enomem
  vbase ← mapped res
  modify k (store_pll res.start vbase)

-- `virt_base`, and the register map of the clock of the OSM.
unfoldable pub map_common : M (Unit {0})
map_common = do
  res ← required_resource "apcs_common" einval
  _ ← mapped res
  λ w. of_error w.env.platform.regmap_error w

abbrev pub store_efuse : ℕ → ℕ → ClkOsm → ClkOsm
store_efuse pbase vbase c = record c {
  pbases = record c.pbases { efuse_base = pbase };
  vbases = record c.vbases { efuse_base = vbase };
}

abbrev pub map_efuse_of : Cluster → Option Resource → M (Unit {0})
map_efuse_of k none = pure tt
map_efuse_of k (some res) = do vbase ← mapped res; modify k (store_efuse res.start vbase)

unfoldable pub map_efuse : Cluster → String → M (Unit {0})
map_efuse k name = platform_get_resource name >>= map_efuse_of k

abbrev pub store_acd : Resource → ℕ → ClkOsm → ClkOsm
store_acd res vbase c = record c {
  pbases = record c.pbases { acd_base = res.start };
  acd_debugfs_addr_size = res.size;
  vbases = record c.vbases { acd_base = vbase };
  acd_init = true;
}

abbrev pub no_acd : ClkOsm → ClkOsm
no_acd c = record c { acd_init = false }

abbrev pub map_acd_of : Cluster → Option Resource → M (Unit {0})
map_acd_of k none = modify k no_acd
map_acd_of k (some res) = do vbase ← mapped res; modify k (store_acd res vbase)

unfoldable pub map_acd : Cluster → String → M (Unit {0})
map_acd k name = platform_get_resource name >>= map_acd_of k

-- A register of four bytes that the panic notifier reads; stored, then checked.
abbrev pub store_debug : ℕ → ℕ → ClkOsm → ClkOsm
store_debug i vbase c = record c { debug_regs = set c.debug_regs i vbase }

abbrev pub map_debug_reg : Cluster → ℕ → ℕ → M (Unit {0})
map_debug_reg k i address = do
  vbase ← devm_ioremap address 4
  modify k (store_debug i vbase)
  when (vbase == 0) (fail enomem)

-- `clk_panic_reg_offsets`
abbrev pub wdog_domain_pstate_status : ℕ
wdog_domain_pstate_status = 0x1c00

abbrev pub wdog_program_counter : ℕ
wdog_program_counter = 0x1c74

unfoldable pub map_debug_regs : Cluster → M (Unit {0})
map_debug_regs k = do
  c ← get k
  map_debug_reg k 0 (u64 (c.pbases.osm_base + wdog_domain_pstate_status))
  map_debug_reg k 1 (u64 (c.pbases.osm_base + wdog_program_counter))
  map_debug_reg k 2 c.apm_ctrl_status

abbrev pub devm_regulator_get : String → M (Unit {0})
devm_regulator_get name w = of_error (w.env.platform.regulator_error name) w

-- The node of a supply, and the device two levels above it.
abbrev pub find_supply : String → M (Unit {0})
find_supply name w =
    (do
      when (not (w.env.platform.supply_node name)) (fail einval)
      when (not (w.env.platform.supply_device name)) (fail einval))
      w

unfoldable pub find_supplies : M (Unit {0})
find_supplies = do
  devm_regulator_get "vdd-pwrcl"
  devm_regulator_get "vdd-perfcl"
  find_supply "vdd-pwrcl-supply"
  find_supply "vdd-perfcl-supply"

unfoldable pub clk_osm_resources_init : M (Unit {0})
clk_osm_resources_init = do
  map_osm
  map_pll pwrcl "pwrcl_pll"
  map_pll perfcl "perfcl_pll"
  map_common
  map_efuse pwrcl "pwrcl_efuse"
  map_efuse perfcl "perfcl_efuse"
  map_acd pwrcl "pwrcl_acd"
  map_acd perfcl "perfcl_acd"
  map_debug_regs pwrcl
  map_debug_regs perfcl
  find_supplies
