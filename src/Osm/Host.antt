-- ===== src/Osm/Host.antt =====
-- What clk-cpu-osm-660.c asks of the platform when it is probed: the resources, and the services of
-- the kernel's frameworks, as their answers.
use Prim.Native.String.{String}
use xiaomi_pad4_ubuntu_touch.Base.{ℕ, Bool, List, Option}

-- `struct resource`: its start and `resource_size`.
pub record Resource : Type 0 where
  pub start : ℕ
  pub size : ℕ

-- The clocks of `osm_qcom_clk_hws`.
pub data ClkId : Type 0 where
  sys_apcsaux_clk_gcc pwrcl_hw perfcl_hw osm_clk_src : ClkId

-- `debugfs_fails` is asked with the directory and the name of an entry.
-- `some e` is the error `-e`; `ioremap` is 0 where it fails. `get_irq` is the 32-bit pattern of an
-- `int`; `osm_qcom_clk_hws` has
-- the clocks in the order of their indices, which a header of the kernel gives; and `cpu_hwid` the hardware id of a CPU that the device tree has, with its `reg`.
pub record Platform : Type 0 where
  pub get_resource : String → Option Resource
  pub ioremap : ℕ → ℕ → ℕ
  pub regmap_error : Option ℕ
  pub regulator_error : String → Option ℕ
  pub supply_node : String → Bool
  pub supply_device : String → Bool
  pub clk_get_error : String → Option ℕ
  pub get_irq : String → ℕ
  pub request_irq_error : String → Option ℕ
  pub osm_qcom_clk_hws : List ClkId
  pub clk_register_error : ClkId → Option ℕ
  pub add_provider_error : Option ℕ
  pub device_is_compatible : String → Bool
  pub possible_cpus : List ℕ
  pub online_cpus : List ℕ
  pub cpu_hwid : ℕ → Option ℕ
  pub cpu_has_device : ℕ → Bool
  pub debugfs_fails : String → String → Bool
