-- ===== src/Corners.antt =====
-- The voltages of clk-cpu-osm-660.c: `clk_osm_resolve_open_loop_voltages` and
-- `clk_osm_resolve_crossover_corners`, which find the virtual corners at which the supply of the
-- memory arrays is switched.
pub mod Thresholds
use Prim.Native.String.{String}
use xiaomi_pad4_ubuntu_touch.Base.{
  ℕ, ◌+◌, ◌-◌, ◌^◌, Bool, not, ◌&&◌, List, [], ◌∷◌, map, Option, none, some, u16, sub32, int_div,
  is_negative, leb, ◌==◌, if◌then◌else◌,
}
use xiaomi_pad4_ubuntu_touch.Osm.{
  Cluster, OsmEntry, ClkOsm, World, Result, ok, err, fault, M, ◌>>=◌, ◌>>◌, pure, fail, attempt,
  crash, when, modify, of_property_read_u32,
}
use xiaomi_pad4_ubuntu_touch.Osm.Regs.{osm_seq_minus_one, max_virtual_corner}

pub clk_osm_resolve_open_loop_voltages : Cluster → M (Unit {0})
clk_osm_resolve_open_loop_voltages k w =
    modify k
      (λ c. record c {
        osm_table =
            map
              (λ (e : OsmEntry). record e {
                open_loop_volt =
                    u16
                      (int_div (w.env.regulator_list_corner_voltage k (e.virtual_corner + 1)) 1000);
              })
              c.osm_table;
      })
      w

-- The corner of the first row whose voltage reaches the threshold: the loop with its `break`.
-- Voltage and threshold are compared as u32.
pub first_reaching : (ℕ → ℕ) → ℕ → List OsmEntry → Option ℕ
first_reaching volts threshold [] = none
first_reaching volts threshold (e ∷ rows) =
    let rest = first_reaching volts threshold rows in
    if leb threshold (volts (e.virtual_corner + 1)) then some e.virtual_corner else rest

-- A threshold corner, and the one before it.
pub record Threshold : Type 0 where
  pub vc : ℕ
  pub pre_vc : ℕ

abbrev pub found_threshold : Option ℕ → Threshold → Threshold
found_threshold none t = t
found_threshold (some vc) t = record {
  vc = vc;
  pre_vc = if vc == 0 then osm_seq_minus_one else vc - 1;
}

-- A threshold that no row reaches.
abbrev pub default_threshold : Threshold → Threshold
default_threshold t =
    if t.vc == 0 && not (t.pre_vc == osm_seq_minus_one)
    then (record { vc = max_virtual_corner; pre_vc = max_virtual_corner - 1 })
    else t

-- The threshold corner that is resolved from the one that the cluster had.
pub resolve_threshold : (ℕ → ℕ) → ℕ → List OsmEntry → Threshold → Threshold
unfolding first_reaching
resolve_threshold volts threshold rows t =
    default_threshold (found_threshold (first_reaching volts threshold rows) t)

abbrev pub read_optional : Option String → M ℕ
read_optional none = pure 0
read_optional (some name) = attempt (of_property_read_u32 name) >>= value
  where
    value : Result ℕ → M ℕ
    value (ok v) = pure v
    value (err e) = pure 0
    value fault = crash

-- The crossover corners, the last of the `count` that the regulator has.
abbrev pub set_crossovers : ℕ → ℕ → ClkOsm → ClkOsm
set_crossovers count mem_acc_threshold c =
    if mem_acc_threshold == 0
    then (record c { apm_crossover_vc = sub32 count 1 })
    else record c { apm_crossover_vc = sub32 count 2; mem_acc_crossover_vc = sub32 count 1 }

abbrev pub set_apm_threshold : (ℕ → ℕ) → ℕ → ClkOsm → ClkOsm
set_apm_threshold volts threshold c =
    let t =
      resolve_threshold volts threshold c.osm_table
        (record { vc = c.apm_threshold_vc; pre_vc = c.apm_threshold_pre_vc }) in
    record c { apm_threshold_vc = t.vc; apm_threshold_pre_vc = t.pre_vc }

abbrev pub set_mem_acc_threshold : (ℕ → ℕ) → ℕ → ClkOsm → ClkOsm
set_mem_acc_threshold volts threshold c =
    let t =
      resolve_threshold volts threshold c.osm_table
        (record { vc = c.mem_acc_threshold_vc; pre_vc = c.mem_acc_threshold_pre_vc }) in
    record c { mem_acc_threshold_vc = t.vc; mem_acc_threshold_pre_vc = t.pre_vc }

pub clk_osm_resolve_crossover_corners : Cluster → Option String → M (Unit {0})
clk_osm_resolve_crossover_corners k mem_acc_prop w =
    (do
      apm_threshold ← of_property_read_u32 "qcom,apm-threshold-voltage"
      mem_acc_threshold ← read_optional mem_acc_prop
      let count = w.env.regulator_count_voltages k
      let volts = w.env.regulator_list_corner_voltage k
      when (is_negative count) (fail (2 ^ 32 - count))
      modify k (set_crossovers count mem_acc_threshold)
      modify k (set_apm_threshold volts apm_threshold)
      when (not (mem_acc_threshold == 0))
          (modify k (set_mem_acc_threshold volts mem_acc_threshold)))
      w
