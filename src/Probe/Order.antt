-- ===== src/Probe/Order.antt =====
-- The order of the first steps of `clk_cpu_osm_driver_probe` of clk-cpu-osm-660.c: the device tree is
-- parsed before the resources are found.
use Prim.Native.String.{String}
use xiaomi_pad4_ubuntu_touch.Base.{◌≡◌, sym, ap, subst, ◌∙◌, Bool, false}
use xiaomi_pad4_ubuntu_touch.Osm.{
  Cluster, pwrcl, perfcl, World, M, Result, ok, err, fault, continue, clock, ◌>>◌, allocate,
  clk_data_alloc, clks_alloc,
}
use xiaomi_pad4_ubuntu_touch.Osm.Keeps.{
  Keeps, Keeps-of_error, Keeps-allocate, KeepsFrom, Keeps-KeepsFrom, shown, Ensures, Ensures-then,
  Ensures-nothing,
}
use xiaomi_pad4_ubuntu_touch.Config.{clk_osm_parse_dt_configs}
use xiaomi_pad4_ubuntu_touch.Config.Kept.{part, AcdConfig, acd_config, NoAcd, parse-KeepsFrom}
use xiaomi_pad4_ubuntu_touch.Resources.Acd.{configs, resources-Kept}
use xiaomi_pad4_ubuntu_touch.Resources.Mapped.{AcdIs, AcdFor, acd_name, acd_view, acd-Mapped}
use xiaomi_pad4_ubuntu_touch.Probe.{devm_clk_get, probe_resources}

clk_get-Kept : {X : Type 0} (part : World → X) (name : String) → Keeps part (devm_clk_get name)
clk_get-Kept part name = record {
  keeps = λ w. (Keeps-of_error part (w.env.platform.clk_get_error name)).keeps w;
}

abbrev settings_of : (Bool × AcdConfig) × (Bool × AcdConfig) → AcdConfig × AcdConfig
settings_of ((p, config_p), (f, config_f)) = (config_p, config_f)

-- From a world where no ACD is marked for its start, the settings stay.
record Settles (m : M (Unit {0})) : Type 0 where
  settles : (w : World) → NoAcd (part w) → configs (m w).1 ≡ configs w

Settles-then : {m n : M (Unit {0})} → KeepsFrom part NoAcd m → Settles n → Settles (m >> n)
Settles-then {m} {n} first second = record {
  settles = λ w p. cases w p (m w).0 (m w).1 (first.keeps_from w p);
}
  where
    cases :
        (w : World) (p : NoAcd (part w)) (r : Result (Unit {0})) (w' : World)
        → part w' ≡ part w
        → configs (continue (λ done. n) r w').1 ≡ configs w
    cases w p (ok u) w' same = second.settles w' (subst NoAcd (sym same) p) ∙ ap settings_of same
    cases w p (err e) w' same = ap settings_of same
    cases w p fault w' same = ap settings_of same

resources-Settles : Settles probe_resources
unfolding probe_resources
resources-Settles = Settles-then (Keeps-KeepsFrom part (clk_get-Kept part "xo_a")) (
    Settles-then (Keeps-KeepsFrom part (clk_get-Kept part "aux_clk")) (
      Settles-then (Keeps-KeepsFrom part (Keeps-allocate part clk_data_alloc)) (
        Settles-then (Keeps-KeepsFrom part (Keeps-allocate part clks_alloc))
          (Settles-then parse-KeepsFrom (record { settles = λ w p. resources-Kept.keeps w })))))

resources-AcdFor :
    Ensures
      (λ w. Unit {0})
      probe_resources
      (λ u w.
        AcdFor "pwrcl_acd" (shown acd_view pwrcl w) × AcdFor "perfcl_acd" (shown acd_view perfcl w))
unfolding probe_resources
resources-AcdFor = Ensures-then (Ensures-nothing (devm_clk_get "xo_a")) (
    Ensures-then (Ensures-nothing (devm_clk_get "aux_clk")) (
      Ensures-then (Ensures-nothing (allocate clk_data_alloc)) (
        Ensures-then (Ensures-nothing (allocate clks_alloc))
          (Ensures-then (Ensures-nothing clk_osm_parse_dt_configs) acd-Mapped))))

-- If no ACD is marked for its start when the probe begins, as in the static clocks, then once the
-- resources are found the ACD of each cluster is marked exactly if it has a resource, but its
-- settings are those from before the probe: none of the device tree's were stored.
pub probe_resources-acd_config :
    (k : Cluster) (w : World)
    → (clock pwrcl w).acd_init ≡ false
    → (clock perfcl w).acd_init ≡ false
    → (probe_resources w).0 ≡ ok tt
    → let w' = (probe_resources w).1 in
      (acd_config (clock k w') ≡ acd_config (clock k w))
      × AcdIs (w'.env.platform.get_resource (acd_name k)) (acd_view (clock k w'))
probe_resources-acd_config pwrcl w no_p no_f done = (
  ap (λ p. p.0) (resources-Settles.settles w (no_p, no_f)),
  (resources-AcdFor.ensures w tt tt done).0,
)
probe_resources-acd_config perfcl w no_p no_f done = (
  ap (λ p. p.1) (resources-Settles.settles w (no_p, no_f)),
  (resources-AcdFor.ensures w tt tt done).1,
)
