-- ===== src/Resources/Acd.antt =====
-- `clk_osm_resources_init` stores none of the ACD's settings, which the device tree gives.
use xiaomi_pad4_ubuntu_touch.Base.{refl}
use xiaomi_pad4_ubuntu_touch.Osm.{pwrcl, perfcl, World}
use xiaomi_pad4_ubuntu_touch.Osm.Keeps.{Keeps, Keeps-then, Keeps-modify, views}
use xiaomi_pad4_ubuntu_touch.Config.Kept.{AcdConfig, acd_config}
use xiaomi_pad4_ubuntu_touch.Resources.{
  set_osm_base, store_osm, store_pll, store_efuse, store_acd, no_acd, store_debug,
  clk_osm_resources_init,
}
use xiaomi_pad4_ubuntu_touch.Resources.Kept.{osm-Kept, pll-Kept}
use xiaomi_pad4_ubuntu_touch.Resources.Mapped.{tail_common}

abbrev pub configs : World → AcdConfig × AcdConfig
configs w = views acd_config w

pub resources-Kept : Keeps configs clk_osm_resources_init
unfolding clk_osm_resources_init
resources-Kept =
    let keep = Keeps-modify acd_config in
    Keeps-then configs
      (osm-Kept configs
        (λ p. keep pwrcl (λ c. record c { pbases = set_osm_base p c.pbases }) (λ c. refl))
        (λ v. keep pwrcl (λ c. record c { vbases = set_osm_base v c.vbases }) (λ c. refl))
        (λ p v. keep perfcl (store_osm p v) (λ c. refl)))
      (Keeps-then configs
        (pll-Kept configs pwrcl "pwrcl_pll" (λ p v. keep pwrcl (store_pll p v) (λ c. refl)))
        (Keeps-then configs
          (pll-Kept configs perfcl "perfcl_pll" (λ p v. keep perfcl (store_pll p v) (λ c. refl)))
          (tail_common configs (λ k i v. keep k (store_debug i v) (λ c. refl))
            (λ k. keep k no_acd (λ c. refl)) (λ k res v. keep k (store_acd res v) (λ c. refl))
            (λ k p v. keep k (store_efuse p v) (λ c. refl)))))
