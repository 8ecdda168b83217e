-- ===== src/Resources/Mapped.antt =====
-- What `clk_osm_resources_init` of clk-cpu-osm-660.c has done when it succeeds.
use Prim.Native.String.{String}
use xiaomi_pad4_ubuntu_touch.Base.{
  ℕ, ◌+◌, ◌≡◌, ◌≢◌, refl, subst, Bool, true, false, Option, none, some, ◌==◌, inl, inr, Bool-cases,
  arith,
}
use xiaomi_pad4_ubuntu_touch.Osm.{
  Cluster, pwrcl, perfcl, ClkOsm, Resource, Env, World, ok, clock, modify, ◌>>◌, enomem,
}
use xiaomi_pad4_ubuntu_touch.Osm.Regs.{osm_core_table_size}
use xiaomi_pad4_ubuntu_touch.Osm.Keeps.{
  Keeps, Ensures, Ensures-bind, Ensures-then, Ensures-also, Ensures-nothing, Keeps-Ensures,
  Keeps-then, shown, views, Keeps-field, Keeps-perfcl, Keeps-modify,
}
use xiaomi_pad4_ubuntu_touch.Resources.{
  platform_get_resource, required_resource, mapped, map_osm, store_pll, map_pll, map_common,
  store_efuse, map_efuse, store_acd, no_acd, map_acd, map_acd_of, store_debug, map_debug_regs,
  find_supplies, clk_osm_resources_init,
}
use xiaomi_pad4_ubuntu_touch.Resources.Kept.{
  mapped-Kept, pll-Kept, common-Kept, efuse-Kept, acd-Kept, debug_regs-Kept, supplies-Kept,
}

-- The block that is the ACD's, from its resource; without one the ACD is not started.
abbrev pub AcdIs : Option Resource → Bool × ℕ × ℕ → Type 0
AcdIs none (init, base, size) = init ≡ false
AcdIs (some res) (init, base, size) = (init ≡ true) × (base ≢ 0) × (size ≡ res.size)

abbrev pub acd_view : ClkOsm → Bool × ℕ × ℕ
acd_view c = (c.acd_init, c.vbases.acd_base, c.acd_debugfs_addr_size)

abbrev pub acd_name : Cluster → String
acd_name pwrcl = "pwrcl_acd"
acd_name perfcl = "perfcl_acd"

pub record Mapped (w : World) : Type 0 where
  pub osm_mapped : (clock pwrcl w).vbases.osm_base ≢ 0
  pub osm_apart :
      (clock perfcl w).vbases.osm_base ≡ (clock pwrcl w).vbases.osm_base + osm_core_table_size
  pub pll_mapped : (k : Cluster) → (clock k w).vbases.pll_base ≢ 0
  pub acd : (k : Cluster) → AcdIs (w.env.platform.get_resource (acd_name k)) (acd_view (clock k w))

non_null : (v : ℕ) → (v == 0) ≡ false → v ≢ 0
non_null v there e = ground arith

mapped-Ensures : (res : Resource) → Ensures (λ w. Unit {0}) (mapped res) (λ v w. v ≢ 0)
mapped-Ensures res = record {
  ensures = λ w t a done.
      let vbase = w.env.platform.ioremap res.start res.size in
      elim (Bool-cases (vbase == 0)) [
        | inl null ↦ cc (rw null at done)
        | inr there ↦
            let same : vbase ≡ a = cc (rw there at done) in
            subst (λ v. v ≢ 0) same (non_null vbase there)
      ];
}

-- The first step: both blocks.
abbrev OsmMapped : ℕ × ℕ → Type 0
OsmMapped (p, f) = (p ≢ 0) × (f ≡ p + osm_core_table_size)

abbrev osm_view : ClkOsm → ℕ
osm_view c = c.vbases.osm_base

osm-Ensures : Ensures (λ w. Unit {0}) map_osm (λ u w. OsmMapped (views osm_view w))
unfolding map_osm
osm-Ensures = Ensures-bind (Ensures-nothing (required_resource "osm" enomem)) λ res. record {
  ensures = λ w t u done.
      let vbase = w.env.platform.ioremap res.start res.size in
      elim (Bool-cases (vbase == 0)) [
        | inl null ↦ cc (rw null at done)
        | inr there ↦ rw there (non_null vbase there, refl)
      ];
}

pll-Ensures :
    (k : Cluster) (name : String)
    → Ensures (λ w. Unit {0}) (map_pll k name) (λ u w. (clock k w).vbases.pll_base ≢ 0)
unfolding map_pll
pll-Ensures k name = Ensures-bind (Ensures-nothing (required_resource name enomem)) λ res.
    Ensures-bind (mapped-Ensures res)
      λ v. record { ensures = λ w there u done. stored k w res v there }
  where
    stored :
        (k : Cluster) (w : World) (res : Resource) (v : ℕ)
        → v ≢ 0
        → (clock k (modify k (store_pll res.start v) w).1).vbases.pll_base ≢ 0
    stored pwrcl w res v there = there
    stored perfcl w res v there = there

abbrev asks : String → World → Option Resource
asks name w = w.env.platform.get_resource name

acd_of-Ensures :
    (k : Cluster) (name : String) (r : Option Resource)
    → Ensures
        (λ w. asks name w ≡ r)
        (map_acd_of k r)
        (λ u w. AcdIs (asks name w) (acd_view (clock k w)))
acd_of-Ensures pwrcl name none = record { ensures = λ w e u done. rw e refl }
acd_of-Ensures perfcl name none = record { ensures = λ w e u done. rw e refl }
acd_of-Ensures k name (some res) =
    Ensures-bind
      (Ensures-also (mapped-Ensures res) (
        Keeps-Ensures (λ env. env.platform.get_resource name ≡ some res)
          (mapped-Kept (λ w. w.env) res)))
      λ v. record { ensures = λ w (there, e) u done. stored k w v there e }
  where
    stored :
        (k : Cluster) (w : World) (v : ℕ)
        → v ≢ 0
        → asks name w ≡ some res
        → AcdIs (asks name w) (acd_view (clock k (modify k (store_acd res v) w).1))
    stored pwrcl w v there e = rw e (refl, there, refl)
    stored perfcl w v there e = rw e (refl, there, refl)

acd-Ensures :
    (k : Cluster) (name : String)
    → Ensures (λ w. Unit {0}) (map_acd k name) (λ u w. AcdIs (asks name w) (acd_view (clock k w)))
unfolding map_acd
acd-Ensures k name =
    Ensures-bind {m = platform_get_resource name} (record { ensures = λ w t r done. cc done })
      (acd_of-Ensures k name)

-- What the last steps keep.
module _ {X : Type 0} (part : World → X)
    (debug : (k : Cluster) (i v : ℕ) → Keeps part (modify k (store_debug i v))) where
  tail_debug : Keeps part (do map_debug_regs pwrcl; map_debug_regs perfcl; find_supplies)
  tail_debug =
      Keeps-then part (debug_regs-Kept part pwrcl (debug pwrcl))
        (Keeps-then part (debug_regs-Kept part perfcl (debug perfcl)) (supplies-Kept part))

  module _ (clear : (k : Cluster) → Keeps part (modify k no_acd))
      (acd : (k : Cluster) (res : Resource) (v : ℕ) → Keeps part (modify k (store_acd res v)))
      (efuse : (k : Cluster) (p v : ℕ) → Keeps part (modify k (store_efuse p v))) where
    pub tail_common : Keeps part (do
      map_common
      map_efuse pwrcl "pwrcl_efuse"
      map_efuse perfcl "perfcl_efuse"
      map_acd pwrcl "pwrcl_acd"
      map_acd perfcl "perfcl_acd"
      map_debug_regs pwrcl
      map_debug_regs perfcl
      find_supplies)
    tail_common = Keeps-then part (common-Kept part) (
        Keeps-then part (efuse-Kept part pwrcl "pwrcl_efuse" (efuse pwrcl)) (
          Keeps-then part (efuse-Kept part perfcl "perfcl_efuse" (efuse perfcl)) (
            Keeps-then part (acd-Kept part pwrcl "pwrcl_acd" (clear pwrcl) (acd pwrcl)) (
              Keeps-then part (acd-Kept part perfcl "perfcl_acd" (clear perfcl) (acd perfcl))
                tail_debug))))

osm-Mapped : Ensures (λ w. Unit {0}) clk_osm_resources_init (λ u w. OsmMapped (views osm_view w))
unfolding clk_osm_resources_init
osm-Mapped =
    let part = views osm_view in
    let keep = Keeps-modify osm_view in
    Ensures-then osm-Ensures (
      Keeps-Ensures OsmMapped (
        Keeps-then part
          (pll-Kept part pwrcl "pwrcl_pll" (λ p v. keep pwrcl (store_pll p v) (λ c. refl)))
          (Keeps-then part
            (pll-Kept part perfcl "perfcl_pll" (λ p v. keep perfcl (store_pll p v) (λ c. refl)))
            (tail_common part (λ k i v. keep k (store_debug i v) (λ c. refl))
              (λ k. keep k no_acd (λ c. refl)) (λ k res v. keep k (store_acd res v) (λ c. refl))
              (λ k p v. keep k (store_efuse p v) (λ c. refl))))))

abbrev pll_view : ClkOsm → ℕ
pll_view c = c.vbases.pll_base

pll-Mapped :
    Ensures
      (λ w. Unit {0})
      clk_osm_resources_init
      (λ u w. (pll_view (w.clocks pwrcl) ≢ 0) × (pll_view (w.clocks perfcl) ≢ 0))
unfolding clk_osm_resources_init
pll-Mapped =
    let part = views pll_view in
    let keep = Keeps-modify pll_view in
    Ensures-then (Ensures-nothing map_osm) (
      Ensures-then (pll-Ensures pwrcl "pwrcl_pll") (
        Ensures-then
          (Ensures-also (pll-Ensures perfcl "perfcl_pll") (
            Keeps-Ensures (λ (env, base). base ≢ 0)
              (pll-Kept (shown pll_view pwrcl) perfcl "perfcl_pll"
                (λ p v. Keeps-perfcl pll_view (store_pll p v)))))
          (record {
            ensures = λ w (f, p) u done.
                (Keeps-Ensures (λ (p, f). (p ≢ 0) × (f ≢ 0))
                    (tail_common part (λ k i v. keep k (store_debug i v) (λ c. refl))
                      (λ k. keep k no_acd (λ c. refl))
                      (λ k res v. keep k (store_acd res v) (λ c. refl))
                      (λ k p v. keep k (store_efuse p v) (λ c. refl)))).ensures
                  w (p, f) u done;
          })))

abbrev pub AcdFor : String → Env × (Bool × ℕ × ℕ) → Type 0
AcdFor name (env, view) = AcdIs (env.platform.get_resource name) view

pub acd-Mapped :
    Ensures
      (λ w. Unit {0})
      clk_osm_resources_init
      (λ u w.
        AcdFor "pwrcl_acd" (shown acd_view pwrcl w) × AcdFor "perfcl_acd" (shown acd_view perfcl w))
unfolding clk_osm_resources_init
acd-Mapped =
    let tail = λ (k : Cluster). Keeps-Ensures (AcdFor (acd_name k)) (
      tail_debug (shown acd_view k)
        (λ j i v. Keeps-field acd_view k j (store_debug i v) (λ c. refl))) in
    Ensures-then (Ensures-nothing map_osm) (
      Ensures-then (Ensures-nothing (map_pll pwrcl "pwrcl_pll")) (
        Ensures-then (Ensures-nothing (map_pll perfcl "perfcl_pll")) (
          Ensures-then (Ensures-nothing map_common) (
            Ensures-then (Ensures-nothing (map_efuse pwrcl "pwrcl_efuse")) (
              Ensures-then (Ensures-nothing (map_efuse perfcl "perfcl_efuse")) (
                Ensures-then (acd-Ensures pwrcl "pwrcl_acd") (
                  Ensures-then
                    (Ensures-also (acd-Ensures perfcl "perfcl_acd") (
                      Keeps-Ensures (AcdFor "pwrcl_acd") (
                        acd-Kept (shown acd_view pwrcl) perfcl "perfcl_acd"
                          (Keeps-perfcl acd_view no_acd)
                          (λ res v. Keeps-perfcl acd_view (store_acd res v)))))
                    (record {
                      ensures = λ w (f, p) u done.
                          ((tail pwrcl).ensures w p u done, (tail perfcl).ensures w f u done);
                    }))))))))

-- When the resources are found, the OSM blocks of the two clusters and their PLLs are mapped, the
-- second OSM block lies 8192 bytes past the first, and the ACD of a cluster is marked for its start
-- exactly if it has a resource, which is then mapped and gives the size of its debug window.
pub resources_init-Mapped :
    (w : World) → (clk_osm_resources_init w).0 ≡ ok tt → Mapped (clk_osm_resources_init w).1
resources_init-Mapped w done =
    let (p, apart) = osm-Mapped.ensures w tt tt done in
    let (pll_p, pll_f) = pll-Mapped.ensures w tt tt done in
    let (acd_p, acd_f) = acd-Mapped.ensures w tt tt done in
    let w' = (clk_osm_resources_init w).1 in
    record {
      osm_mapped = p;
      osm_apart = apart;
      pll_mapped = by_cluster (λ k. pll_view (clock k w') ≢ 0) pll_p pll_f;
      acd = by_cluster (λ k. AcdIs (asks (acd_name k) w') (acd_view (clock k w'))) acd_p acd_f;
    }
  where
    by_cluster : (P : Cluster → Type 0) → P pwrcl → P perfcl → (k : Cluster) → P k
    by_cluster P p f pwrcl = p
    by_cluster P p f perfcl = f
