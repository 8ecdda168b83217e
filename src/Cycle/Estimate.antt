-- ===== src/Cycle/Estimate.antt =====
-- When `clk_osm_debug_irq_cb` has an estimate to print.
use xiaomi_pad4_ubuntu_touch.Base.{
  ℕ, zero, suc, ◌+◌, ◌≡◌, refl, ◌⊎◌, inl, inr, List, bit_and, u32, ◌==◌, ==_of_ne, Bool-cases,
  ℕ_discrete, ◌≢◌,
}
use xiaomi_pad4_ubuntu_touch.Osm.{Cluster, World, Access, clock, ok, fault, Result}
use xiaomi_pad4_ubuntu_touch.Osm.Regs.{
  dcvs_perf_state_deviation_intr_stat, dcvs_perf_state_deviation_intr_clear,
  dcvs_perf_state_deviation_corrected_intr_stat, dcvs_perf_state_deviation_corrected_intr_clear,
  dcvs_perf_state_met_intr_stat, dcvs_perf_state_met_intr_clr,
}
use xiaomi_pad4_ubuntu_touch.Cycle.{acknowledge, sample, clk_osm_debug_irq_cb}

-- An answer that only the bus shows.
abbrev OnlyBus : {A : Type 0} → World → Result A × World → Type 0
OnlyBus {A} w out = (a : A) × (bus : List Access) × (out ≡ (ok a, record w { bus = bus }))

acknowledge-OnlyBus :
    (k : Cluster) (stat clear : ℕ) (w : World) → OnlyBus w (acknowledge k stat clear w)
unfolding acknowledge
acknowledge-OnlyBus k stat clear w =
    elim (Bool-cases
      (bit_and (u32 (w.env.device w.bus ((clock k w).vbases.osm_base + stat))) 1 == 0)) [
        | inl idle ↦ rw idle (tt, _, refl)
        | inr pending ↦ rw pending (tt, _, refl)
      ]

sample-OnlyBus :
    (k : Cluster) (n delay factor total : ℕ) (w : World)
    → OnlyBus w (sample k n delay factor total w)
unfolding sample
sample-OnlyBus k zero delay factor total w = (total, w.bus, refl)
sample-OnlyBus k (suc n) delay factor total w = elim (Bool-cases (delay == 0)) [
  | inl e ↦ rw e (sample-OnlyBus k n delay factor _ _)
  | inr e ↦ rw e (sample-OnlyBus k n delay factor _ _)
]

-- The interrupt has an estimate, which only the bus shows, unless no factor is configured: then it
-- ends in a division by 0, as the factor of 1 that the loop uses in its place is not used there.
pub debug_irq_cb-divided :
    (k : Cluster) (w : World)
    → let (r, w') = clk_osm_debug_irq_cb k w in
      ((clock k w).cycle_counter_factor ≢ 0)
        × ((estimate : ℕ) × (r ≡ ok estimate))
        × (w'.clocks ≡ w.clocks)
      ⊎ ((clock k w).cycle_counter_factor ≡ 0) × (r ≡ fault)
unfolding clk_osm_debug_irq_cb
debug_irq_cb-divided k w =
    let (u1, b1, e1) =
      acknowledge-OnlyBus k dcvs_perf_state_deviation_intr_stat dcvs_perf_state_deviation_intr_clear
        w in
    let (u2, b2, e2) =
      acknowledge-OnlyBus k dcvs_perf_state_deviation_corrected_intr_stat
        dcvs_perf_state_deviation_corrected_intr_clear (record w { bus = b1 }) in
    let (u3, b3, e3) =
      acknowledge-OnlyBus k dcvs_perf_state_met_intr_stat dcvs_perf_state_met_intr_clr
        (record w { bus = b2 }) in
    let c = clock k w in
    elim (ℕ_discrete c.cycle_counter_factor 0) [
      | yes none_set ↦
          let (total, b4, e4) =
            sample-OnlyBus k c.cycle_counter_reads c.cycle_counter_delay 1 0
              (record w { bus = b3 }) in
          rw (e1, e2, e3, none_set, e4) (inr (refl, refl))
      | no set ↦
          let (total, b4, e4) =
            sample-OnlyBus k c.cycle_counter_reads c.cycle_counter_delay c.cycle_counter_factor 0
              (record w { bus = b3 }) in
          rw (e1, e2, e3, ==_of_ne c.cycle_counter_factor 0 set, e4) (inl (set, (_, refl), refl))
    ]
