-- ===== src/Rates/SetRate.antt =====
-- `clk_osm_set_rate` against `clk_osm_recalc_rate`.
use mathlib.Core.List.{Memᴰ}
use native.Mathlib.Nat.{mod-eq_of_lt}
use xiaomi_pad4_ubuntu_touch.Base.{
  ℕ, ◌+◌, ◌≤◌, ◌<◌, ◌^◌, ◌≡◌, sym, ap, ◌∙◌, ◌≢◌, inl, inr, List, some, get_or, arith, ◌==◌, ==_refl,
  ==_of_ne, Bool-cases, u32,
}
use xiaomi_pad4_ubuntu_touch.Osm.{
  Cluster, World, Access, clock, ok, err, einval, Holds, last_written, ◌>>=◌,
}
use xiaomi_pad4_ubuntu_touch.Osm.Regs.{dcvs_perf_state_desired_reg, osm_table_size}
use xiaomi_pad4_ubuntu_touch.Rates.{
  request_state, clk_osm_set_rate, clk_osm_recalc_rate, clk_osm_determine_rate,
  clk_osm_search_table, best_rate,
}
use xiaomi_pad4_ubuntu_touch.Rates.Choice.{All, IsRate, best_rate-exact, best_rate-exact_inv}
use xiaomi_pad4_ubuntu_touch.Rates.Table.{
  IsMatch, IsFirst, search_table-IsMatch, search_table-IsFirst,
}

-- The performance state register of a cluster.
abbrev pub desired : Cluster → World → ℕ
desired k w = (clock k w).vbases.osm_base + dcvs_perf_state_desired_reg

-- Asking for a row succeeds, leaves the row as the last value written to the register, and changes
-- nothing but the bus.
request_state_lem :
    (k : Cluster) (row : ℕ) (w : World)
    → let (r, w') = request_state k row w in
      (r ≡ ok tt)
      × (last_written (desired k w) w'.bus ≡ some (u32 row))
      × (w' ≡ record w { bus = w'.bus })
unfolding request_state
request_state_lem k row w = elim (Bool-cases (get_or (clock k w).llm_sw_overr 0 0 == 0)) [
  | inl plain ↦ ground arith
  | inr overridden ↦ ground arith
]

determine_rate_pos :
    (k : Cluster) (rate : ℕ) (w : World)
    → 0 < rate
    → clk_osm_determine_rate k rate w ≡ (ok (best_rate rate 0 (clock k w).rate_max), w)
unfolding clk_osm_determine_rate
determine_rate_pos k rate w pos = ground arith

-- What `clk_osm_set_rate` comes to once the rate is chosen.
set_rate_chosen :
    (k : Cluster) (rate : ℕ) (w : World)
    → 0 < rate
    → best_rate rate 0 (clock k w).rate_max ≡ rate
    → clk_osm_set_rate k rate w
      ≡ ((λ w. (clk_osm_search_table (clock k w).osm_table (clock k w).num_entries rate, w))
            >>= request_state k)
          w
unfolding clk_osm_set_rate
set_rate_chosen k rate w pos e = rw (determine_rate_pos k rate w pos, e, ==_refl)

set_rate_other :
    (k : Cluster) (rate : ℕ) (w : World)
    → 0 < rate
    → best_rate rate 0 (clock k w).rate_max ≢ rate
    → clk_osm_set_rate k rate w ≡ (err einval, w)
unfolding clk_osm_set_rate
set_rate_other k rate w pos ne =
    rw (determine_rate_pos k rate w pos, ==_of_ne rate _ (λ same. ne (sym same)))

-- A rate other than 0 that the cluster does not list is refused, and nothing is written.
pub set_rate_refused :
    (k : Cluster) (rate : ℕ) (w : World)
    → 0 < rate
    → ¬ Memᴰ rate (clock k w).rate_max
    → clk_osm_set_rate k rate w ≡ (err einval, w)
set_rate_refused k rate w pos unlisted =
    set_rate_other k rate w pos λ e. unlisted (best_rate-exact_inv rate _ pos e)

-- The row that the register holds is read back as its frequency.
recalc_rate-Holds :
    (k : Cluster) (rate row : ℕ) (w : World) (bus : List Access)
    → Holds w (desired k w)
    → last_written (desired k w) bus ≡ some row
    → row < 2 ^ 32
    → IsMatch rate (clock k w).osm_table (clock k w).num_entries row
    → (clk_osm_recalc_rate k (record w { bus = bus })).0 ≡ ok rate
unfolding clk_osm_recalc_rate
recalc_rate-Holds k rate row w bus holds last small m =
    rw (holds bus row last, mod-eq_of_lt small, m.at, m.runs_at)

-- A listed rate above 0 for which the table has a row for all cores is accepted: the first such
-- row is requested, and with a performance state register that holds what is written to it,
-- `clk_osm_recalc_rate` then reads that rate. The table has at most 40 rows in use, and no listed
-- rate reads as an error code.
pub recalc_rate-set_rate :
    (k : Cluster) (rate row : ℕ) (w : World)
    → Holds w (desired k w)
    → (clock k w).num_entries ≤ osm_table_size
    → 0 < rate
    → All IsRate (clock k w).rate_max
    → Memᴰ rate (clock k w).rate_max
    → row < (clock k w).num_entries
    → IsFirst rate (clock k w).osm_table row
    → let (r, w') = clk_osm_set_rate k rate w in
      (r ≡ ok tt)
      × (last_written (desired k w) w'.bus ≡ some row)
      × ((clk_osm_recalc_rate k w').0 ≡ ok rate)
recalc_rate-set_rate k rate row w holds size pos rates listed below first =
    let (done, last, only_bus) = request_state_lem k row w in
    let small : row < 2 ^ 32 = omega arith in
    let last' : last_written (desired k w) (request_state k row w).1.bus ≡ some row =
      last ∙ ap some (mod-eq_of_lt small) in
    let found =
      search_table-IsFirst rate (clock k w).num_entries row (clock k w).osm_table below first in
    rw (set_rate_chosen k rate w pos (best_rate-exact rate _ rates listed), found)
      (
        done,
        last',
        rw only_bus (
            recalc_rate-Holds k rate row w _ holds last' small
              (search_table-IsMatch rate _ row _ found)),
      )
