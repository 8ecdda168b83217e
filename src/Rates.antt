-- ===== src/Rates.antt =====
-- The rate operations of `clk_ops_cpu_osm_660` in clk-cpu-osm-660.c: which rates exist, which one
-- answers a request, and the performance state that is asked of the hardware.
pub mod Choice
pub mod Table
pub mod SetRate
pub mod Reference
use xiaomi_pad4_ubuntu_touch.Base.{
  ℕ, zero, suc, ◌+◌, ◌-◌, ◌^◌, Bool, not, ◌&&◌, ◌||◌, List, [], ◌∷◌, length, get_or, ltb, leb, ◌==◌,
  if◌then◌else◌, core_count_val,
}
use xiaomi_pad4_ubuntu_touch.Osm.{
  Cluster, OsmEntry, Result, ok, err, fault, M, ◌>>=◌, ◌>>◌, pure, fail, when, index, get, udelay,
  clk_osm_write_reg, clk_osm_read_reg, clk_osm_mb, einval, enxio,
}
use xiaomi_pad4_ubuntu_touch.Osm.Regs.{
  single_core, max_core_count, llm_sw_override_reg, dcvs_perf_state_desired_reg,
}

-- IS_ERR_VALUE of an `unsigned long`: the last 4095 values.
abbrev pub is_err_value : ℕ → Bool
is_err_value x = leb (2 ^ 64 - 4095) x

abbrev pub is_better_rate : ℕ → ℕ → ℕ → Bool
is_better_rate req best new =
    not (is_err_value new) && (leb req new && ltb new best || ltb best req && ltb best new)

-- The loop of `clk_osm_determine_rate` over the rest of `rate_max`, with its `break`.
pub best_rate : ℕ → ℕ → List ℕ → ℕ
best_rate rate rrate [] = rrate
best_rate rate rrate (x ∷ xs) =
    let better = is_better_rate rate rrate x in
    let rest = best_rate rate (if better then x else rrate) xs in
    if better && rate == x then x else rest

-- The new `req->rate`.
pub clk_osm_determine_rate : Cluster → ℕ → M ℕ
clk_osm_determine_rate k rate = do
  c ← get k
  if rate == 0 then index c.rate_max 0 else pure (best_rate rate 0 c.rate_max)

pub clk_osm_list_rate : Cluster → ℕ → M ℕ
clk_osm_list_rate k n = do
  c ← get k
  if leb (length c.rate_max) n then fail enxio else index c.rate_max n

abbrev pub is_row : ℕ → ℕ → OsmEntry → Bool
is_row rate cores e = rate == e.frequency && core_count_val e.freq_data == cores

-- The loop of `clk_osm_search_table` at row `i`, with `n` rows left; the list is the table from
-- row `i` on. A row past the end of the array is a `fault`.
pub search_rows : ℕ → ℕ → ℕ → ℕ → List OsmEntry → Result ℕ
search_rows rate zero i single rows = if single == 0 then err einval else ok single
search_rows rate (suc n) i single [] = fault
search_rows rate (suc n) i single (e ∷ rows) =
    let is_single = is_row rate single_core e in
    let rest = search_rows rate n (i + 1) (if is_single then i else single) rows in
    if is_single then rest else if is_row rate max_core_count e then ok i else rest

pub clk_osm_search_table : List OsmEntry → ℕ → ℕ → Result ℕ
unfolding search_rows
clk_osm_search_table table entries rate = search_rows rate entries 0 0 table

-- Asks the hardware for a row of the table, inside the overrides of the limits manager.
pub request_state : Cluster → ℕ → M (Unit {0})
request_state k row = do
  c ← get k
  let overridden = not (get_or c.llm_sw_overr 0 0 == 0)
  when overridden do
    clk_osm_write_reg k (get_or c.llm_sw_overr 0 0) llm_sw_override_reg
    clk_osm_write_reg k (get_or c.llm_sw_overr 1 0) llm_sw_override_reg
    udelay 1
  clk_osm_write_reg k row dcvs_perf_state_desired_reg
  when overridden do udelay 1; clk_osm_write_reg k (get_or c.llm_sw_overr 2 0) llm_sw_override_reg
  clk_osm_mb k

pub clk_osm_set_rate : Cluster → ℕ → M (Unit {0})
clk_osm_set_rate k rate = do
  chosen ← clk_osm_determine_rate k rate
  when (not (rate == chosen)) (fail einval)
  c ← get k
  row ← λ w. (clk_osm_search_table c.osm_table c.num_entries chosen, w)
  request_state k row

-- The frequency of the row that the hardware was last asked for.
pub clk_osm_recalc_rate : Cluster → M ℕ
clk_osm_recalc_rate k = do
  row ← clk_osm_read_reg k dcvs_perf_state_desired_reg
  c ← get k
  e ← index c.osm_table row
  pure e.frequency
