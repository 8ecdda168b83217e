-- ===== src/Lut/Parsed.antt =====
-- `clk_osm_get_lut` on a property of a whole number of rows, from 1 to 40.
use Prim.Native.String.{String}
use xiaomi_pad4_ubuntu_touch.Base.{
  ℕ, zero, suc, ◌+◌, ◌-◌, ◌*◌, ◌/◌, ◌%◌, ◌≤◌, ◌≡◌, refl, ap, true, false, List, [], ◌∷◌, ◌++◌, inl,
  inr, Bool-cases, none, some, length, arith, replicate, lt→ltb, le→ltb_false, ltb,
}
use xiaomi_pad4_ubuntu_touch.Osm.{
  Cluster, OsmEntry, ClkOsm, World, Alloc, fmax_temp_alloc, lut_alloc, rate_max_alloc, clock, ok,
  replaced, replaced_self,
}
use xiaomi_pad4_ubuntu_touch.Osm.Regs.{osm_table_size}
use xiaomi_pad4_ubuntu_touch.Lut.{is_quad, fill, keep_volts, clk_osm_get_lut}
use xiaomi_pad4_ubuntu_touch.Lut.Fill.{row, rows_from, quad_rates, fill_rows}

length-quad_rates : (rows : List OsmEntry) → length (quad_rates rows) ≤ length rows
length-quad_rates [] = omega arith
length-quad_rates (e ∷ rows) = elim (Bool-cases (is_quad e)) [
  | inl quad ↦ rw quad (omega (arith, length-quad_rates rows))
  | inr other ↦ rw other (omega (arith, length-quad_rates rows))
]

length-rows_from : (array : List ℕ) (r d : ℕ) → length (rows_from array r d) ≡ d
length-rows_from array r zero = refl
length-rows_from array r (suc d) = ap suc (length-rows_from array (r + 1) d)

-- The 40 rows of the table that a property of `suc n` rows gives.
abbrev pub padded_rows : List ℕ → ℕ → List OsmEntry
padded_rows array n =
    rows_from array 0 (suc n) ++ replicate (osm_table_size - suc n) (row array (5 * n))

-- What is assumed of the device tree, the property `name` and the allocator: the property is
-- there, has `suc n` rows of five cells, is read in full, and there is memory.
pub record HasTable (w : World) (name : String) (n : ℕ) : Type 0 where
  pub found : w.env.of_find_property name ≡ some (4 * (5 * suc n))
  pub readable : w.env.of_read_array_error name (5 * suc n) ≡ none
  pub whole : length (w.env.of_read_array name (5 * suc n)) ≡ 5 * suc n
  pub memory : (a : Alloc) → w.env.alloc a ≡ true

abbrev pub with_table : List ℕ → ℕ → ClkOsm → ClkOsm
with_table array n c = record c {
  num_entries = suc n;
  osm_table = keep_volts c.osm_table (padded_rows array n);
  rate_max = quad_rates (rows_from array 0 (suc n));
}

fill_table :
    (array : List ℕ) (n : ℕ)
    → suc n ≤ osm_table_size
    → length array ≡ 5 * suc n
    → fill array (5 * suc n) osm_table_size 0 false
      ≡ some (record { rows = padded_rows array n; fmax = quad_rates (rows_from array 0 (suc n)) })
fill_table array n small len =
    let rounds : suc (n + (40 - suc n)) ≡ 40 = omega arith in
    rw rounds at (fill_rows array n len n 0 (40 - suc n) (omega arith))

cells : (n : ℕ) → 4 * (5 * suc n) / 4 ≡ 5 * suc n
cells n = omega arith

whole_rows : (n : ℕ) → 5 * suc n % 5 ≡ 0
whole_rows n = omega arith

rows_count : (n : ℕ) → 5 * suc n / 5 ≡ suc n
rows_count n = omega arith

length_fits :
    (array : List ℕ) (n : ℕ)
    → ltb (length (quad_rates (rows_from array 0 (suc n)))) (2 * suc n) ≡ true
length_fits array n =
    let rows = rows_from array 0 (suc n) in
    lt→ltb (length (quad_rates rows)) (2 * suc n)
      (omega (arith, length-quad_rates rows, length-rows_from array 0 (suc n)))

-- The run of the function, with the clock replaced three times.
get_lut_run :
    (k : Cluster) (name : String) (n : ℕ) (w : World)
    → HasTable w name n
    → suc n ≤ osm_table_size
    → let array = w.env.of_read_array name (5 * suc n) in
      let c = clock k w in
      let c1 = record c { num_entries = suc n } in
      let c2 = record c1 { osm_table = keep_volts c.osm_table (padded_rows array n) } in
      clk_osm_get_lut k name w ≡ (
        ok tt,
        record w {
          clocks = replaced k (with_table array n c) (replaced k c2 (replaced k c1 w.clocks));
        },
      )
unfolding clk_osm_get_lut
get_lut_run k name n w t small = rw (
  t.found,
  cells n,
  whole_rows n,
  rows_count n,
  t.memory fmax_temp_alloc,
  t.memory lut_alloc,
  t.readable,
  le→ltb_false osm_table_size (suc n) small,
  fill_table (w.env.of_read_array name (5 * suc n)) n small t.whole,
  length_fits (w.env.of_read_array name (5 * suc n)) n,
  t.memory rate_max_alloc,
  replaced_self,
  replaced_self,
)

-- With a property of whole rows that is read in full, and memory, a table of 1 to 40 rows is
-- read: the cluster then has that many entries, its 40 rows are those of the device tree with the
-- last one repeated and with the voltages that they had, its rates are those of the rows for all
-- cores in their order, and nothing else of it has changed.
pub get_lut-with_table :
    (k : Cluster) (name : String) (n : ℕ) (w : World)
    → HasTable w name n
    → suc n ≤ osm_table_size
    → let (r, w') = clk_osm_get_lut k name w in
      (r ≡ ok tt)
      × (clock k w' ≡ with_table (w.env.of_read_array name (5 * suc n)) n (clock k w))
      × (w'.bus ≡ w.bus)
get_lut-with_table k name n w t small =
    rw (get_lut_run k name n w t small) (refl, replaced_self k _ _, refl)
