-- ===== src/HwTable.antt =====
-- `clk_osm_setup_hw_table` of clk-cpu-osm-660.c: writes the 40 rows of the hardware's table, and
-- refuses a table in which two rows of one corner disagree.
pub mod Check
pub mod Written
pub mod Refused
pub mod Volt
use xiaomi_pad4_ubuntu_touch.Base.{
  ℕ, zero, suc, ◌+◌, ◌*◌, Bool, not, ◌&&◌, bit_or, bval, ltb, ◌==◌, if◌then◌else◌,
}
use xiaomi_pad4_ubuntu_touch.Osm.{
  Cluster, OsmEntry, M, ◌>>=◌, ◌>>◌, pure, fail, when, index, get, clk_osm_write_reg, clk_osm_mb,
  einval,
}
use xiaomi_pad4_ubuntu_touch.Osm.Regs.{
  index_reg, freq_reg, volt_reg, override_reg, spare_reg, osm_reg_size, osm_table_size,
}

-- The variables of the loop. `last_spare` is not set before `last_virtual_corner` is, and is read
-- only if that is not 0.
pub record RowValues : Type 0 where
  pub freq_val : ℕ
  pub volt_val : ℕ
  pub override_val : ℕ
  pub spare_val : ℕ
  pub last_virtual_corner : ℕ
  pub last_spare : ℕ

abbrev pub no_values : RowValues
no_values = record {
  freq_val = 0;
  volt_val = 0;
  override_val = 0;
  spare_val = 0;
  last_virtual_corner = 0;
  last_spare = 0;
}

abbrev pub volt_of : OsmEntry → ℕ
volt_of e = bit_or (bval 21 16 e.virtual_corner) (bval 11 0 e.open_loop_volt)

abbrev pub values_of : OsmEntry → RowValues
values_of e = record {
  freq_val = e.freq_data;
  volt_val = volt_of e;
  override_val = e.override_data;
  spare_val = e.spare_data;
  last_virtual_corner = e.virtual_corner;
  last_spare = e.spare_data;
}

-- The test for an invalid entry.
abbrev pub conflicts : RowValues → OsmEntry → Bool
conflicts v e =
    not (v.last_virtual_corner == 0)
    && (v.last_virtual_corner == e.virtual_corner && not (v.last_spare == e.spare_data))

-- The values for row `i`: those of the entry, or past the entries in use those of the row before.
pub next_values : Cluster → ℕ → RowValues → M RowValues
next_values k i v = do
  c ← get k
  if ltb i c.num_entries
      then (do e ← index c.osm_table i; when (conflicts v e) (fail einval); pure (values_of e))
      else pure v

pub write_row : Cluster → ℕ → RowValues → M (Unit {0})
write_row k i v = do
  let table_entry_offset = i * osm_reg_size
  clk_osm_write_reg k i (index_reg + table_entry_offset)
  clk_osm_write_reg k v.freq_val (freq_reg + table_entry_offset)
  clk_osm_write_reg k v.volt_val (volt_reg + table_entry_offset)
  clk_osm_write_reg k v.override_val (override_reg + table_entry_offset)
  clk_osm_write_reg k v.spare_val (spare_reg + table_entry_offset)

-- The loop at row `i`, with `n` rows left.
pub setup_rows : Cluster → ℕ → ℕ → RowValues → M (Unit {0})
setup_rows k zero i v = pure tt
setup_rows k (suc n) i v =
    next_values k i v >>= λ v'. (write_row k i v' >> setup_rows k n (i + 1) v')

pub clk_osm_setup_hw_table : Cluster → M (Unit {0})
clk_osm_setup_hw_table k = do setup_rows k osm_table_size 0 no_values; clk_osm_mb k
