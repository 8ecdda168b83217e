-- ===== src/HwTable/Written.antt =====
-- What the rows of `clk_osm_setup_hw_table` leave in the registers of the hardware's table.
use xiaomi_pad4_ubuntu_touch.Base.{
  ℕ, zero, suc, ◌+◌, ◌*◌, ◌≤◌, ◌<◌, ◌≡◌, refl, ◌∙◌, List, some, length, arith, u32, ◌⊎◌, inl, inr,
}
use xiaomi_pad4_ubuntu_touch.Osm.{Cluster, Access, World, clock, ok, last_written}
use xiaomi_pad4_ubuntu_touch.Osm.Regs.{
  index_reg, freq_reg, volt_reg, override_reg, spare_reg, osm_reg_size, osm_table_size,
}
use xiaomi_pad4_ubuntu_touch.HwTable.{RowValues, values_of, clk_osm_setup_hw_table, no_values}
use xiaomi_pad4_ubuntu_touch.HwTable.Check.{
  entry_for, IsConsistent, row_log, rows_log, setup_rows-rows_log,
}

-- The five registers of row `j`, as the accesses leave them.
abbrev pub HoldsRow : ℕ → ℕ → RowValues → List Access → Type 0
HoldsRow base j v bus =
    (last_written (base + (index_reg + j * osm_reg_size)) bus ≡ some (u32 j))
    × (last_written (base + (freq_reg + j * osm_reg_size)) bus ≡ some (u32 v.freq_val))
    × (last_written (base + (volt_reg + j * osm_reg_size)) bus ≡ some (u32 v.volt_val))
    × (last_written (base + (override_reg + j * osm_reg_size)) bus ≡ some (u32 v.override_val))
    × (last_written (base + (spare_reg + j * osm_reg_size)) bus ≡ some (u32 v.spare_val))

-- A row's writes leave what is below its first register.
row_log_below :
    (base i a : ℕ) (v : RowValues) (bus : List Access)
    → a < base + (index_reg + i * osm_reg_size)
    → last_written a (row_log base i v bus) ≡ last_written a bus
row_log_below base i a v bus h = ground arith

rows_log_below :
    (base : ℕ) (vals : ℕ → RowValues) (n i a : ℕ) (bus : List Access)
    → a < base + (index_reg + i * osm_reg_size)
    → last_written a (rows_log base vals n i bus) ≡ last_written a bus
rows_log_below base vals zero i a bus h = refl
rows_log_below base vals (suc n) i a bus h =
    rows_log_below base vals n (i + 1) a _ (omega arith) ∙ row_log_below base i a (vals i) bus h

row_log-HoldsRow :
    (base i : ℕ) (v : RowValues) (bus : List Access) → HoldsRow base i v (row_log base i v bus)
row_log-HoldsRow base i v bus = ground arith

rows_log-HoldsRow :
    (base : ℕ) (vals : ℕ → RowValues) (n i j : ℕ) (bus : List Access)
    → i ≤ j
    → j < i + n
    → HoldsRow base j (vals j) (rows_log base vals n i bus)
rows_log-HoldsRow base vals zero i j bus low high = absurd (omega arith)
rows_log-HoldsRow base vals (suc n) i j bus low high = elim (here_or_later i j low) [
  | inl same ↦
      let (a, b, c, d, e) = row_log-HoldsRow base i (vals i) bus in
      rw same (
        rows_log_below base vals n (i + 1) _ _ (omega arith) ∙ a,
        rows_log_below base vals n (i + 1) _ _ (omega arith) ∙ b,
        rows_log_below base vals n (i + 1) _ _ (omega arith) ∙ c,
        rows_log_below base vals n (i + 1) _ _ (omega arith) ∙ d,
        rows_log_below base vals n (i + 1) _ _ (omega arith) ∙ e,
      )
  | inr later ↦ rows_log-HoldsRow base vals n (i + 1) j _ (omega arith) (omega arith)
]
  where
    here_or_later : (i j : ℕ) → i ≤ j → (j ≡ i) ⊎ (i < j)
    here_or_later i j h = ground arith

-- A table of at least one entry, in which neighbouring entries of one corner agree, is accepted:
-- row `j` of the 40 rows of the hardware then holds its index and the values of its entry, or past
-- the last entry those of that one, and the driver's own state has not changed.
pub setup_hw_table-HoldsRow :
    (k : Cluster) (w : World) (j : ℕ)
    → 0 < (clock k w).num_entries
    → (clock k w).num_entries ≤ length (clock k w).osm_table
    → IsConsistent (clock k w)
    → j < osm_table_size
    → let (r, w') = clk_osm_setup_hw_table k w in
      (r ≡ ok tt)
      × HoldsRow (clock k w).vbases.osm_base j (values_of (entry_for (clock k w) j)) w'.bus
      × (w'.clocks ≡ w.clocks)
unfolding clk_osm_setup_hw_table
setup_hw_table-HoldsRow k w j pos fits same small =
    rw (setup_rows-rows_log k osm_table_size 0 no_values w pos fits same (inl (refl, refl))) (
      refl,
      rows_log-HoldsRow (clock k w).vbases.osm_base (λ i. values_of (entry_for (clock k w) i))
          osm_table_size 0 j w.bus (omega arith) (omega arith),
      refl,
    )
