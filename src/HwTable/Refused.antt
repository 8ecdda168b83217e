-- ===== src/HwTable/Refused.antt =====
-- When `clk_osm_setup_hw_table` refuses a table.
use xiaomi_pad4_ubuntu_touch.Base.{
  ℕ, zero, suc, ◌+◌, ◌≤◌, ◌<◌, ◌≡◌, ◌≢◌, refl, ap, ◌∙◌, ◌⊎◌, inl, inr, true, false, some, length,
  get_elem?, arith, lt→ltb, Bool-cases,
}
use xiaomi_pad4_ubuntu_touch.Osm.{Cluster, OsmEntry, World, clock, err, einval}
use xiaomi_pad4_ubuntu_touch.Osm.Regs.{osm_table_size}
use xiaomi_pad4_ubuntu_touch.HwTable.{
  RowValues, no_values, conflicts, next_values, setup_rows, clk_osm_setup_hw_table,
}
use xiaomi_pad4_ubuntu_touch.HwTable.Check.{
  entry_for, entry_at, next_values-used, setup_rows-suc, vals, write_row_lem,
}

-- Entries `j` and `j + 1` are of one corner, other than 0, and have different spare data.
abbrev pub Disagree : World → Cluster → ℕ → Type 0
Disagree w k j =
    ((entry_for (clock k w) j).virtual_corner ≢ 0)
    × ((entry_for (clock k w) j).virtual_corner ≡ (entry_for (clock k w) (suc j)).virtual_corner)
    × ((entry_for (clock k w) j).spare_data ≢ (entry_for (clock k w) (suc j)).spare_data)

module _ (k : Cluster) where
  next_values-conflict :
      (i : ℕ) (v : RowValues) (e : OsmEntry) (w : World)
      → i < (clock k w).num_entries
      → get_elem? (clock k w).osm_table i ≡ some e
      → conflicts v e ≡ true
      → next_values k i v w ≡ (err einval, w)
  unfolding next_values
  next_values-conflict i v e w below at bad = rw (lt→ltb i _ below, at, bad)

  Disagree-conflicts :
      (j : ℕ) (v : RowValues) (w : World)
      → Disagree w k j
      → v ≡ vals k w j
      → conflicts v (entry_for (clock k w) (suc j)) ≡ true
  Disagree-conflicts j v w d e = rw e (ground arith)

  here_or_later : (i j : ℕ) → i ≤ suc j → (i ≡ suc j) ⊎ (i < suc j)
  here_or_later i j h = ground arith

  setup_rows_refused :
      (n i j : ℕ) (v : RowValues) (w : World)
      → suc j < i + n
      → i ≤ suc j
      → suc j < (clock k w).num_entries
      → (clock k w).num_entries ≤ length (clock k w).osm_table
      → Disagree w k j
      → (i ≡ suc j → v ≡ vals k w j)
      → (setup_rows k n i v w).0 ≡ err einval
  setup_rows_refused zero i j v w reach low used fits d before = absurd (omega arith)
  setup_rows_refused (suc n) i j v w reach low used fits d before =
      elim (Bool-cases (conflicts v (entry_for (clock k w) i))) [
        | inl bad ↦
            rw
              (
                setup_rows-suc k n i v w,
                next_values-conflict i v _ w (omega arith)
                    (entry_at k i (clock k w) (omega arith) fits) bad,
              )
              refl
        | inr fine ↦
            rw
              (
                setup_rows-suc k n i v w,
                next_values-used k i v _ w (omega arith)
                    (entry_at k i (clock k w) (omega arith) fits) fine,
                write_row_lem k i (vals k w i) w,
              )
              (setup_rows_refused n (i + 1) j (vals k w i) _ (omega arith) (later fine) used fits d
                next)
      ]
    where
      later : conflicts v (entry_for (clock k w) i) ≡ false → i + 1 ≤ suc j
      later fine = elim (here_or_later i j low) [
        | inl same ↦
            let bad : conflicts v (entry_for (clock k w) i) ≡ true =
              ap (λ i. conflicts v (entry_for (clock k w) i)) same
              ∙ Disagree-conflicts j v w d (before same) in
            cc
        | inr below ↦ omega arith
      ]

      next : i + 1 ≡ suc j → vals k w i ≡ vals k w j
      next e = ap (vals k w) (omega arith)

-- A table in which two neighbouring entries of one corner, other than corner 0, have different
-- spare data is refused with -EINVAL, if the second of them is among the 40 rows.
pub setup_hw_table_refused :
    (k : Cluster) (w : World) (j : ℕ)
    → suc j < osm_table_size
    → suc j < (clock k w).num_entries
    → (clock k w).num_entries ≤ length (clock k w).osm_table
    → Disagree w k j
    → (clk_osm_setup_hw_table k w).0 ≡ err einval
unfolding clk_osm_setup_hw_table
setup_hw_table_refused k w j small used fits d =
    let start : 0 ≡ suc j → no_values ≡ vals k w j = λ e. absurd (omega arith) in
    let refused =
      setup_rows_refused k osm_table_size 0 j no_values w (omega arith) (omega arith) used fits d
        start in
    rw refused refl
