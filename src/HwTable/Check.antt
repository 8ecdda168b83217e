-- ===== src/HwTable/Check.antt =====
-- When `clk_osm_setup_hw_table` succeeds, and what it has then sent to the hardware.
use Prim.Native.Nat.{min}
use xiaomi_pad4_ubuntu_touch.Base.{
  ℕ, zero, suc, ◌+◌, ◌-◌, ◌*◌, ◌≤◌, ◌<◌, ◌≡◌, ◌≢◌, refl, ap, ◌∙◌, ◌⊎◌, inl, inr, false, List, [],
  ◌∷◌, some, length, get_elem?, get_or, arith, u32, lt→ltb, le→ltb_false,
}
use xiaomi_pad4_ubuntu_touch.Osm.{
  Cluster, OsmEntry, ClkOsm, Access, write_reg, World, clock, ok, ◌>>=◌, ◌>>◌,
}
use xiaomi_pad4_ubuntu_touch.Osm.Regs.{
  index_reg, freq_reg, volt_reg, override_reg, spare_reg, osm_reg_size,
}
use xiaomi_pad4_ubuntu_touch.HwTable.{
  RowValues, no_values, values_of, conflicts, next_values, write_row, setup_rows,
}

abbrev no_entry : OsmEntry
no_entry = record {
  virtual_corner = 0;
  open_loop_volt = 0;
  freq_data = 0;
  override_data = 0;
  spare_data = 0;
  frequency = 0;
}

-- The entry that row `i` of the hardware takes its values from: past the last entry, that one.
abbrev pub entry_for : ClkOsm → ℕ → OsmEntry
entry_for c i = get_or c.osm_table (min i (c.num_entries - 1)) no_entry

-- Two neighbouring entries of one corner, other than corner 0, have the same spare data.
abbrev pub IsConsistent : ClkOsm → Type 0
IsConsistent c =
    (i : ℕ)
    → suc i < c.num_entries
    → (entry_for c i).virtual_corner ≢ 0
    → (entry_for c i).virtual_corner ≡ (entry_for c (suc i)).virtual_corner
    → (entry_for c i).spare_data ≡ (entry_for c (suc i)).spare_data

-- The five writes of a row in front of the accesses before them, newest first.
abbrev pub row_log : ℕ → ℕ → RowValues → List Access → List Access
row_log base i v bus =
    write_reg (base + (spare_reg + i * osm_reg_size)) (u32 v.spare_val)
    ∷ write_reg (base + (override_reg + i * osm_reg_size)) (u32 v.override_val)
    ∷ write_reg (base + (volt_reg + i * osm_reg_size)) (u32 v.volt_val)
    ∷ write_reg (base + (freq_reg + i * osm_reg_size)) (u32 v.freq_val)
    ∷ write_reg (base + (index_reg + i * osm_reg_size)) (u32 i)
    ∷ bus

-- The writes of `n` rows from row `i` on.
abbrev pub rows_log : ℕ → (ℕ → RowValues) → ℕ → ℕ → List Access → List Access
rows_log base vals zero i bus = bus
rows_log base vals (suc n) i bus = rows_log base vals n (i + 1) (row_log base i (vals i) bus)

pub write_row_lem :
    (k : Cluster) (i : ℕ) (v : RowValues) (w : World)
    → write_row k i v w ≡ (ok tt, record w { bus = row_log (clock k w).vbases.osm_base i v w.bus })
unfolding write_row
write_row_lem k i v w = refl

module _ (k : Cluster) where
  abbrev pub vals : World → ℕ → RowValues
  vals w i = values_of (entry_for (clock k w) i)

  -- The variables of the loop when it comes to row `i`.
  abbrev pub Before : World → ℕ → RowValues → Type 0
  Before w i v = (i ≡ 0) × (v ≡ no_values) ⊎ (0 < i) × (v ≡ vals w (i - 1))

  get_elem?-entry_for :
      (xs : List OsmEntry) (i : ℕ) → i < length xs → get_elem? xs i ≡ some (get_or xs i no_entry)
  get_elem?-entry_for [] i h = absurd (omega arith)
  get_elem?-entry_for (x ∷ xs) zero h = refl
  get_elem?-entry_for (x ∷ xs) (suc i) h = get_elem?-entry_for xs i (omega arith)

  pub entry_at :
      (i : ℕ) (c : ClkOsm)
      → i < c.num_entries
      → c.num_entries ≤ length c.osm_table
      → get_elem? c.osm_table i ≡ some (entry_for c i)
  entry_at i c below fits =
      let same : min i (c.num_entries - 1) ≡ i = ground arith in
      rw same (get_elem?-entry_for c.osm_table i (omega arith))

  conflicts_none :
      (v : RowValues) (e : OsmEntry)
      → (v.last_virtual_corner ≢ 0
          → v.last_virtual_corner ≡ e.virtual_corner
          → v.last_spare ≡ e.spare_data)
      → conflicts v e ≡ false
  conflicts_none v e h = grind arith

  pub next_values-used :
      (i : ℕ) (v : RowValues) (e : OsmEntry) (w : World)
      → i < (clock k w).num_entries
      → get_elem? (clock k w).osm_table i ≡ some e
      → conflicts v e ≡ false
      → next_values k i v w ≡ (ok (values_of e), w)
  unfolding next_values
  next_values-used i v e w below at fine = rw (lt→ltb i _ below, at, fine)

  next_values-past :
      (i : ℕ) (v : RowValues) (w : World)
      → (clock k w).num_entries ≤ i
      → next_values k i v w ≡ (ok v, w)
  unfolding next_values
  next_values-past i v w past = rw (le→ltb_false i _ past)

  Before-fine :
      (i : ℕ) (v : RowValues) (w : World)
      → i < (clock k w).num_entries
      → IsConsistent (clock k w)
      → Before w i v
      → conflicts v (entry_for (clock k w) i) ≡ false
  Before-fine i v w below same (inl (z, e)) = rw e refl
  Before-fine zero v w below same (inr (pos, e)) = absurd (omega arith)
  Before-fine (suc i) v w below same (inr (pos, e)) =
      conflicts_none v (entry_for (clock k w) (suc i))
        (let down : suc i - 1 ≡ i = omega arith in rw (e, down) (same i below))

  below_or_past : (i n : ℕ) → (i < n) ⊎ (n ≤ i)
  below_or_past i n = ground arith

  Before-past :
      (i : ℕ) (v : RowValues) (w : World)
      → 0 < (clock k w).num_entries
      → (clock k w).num_entries ≤ i
      → Before w i v
      → v ≡ vals w i
  Before-past i v w pos past (inl (z, e)) = absurd (omega arith)
  Before-past i v w pos past (inr (p, e)) =
      let same : min (i - 1) ((clock k w).num_entries - 1) ≡ min i ((clock k w).num_entries - 1) =
        ground arith in
      e ∙ ap (λ j. values_of (get_or (clock k w).osm_table j no_entry)) same

  next_values-vals :
      (i : ℕ) (v : RowValues) (w : World)
      → 0 < (clock k w).num_entries
      → (clock k w).num_entries ≤ length (clock k w).osm_table
      → IsConsistent (clock k w)
      → Before w i v
      → next_values k i v w ≡ (ok (vals w i), w)
  next_values-vals i v w pos fits same before = elim (below_or_past i (clock k w).num_entries) [
    | inl below ↦
        next_values-used i v _ w below (entry_at i (clock k w) below fits)
          (Before-fine i v w below same before)
    | inr past ↦
        next_values-past i v w past ∙ ap (λ v. (ok v, w)) (Before-past i v w pos past before)
  ]

  pub Before-next : (i : ℕ) (w : World) → Before w (i + 1) (vals w i)
  Before-next i w = let down : i + 1 - 1 ≡ i = omega arith in inr (omega arith, rw down refl)

  pub setup_rows-suc :
      (n i : ℕ) (v : RowValues) (w : World)
      → setup_rows k (suc n) i v w
        ≡ (next_values k i v >>= λ v'. (write_row k i v' >> setup_rows k n (i + 1) v')) w
  unfolding setup_rows
  setup_rows-suc n i v w = refl

  pub setup_rows-rows_log :
      (n i : ℕ) (v : RowValues) (w : World)
      → 0 < (clock k w).num_entries
      → (clock k w).num_entries ≤ length (clock k w).osm_table
      → IsConsistent (clock k w)
      → Before w i v
      → setup_rows k n i v w
        ≡ (ok tt, record w { bus = rows_log (clock k w).vbases.osm_base (vals w) n i w.bus })
  setup_rows-rows_log zero i v w pos fits same before = unfold setup_rows in refl
  setup_rows-rows_log (suc n) i v w pos fits same before =
      rw
        (
          setup_rows-suc n i v w,
          next_values-vals i v w pos fits same before,
          write_row_lem k i (vals w i) w,
        )
        (setup_rows-rows_log n (i + 1) (vals w i) _ pos fits same (Before-next i w))
