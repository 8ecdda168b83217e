-- ===== src/Lut/Fill.antt =====
-- What `clk_osm_get_lut` leaves behind: the rows of the device tree, the last one repeated up to 40,
-- and the rates of the rows for all cores.
use xiaomi_pad4_ubuntu_touch.Base.{
  ℕ, zero, suc, ◌+◌, ◌-◌, ◌*◌, ◌≤◌, ◌<◌, ◌≡◌, refl, ap, ◌∙◌, true, false, List, [], ◌∷◌, ◌++◌, map,
  Bool, some, length, get_elem?, get_or, keep, replicate, arith, inl, inr, Bool-cases, lt→ltb,
  le→ltb_false, u16, sub32,
}
use xiaomi_pad4_ubuntu_touch.Osm.{OsmEntry}
use xiaomi_pad4_ubuntu_touch.Lut.{row_at, is_quad, Filled, add_row, fill, num_fields}

-- The row whose first cell is `array[i]`, where it lies in the array.
pub row : List ℕ → ℕ → OsmEntry
row array i = record {
  virtual_corner = u16 (sub32 (get_or array (i + 4) 0) 1);
  open_loop_volt = 0;
  freq_data = get_or array (i + 1) 0;
  override_data = get_or array (i + 2) 0;
  spare_data = get_or array (i + 3) 0;
  frequency = get_or array i 0;
}

-- `d` rows from row `r` on.
abbrev pub rows_from : List ℕ → ℕ → ℕ → List OsmEntry
rows_from array r zero = []
rows_from array r (suc d) = row array (5 * r) ∷ rows_from array (r + 1) d

abbrev pub quad_rates : List OsmEntry → List ℕ
quad_rates rows = map (λ (e : OsmEntry). e.frequency) (keep is_quad rows)

get_elem?-eq-get_or : (xs : List ℕ) (i : ℕ) → i < length xs → get_elem? xs i ≡ some (get_or xs i 0)
get_elem?-eq-get_or [] i h = absurd (omega arith)
get_elem?-eq-get_or (x ∷ xs) zero h = refl
get_elem?-eq-get_or (x ∷ xs) (suc i) h = get_elem?-eq-get_or xs i (omega arith)

row_at-row : (array : List ℕ) (i : ℕ) → i + 4 < length array → row_at array i ≡ some (row array i)
unfolding row_at row
row_at-row array i h = rw (
  get_elem?-eq-get_or array i (omega arith),
  get_elem?-eq-get_or array (i + 1) (omega arith),
  get_elem?-eq-get_or array (i + 2) (omega arith),
  get_elem?-eq-get_or array (i + 3) (omega arith),
  get_elem?-eq-get_or array (i + 4) h,
)

-- Adding a row in front of the rows from the device tree.
add_row-quad_rates :
    (e : OsmEntry) (rows more : List OsmEntry)
    → add_row e false (record { rows = rows ++ more; fmax = quad_rates rows })
      ≡ record { rows = (e ∷ rows) ++ more; fmax = quad_rates (e ∷ rows) }
add_row-quad_rates e rows more = elim (Bool-cases (is_quad e)) [
  | inl quad ↦ rw quad
  | inr other ↦ rw other
]

-- One round of the loop before the last row, and one at it.
fill_more :
    (array : List ℕ) (total m i : ℕ) (e : OsmEntry) (f : Filled) (last_entry : Bool)
    → i < total - num_fields
    → row_at array i ≡ some e
    → fill array total m (i + num_fields) last_entry ≡ some f
    → fill array total (suc m) i last_entry ≡ some (add_row e last_entry f)
unfolding fill
fill_more array total m i e f last_entry h at rest = rw (at, lt→ltb i (total - num_fields) h, rest)

fill_end :
    (array : List ℕ) (total m i : ℕ) (e : OsmEntry) (f : Filled) (last_entry : Bool)
    → total - num_fields ≤ i
    → row_at array i ≡ some e
    → fill array total m i true ≡ some f
    → fill array total (suc m) i last_entry ≡ some (add_row e last_entry f)
unfolding fill
fill_end array total m i e f last_entry h at rest =
    rw (at, le→ltb_false i (total - num_fields) h, rest)

module _ (array : List ℕ) (n : ℕ) (len : length array ≡ 5 * suc n) where
  -- Past the last row of the device tree it is read again, and lists no rate.
  fill_last :
      (m : ℕ)
      → fill array (5 * suc n) m (5 * n) true
        ≡ some (record { rows = replicate m (row array (5 * n)); fmax = [] })
  fill_last zero = unfold fill in refl
  fill_last (suc m) =
      fill_end array (5 * suc n) m (5 * n) (row array (5 * n)) _ true (omega arith)
        (row_at-row array (5 * n) (omega arith)) (fill_last m)

  pub fill_rows :
      (d r m : ℕ)
      → r + d ≡ n
      → fill array (5 * suc n) (suc (d + m)) (5 * r) false
        ≡ some (record {
          rows = rows_from array r (suc d) ++ replicate m (row array (5 * n));
          fmax = quad_rates (rows_from array r (suc d));
        })
  fill_rows zero r m e =
      let at_end : 5 * n ≡ 5 * r = omega arith in
      let rounds : 0 + m ≡ m = omega arith in
      rw (at_end, rounds)
        (fill_end array (5 * suc n) m (5 * r) (row array (5 * r)) _ false (omega arith)
            (row_at-row array (5 * r) (omega arith)) (rw at_end at (fill_last m))
          ∙ ap some (add_row-quad_rates (row array (5 * r)) [] (replicate m (row array (5 * r)))))
  fill_rows (suc d) r m e =
      let rounds : suc d + m ≡ suc (d + m) = omega arith in
      let cell : 5 * r + 5 ≡ 5 * (r + 1) = omega arith in
      rw rounds (
        fill_more array (5 * suc n) (suc (d + m)) (5 * r) (row array (5 * r))
          (record {
            rows = rows_from array (r + 1) (suc d) ++ replicate m (row array (5 * n));
            fmax = quad_rates (rows_from array (r + 1) (suc d));
          })
          false (omega arith) (row_at-row array (5 * r) (omega arith))
          (rw cell (fill_rows d (r + 1) m (omega arith)))
        ∙ ap some (
            add_row-quad_rates (row array (5 * r)) (rows_from array (r + 1) (suc d))
              (replicate m (row array (5 * n)))))
