-- ===== src/Rates/Table.antt =====
-- Which row of the table `clk_osm_search_table` finds.
use xiaomi_pad4_ubuntu_touch.Base.{
  ℕ, zero, suc, ◌+◌, ◌<◌, ◌≡◌, refl, sym, ◌∙◌, ap, ◌⊎◌, inl, inr, true, false, List, [], ◌∷◌, some,
  get_elem?, arith, Bool-cases, core_count_val,
}
use xiaomi_pad4_ubuntu_touch.Osm.{OsmEntry, ok}
use xiaomi_pad4_ubuntu_touch.Osm.Regs.{single_core, max_core_count}
use xiaomi_pad4_ubuntu_touch.Rates.{is_row, search_rows, clk_osm_search_table}

-- Row `r` is one of the first `n`, runs at `rate`, and is for one core or for all of them.
pub record IsMatch (rate : ℕ) (table : List OsmEntry) (n r : ℕ) : Type 0 where
  pub entry : OsmEntry
  pub at : get_elem? table r ≡ some entry
  pub below : r < n
  pub runs_at : entry.frequency ≡ rate
  pub cores :
      (core_count_val entry.freq_data ≡ single_core)
      ⊎ (core_count_val entry.freq_data ≡ max_core_count)

is_row→ :
    (rate cores : ℕ) (e : OsmEntry)
    → is_row rate cores e ≡ true
    → (e.frequency ≡ rate) × (core_count_val e.freq_data ≡ cores)
is_row→ rate cores e h = ground arith

-- What the loop does with its next row.
pub search_rows-cons :
    (rate n i single : ℕ) (e : OsmEntry) (rows : List OsmEntry)
    → let r = search_rows rate (suc n) i single (e ∷ rows) in
      (is_row rate single_core e ≡ true → r ≡ search_rows rate n (i + 1) i rows)
      × (is_row rate single_core e ≡ false → is_row rate max_core_count e ≡ true → r ≡ ok i)
      × (is_row rate single_core e ≡ false
          → is_row rate max_core_count e ≡ false
          → r ≡ search_rows rate n (i + 1) single rows)
unfolding search_rows
search_rows-cons rate n i single e rows = (λ one. rw one, λ a b. rw (a, b), λ a b. rw (a, b))

module _ (rate : ℕ) (table : List OsmEntry) (total : ℕ) where
  -- The rows still to be searched are those of the table from row `i` on.
  abbrev Rest : ℕ → List OsmEntry → Type 0
  Rest i rows =
      (j : ℕ) (e : OsmEntry) → get_elem? rows j ≡ some e → get_elem? table (i + j) ≡ some e

  Rest-tail : (i : ℕ) (e : OsmEntry) (rows : List OsmEntry) → Rest i (e ∷ rows) → Rest (i + 1) rows
  Rest-tail i e rows h j e' at =
      let up : i + suc j ≡ i + 1 + j = omega arith in rw up at (h (suc j) e' at)

  Rest-head :
      (i : ℕ) (e : OsmEntry) (rows : List OsmEntry) → Rest i (e ∷ rows) → get_elem? table i ≡ some e
  Rest-head i e rows h = let here : i + 0 ≡ i = omega arith in rw here at (h 0 e refl)

  search_rows-IsMatch :
      (n i single : ℕ) (rows : List OsmEntry) (r : ℕ)
      → i + n ≡ total
      → Rest i rows
      → (single ≡ 0) ⊎ IsMatch rate table total single
      → search_rows rate n i single rows ≡ ok r
      → IsMatch rate table total r
  search_rows-IsMatch zero i single rows r len rest (inl e) h =
      unfold search_rows in absurd (ground arith)
  search_rows-IsMatch zero i single rows r len rest (inr m) h =
      let same : single ≡ r = unfold search_rows in ground arith in rw same at m
  search_rows-IsMatch (suc n) i single [] r len rest found h = unfold search_rows in cc
  search_rows-IsMatch (suc n) i single (e ∷ rows) r len rest found h =
      elim (Bool-cases (is_row rate single_core e)) [
        | inl one ↦
            search_rows-IsMatch n (i + 1) i rows r (omega arith) (Rest-tail i e rows rest)
              (inr (here_IsMatch (inl (is_row→ rate single_core e one))))
              (sym ((search_rows-cons rate n i single e rows).0 one) ∙ h)
        | inr other ↦ elim (Bool-cases (is_row rate max_core_count e)) [
          | inl all ↦
              let same : i ≡ r = cc ((search_rows-cons rate n i single e rows).1 other all) in
              rw same at (here_IsMatch (inr (is_row→ rate max_core_count e all)))
          | inr neither ↦
              search_rows-IsMatch n (i + 1) single rows r (omega arith) (Rest-tail i e rows rest)
                found (sym ((search_rows-cons rate n i single e rows).2 other neither) ∙ h)
        ]
      ]
    where
      here_IsMatch :
          ((e.frequency ≡ rate) × (core_count_val e.freq_data ≡ single_core))
            ⊎ ((e.frequency ≡ rate) × (core_count_val e.freq_data ≡ max_core_count))
          → IsMatch rate table total i
      here_IsMatch (inl m) = record {
        entry = e;
        at = Rest-head i e rows rest;
        below = omega arith;
        runs_at = m.0;
        cores = inl m.1;
      }
      here_IsMatch (inr m) = record {
        entry = e;
        at = Rest-head i e rows rest;
        below = omega arith;
        runs_at = m.0;
        cores = inr m.1;
      }

-- A row that the search returns is one of the cluster's, runs at the rate asked for, and is a row
-- for one core or for all of them.
pub search_table-IsMatch :
    (rate entries r : ℕ) (table : List OsmEntry)
    → clk_osm_search_table table entries rate ≡ ok r
    → IsMatch rate table entries r
unfolding clk_osm_search_table
search_table-IsMatch rate entries r table h =
    search_rows-IsMatch rate table entries entries 0 0 table r (omega arith) start (inl refl) h
  where
    start : (j : ℕ) (e : OsmEntry) → get_elem? table j ≡ some e → get_elem? table (0 + j) ≡ some e
    start j e at = let same : 0 + j ≡ j = omega arith in rw same at

-- No row before row `j` is for all cores at the rate, and row `j` is.
pub record IsFirst (rate : ℕ) (rows : List OsmEntry) (j : ℕ) : Type 0 where
  pub entry : OsmEntry
  pub at : get_elem? rows j ≡ some entry
  pub hit : is_row rate max_core_count entry ≡ true
  pub earlier :
      (m : ℕ) (e : OsmEntry)
      → m < j
      → get_elem? rows m ≡ some e
      → is_row rate max_core_count e ≡ false

pub all_not_single :
    (rate : ℕ) (e : OsmEntry)
    → is_row rate max_core_count e ≡ true
    → is_row rate single_core e ≡ false
all_not_single rate e h = ground arith

search_rows-IsFirst :
    (rate n i single j : ℕ) (rows : List OsmEntry)
    → j < n
    → IsFirst rate rows j
    → search_rows rate n i single rows ≡ ok (i + j)
search_rows-IsFirst rate zero i single j rows below f = absurd (omega arith)
search_rows-IsFirst rate (suc n) i single j [] below f = cc f.at
search_rows-IsFirst rate (suc n) i single zero (e ∷ rows) below f =
    let same : e ≡ f.entry = cc f.at in
    let hit : is_row rate max_core_count e ≡ true = rw same f.hit in
    (search_rows-cons rate n i single e rows).1 (all_not_single rate e hit) hit
    ∙ ap ok (omega arith)
search_rows-IsFirst rate (suc n) i single (suc j) (e ∷ rows) below f =
    let next : IsFirst rate rows j = record {
      entry = f.entry;
      at = f.at;
      hit = f.hit;
      earlier = λ m e' lt at. f.earlier (suc m) e' (omega arith) at;
    } in
    let not_all : is_row rate max_core_count e ≡ false = f.earlier 0 e (omega arith) refl in
    elim (Bool-cases (is_row rate single_core e)) [
      | inl one ↦
          (search_rows-cons rate n i single e rows).0 one
          ∙ search_rows-IsFirst rate n (i + 1) i j rows (omega arith) next
          ∙ ap ok (omega arith)
      | inr other ↦
          (search_rows-cons rate n i single e rows).2 other not_all
          ∙ search_rows-IsFirst rate n (i + 1) single j rows (omega arith) next
          ∙ ap ok (omega arith)
    ]

-- The search returns the first row for all cores at the rate, if one of the first `entries` rows
-- is such a row: rows for one core, wherever they stand, do not come before it.
pub search_table-IsFirst :
    (rate entries j : ℕ) (table : List OsmEntry)
    → j < entries
    → IsFirst rate table j
    → clk_osm_search_table table entries rate ≡ ok j
unfolding clk_osm_search_table
search_table-IsFirst rate entries j table below f =
    search_rows-IsFirst rate entries 0 0 j table below f ∙ ap ok (omega arith)
