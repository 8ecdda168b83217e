-- ===== src/Rates/Reference.antt =====
-- `clk_osm_search_table` of clk-cpu-osm-660.c against a description of the row that it chooses.
use xiaomi_pad4_ubuntu_touch.Base.{
  ℕ, zero, suc, ◌+◌, ◌≤◌, ◌≡◌, refl, ◌∙◌, ap, inl, inr, Bool, true, false, List, [], ◌∷◌, Option,
  none, some, length, take, arith, ◌==◌, Bool-cases, if◌then◌else◌,
}
use xiaomi_pad4_ubuntu_touch.Osm.{OsmEntry, Result, ok, err, einval}
use xiaomi_pad4_ubuntu_touch.Osm.Regs.{single_core, max_core_count}
use xiaomi_pad4_ubuntu_touch.Rates.{is_row, search_rows, clk_osm_search_table}
use xiaomi_pad4_ubuntu_touch.Rates.Table.{search_rows-cons}

abbrev next : Option ℕ → Option ℕ
next none = none
next (some j) = some (suc j)

-- The places of the first and of the last row that a test holds of.
abbrev pub first_at : (OsmEntry → Bool) → List OsmEntry → Option ℕ
first_at p [] = none
first_at p (e ∷ rows) = let rest = first_at p rows in if p e then some 0 else next rest

abbrev or_here : Bool → Option ℕ → Option ℕ
or_here b (some j) = some (suc j)
or_here true none = some 0
or_here false none = none

abbrev pub last_at : (OsmEntry → Bool) → List OsmEntry → Option ℕ
last_at p [] = none
last_at p (e ∷ rows) = or_here (p e) (last_at p rows)

-- The first row for all cores; without one the last row for one core, unless it is row 0.
abbrev pub preferred : Option ℕ → Option ℕ → Result ℕ
preferred (some j) single = ok j
preferred none (some zero) = err einval
preferred none (some (suc j)) = ok (suc j)
preferred none none = err einval

abbrev pub chosen_row : ℕ → List OsmEntry → Result ℕ
chosen_row rate rows =
    preferred (first_at (is_row rate max_core_count) rows) (last_at (is_row rate single_core) rows)

-- The same from row `i` on, with a row for one core already found.
abbrev found : ℕ → Result ℕ
found s = if s == 0 then err einval else ok s

abbrev from_row : ℕ → ℕ → Option ℕ → Option ℕ → Result ℕ
from_row i single (some j) one = ok (i + j)
from_row i single none (some j) = found (i + j)
from_row i single none none = found single

from_row-single :
    (i single : ℕ) (all one : Option ℕ)
    → from_row (i + 1) i all one ≡ from_row i single (next all) (or_here true one)
from_row-single i single (some j) one = ap ok (omega arith)
from_row-single i single none (some j) = ap found (omega arith)
from_row-single i single none none = ap found (omega arith)

from_row-other :
    (i single : ℕ) (all one : Option ℕ)
    → from_row (i + 1) single all one ≡ from_row i single (next all) (or_here false one)
from_row-other i single (some j) one = ap ok (omega arith)
from_row-other i single none (some j) = ap found (omega arith)
from_row-other i single none none = refl

module _ (rate : ℕ) where
  abbrev all_rows : List OsmEntry → Option ℕ
  all_rows rows = first_at (is_row rate max_core_count) rows

  abbrev single_rows : List OsmEntry → Option ℕ
  single_rows rows = last_at (is_row rate single_core) rows

  search_rows-from_row :
      (n i single : ℕ) (rows : List OsmEntry)
      → n ≤ length rows
      → search_rows rate n i single rows
        ≡ from_row i single (all_rows (take n rows)) (single_rows (take n rows))
  search_rows-from_row zero i single rows len = unfold search_rows in refl
  search_rows-from_row (suc n) i single [] len = absurd (omega arith)
  search_rows-from_row (suc n) i single (e ∷ rows) len =
      elim (Bool-cases (is_row rate single_core e)) [
        | inl one ↦
            let not_all : is_row rate max_core_count e ≡ false = single_not_all e one in
            rw (one, not_all)
              ((search_rows-cons rate n i single e rows).0 one
                ∙ search_rows-from_row n (i + 1) i rows (omega arith)
                ∙ from_row-single i single (all_rows (take n rows)) (single_rows (take n rows)))
        | inr other ↦ elim (Bool-cases (is_row rate max_core_count e)) [
          | inl all ↦
              rw all ((search_rows-cons rate n i single e rows).1 other all ∙ ap ok (omega arith))
          | inr neither ↦
              rw (other, neither)
                ((search_rows-cons rate n i single e rows).2 other neither
                  ∙ search_rows-from_row n (i + 1) single rows (omega arith)
                  ∙ from_row-other i single (all_rows (take n rows)) (single_rows (take n rows)))
        ]
      ]
    where
      single_not_all :
          (e : OsmEntry) → is_row rate single_core e ≡ true → is_row rate max_core_count e ≡ false
      single_not_all e h = ground arith

from_row-preferred : (all one : Option ℕ) → from_row 0 0 all one ≡ preferred all one
from_row-preferred (some j) one = ap ok (omega arith)
from_row-preferred none (some zero) = refl
from_row-preferred none (some (suc j)) =
    let same : 0 + suc j ≡ suc j = omega arith in
    let not_first : (suc j == 0) ≡ false = ground arith in ap found same ∙ (rw not_first refl)
from_row-preferred none none = refl

-- The search of a table with `entries` rows or more is: among the first `entries`, the first row at
-- the rate for all cores; without one, the last row at the rate for one core; an error if there is
-- neither, or if the row for one core is row 0.
pub search_table-chosen_row :
    (rate entries : ℕ) (table : List OsmEntry)
    → entries ≤ length table
    → clk_osm_search_table table entries rate ≡ chosen_row rate (take entries table)
unfolding clk_osm_search_table
search_table-chosen_row rate entries table len =
    search_rows-from_row rate entries 0 0 table len
    ∙ from_row-preferred (all_rows rate (take entries table))
        (single_rows rate (take entries table))
