-- ===== src/Opp/Points.antt =====
-- Which operating points `add_opp` registers.
use xiaomi_pad4_ubuntu_touch.Base.{
  ℕ, zero, suc, ◌*◌, ◌<◌, ◌≡◌, refl, ap, sym, ◌∙◌, ◌≢◌, ◌⊎◌, inl, inr, List, [], ◌∷◌, Option, none,
  some, not, ◌&&◌, ◌||◌, true, arith, u32, ◌==◌, ==_refl, ==_of_ne, get_elem?,
}
use xiaomi_pad4_ubuntu_touch.Osm.{OsmEntry, ClkOsm, ok}
use xiaomi_pad4_ubuntu_touch.Opp.{
  find_voltage_rows, find_voltage, OppPair, stopped, after_point, add_opp_from, last_rate, add_opp,
}

-- Row `j` is the first to run at the rate.
pub record IsFirstAt (rate : ℕ) (rows : List OsmEntry) (j : ℕ) (entry : OsmEntry) : Type 0 where
  pub at : get_elem? rows j ≡ some entry
  pub runs_at : entry.frequency ≡ rate
  pub earlier : (m : ℕ) (e : OsmEntry) → m < j → get_elem? rows m ≡ some e → e.frequency ≢ rate

find_voltage_rows-hit :
    (rate n : ℕ) (e : OsmEntry) (rows : List OsmEntry)
    → rate ≡ e.frequency
    → find_voltage_rows rate (suc n) (e ∷ rows) ≡ ok (u32 (e.open_loop_volt * 1000))
unfolding find_voltage_rows
find_voltage_rows-hit rate n e rows same = rw (same, ==_refl) refl

find_voltage_rows-miss :
    (rate n : ℕ) (e : OsmEntry) (rows : List OsmEntry)
    → rate ≢ e.frequency
    → find_voltage_rows rate (suc n) (e ∷ rows) ≡ find_voltage_rows rate n rows
unfolding find_voltage_rows
find_voltage_rows-miss rate n e rows other = rw (==_of_ne rate e.frequency other) refl

find_voltage_rows-first :
    (rate n j : ℕ) (rows : List OsmEntry) (entry : OsmEntry)
    → j < n
    → IsFirstAt rate rows j entry
    → find_voltage_rows rate n rows ≡ ok (u32 (entry.open_loop_volt * 1000))
find_voltage_rows-first rate zero j rows entry below f = absurd (omega arith)
find_voltage_rows-first rate (suc n) j [] entry below f = cc f.at
find_voltage_rows-first rate (suc n) zero (e ∷ rows) entry below f =
    let same : e ≡ entry = cc f.at in
    rw same (find_voltage_rows-hit rate n entry rows (sym f.runs_at))
find_voltage_rows-first rate (suc n) (suc j) (e ∷ rows) entry below f =
    let ne : e.frequency ≢ rate = f.earlier 0 e (omega arith) refl in
    find_voltage_rows-miss rate n e rows (λ same. ne (sym same))
    ∙ find_voltage_rows-first rate n j rows entry (omega arith) (record {
      at = f.at;
      runs_at = f.runs_at;
      earlier = λ m e' lt at. f.earlier (suc m) e' (omega arith) at;
    })

-- A rate's voltage is that of the first of the rows in use that run at it, in microvolts.
pub find_voltage-first :
    (c : ClkOsm) (rate j : ℕ) (entry : OsmEntry)
    → j < c.num_entries
    → IsFirstAt rate c.osm_table j entry
    → find_voltage c rate ≡ ok (u32 (entry.open_loop_volt * 1000))
find_voltage-first c rate j entry below f =
    find_voltage_rows-first rate c.num_entries j c.osm_table entry below f

-- The points of the rates, each with its voltage.
abbrev pub points_of : (ℕ → ℕ) → List ℕ → List OppPair
points_of volts [] = []
points_of volts (r ∷ rates) = record { rate = r; uv = volts r } ∷ points_of volts rates

-- Strictly increasing from above `low` on.
abbrev pub Increasing : ℕ → List ℕ → Type 0
Increasing low [] = Unit
Increasing low (r ∷ rates) = (low < r) × Increasing r rates

-- Every rate has the voltage `volts`, which is not 0, and the kernel takes its point.
abbrev pub AllTaken : (OppPair → Option ℕ) → ClkOsm → (ℕ → ℕ) → List ℕ → Type 0
AllTaken opp_add c volts [] = Unit
AllTaken opp_add c volts (r ∷ rates) =
    (find_voltage c r ≡ ok (volts r))
    × (0 < volts r)
    × (opp_add (record { rate = r; uv = volts r }) ≡ none)
    × AllTaken opp_add c volts rates

module _ (opp_add : OppPair → Option ℕ) (c : ClkOsm) where
  last_rate-above :
      (low r : ℕ) (rates : List ℕ) → low < r → Increasing r rates → low < last_rate r rates
  last_rate-above low r [] above inc = above
  last_rate-above low r (x ∷ xs) above inc = last_rate-above low x xs (omega (arith, inc.0)) inc.1

  -- A rate that is taken, and is not the last.
  add_opp_from-more :
      (volts : ℕ → ℕ) (lo hi r : ℕ) (rates : List ℕ)
      → find_voltage c r ≡ ok (volts r)
      → 0 < volts r
      → opp_add (record { rate = r; uv = volts r }) ≡ none
      → r < hi
      → lo < hi
      → add_opp_from opp_add c lo hi (r ∷ rates)
        ≡ after_point (record { rate = r; uv = volts r }) (add_opp_from opp_add c lo hi rates)
  unfolding add_opp_from
  add_opp_from-more volts lo hi r rates found pos taken below range =
      rw
        (
          found,
          ==_of_ne (volts r) 0 (λ z. omega (arith, z, pos)),
          taken,
          ==_of_ne r hi (λ z. omega (arith, z, below)),
          ==_of_ne lo hi (λ z. omega (arith, z, range)),
        )
        refl

  is_last_top : (lo hi r : ℕ) → r ≡ hi → ((r == hi) && not (hi == lo)) || (lo == hi) ≡ true
  is_last_top lo hi r top = ground arith

  add_opp_from-last :
      (volts : ℕ → ℕ) (lo hi r : ℕ) (rates : List ℕ)
      → find_voltage c r ≡ ok (volts r)
      → 0 < volts r
      → opp_add (record { rate = r; uv = volts r }) ≡ none
      → r ≡ hi
      → add_opp_from opp_add c lo hi (r ∷ rates)
        ≡ after_point (record { rate = r; uv = volts r }) (stopped (ok tt))
  unfolding add_opp_from
  add_opp_from-last volts lo hi r rates found pos taken top =
      rw (found, ==_of_ne (volts r) 0 (λ z. omega (arith, z, pos)), taken, is_last_top lo hi r top)
        refl

  add_opp_from-points :
      (volts : ℕ → ℕ) (lo hi r : ℕ) (rates : List ℕ)
      → AllTaken opp_add c volts (r ∷ rates)
      → Increasing r rates
      → last_rate r rates ≡ hi
      → (rates ≡ []) ⊎ (lo < hi)
      → add_opp_from opp_add c lo hi (r ∷ rates)
        ≡ record { points = points_of volts (r ∷ rates); outcome = ok tt }
  add_opp_from-points volts lo hi r [] (found, pos, taken, others) inc top range =
      add_opp_from-last volts lo hi r [] found pos taken top
  add_opp_from-points volts lo hi r (x ∷ xs) (found, pos, taken, others) inc top (inl none_left) =
      cc none_left
  add_opp_from-points volts lo hi r (x ∷ xs) (found, pos, taken, others) inc top (inr range) =
      let below : r < hi = omega (arith, top, last_rate-above r x xs inc.0 inc.1) in
      add_opp_from-more volts lo hi r (x ∷ xs) found pos taken below range
      ∙ ap (after_point (record { rate = r; uv = volts r }))
          (add_opp_from-points volts lo hi x xs others inc.1 top (inr range))

add_opp_unfolded :
    (opp_add : OppPair → Option ℕ) (c : ClkOsm) (r : ℕ) (rates : List ℕ)
    → c.rate_max ≡ r ∷ rates
    → add_opp opp_add c ≡ add_opp_from opp_add c r (last_rate r rates) (r ∷ rates)
unfolding add_opp
add_opp_unfolded opp_add c r rates e = rw e refl

-- Strictly increasing rates that all have a voltage above 0, with a kernel that takes every point:
-- exactly these points are registered, each once and in order, and the call succeeds.
pub add_opp-points :
    (opp_add : OppPair → Option ℕ) (c : ClkOsm) (volts : ℕ → ℕ) (r : ℕ) (rates : List ℕ)
    → c.rate_max ≡ r ∷ rates
    → Increasing r rates
    → AllTaken opp_add c volts (r ∷ rates)
    → add_opp opp_add c ≡ record { points = points_of volts (r ∷ rates); outcome = ok tt }
add_opp-points opp_add c volts r rates listed inc taken =
    add_opp_unfolded opp_add c r rates listed
    ∙ add_opp_from-points opp_add c volts r (last_rate r rates) r rates taken inc refl
        (one_or_more rates inc)
  where
    one_or_more : (rates : List ℕ) → Increasing r rates → (rates ≡ []) ⊎ (r < last_rate r rates)
    one_or_more [] inc = inl refl
    one_or_more (x ∷ xs) inc = inr (last_rate-above opp_add c r x xs inc.0 inc.1)
