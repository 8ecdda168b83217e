-- ===== src/Corners/Thresholds.antt =====
-- Which corners `clk_osm_resolve_crossover_corners` finds for a threshold voltage.
use xiaomi_pad4_ubuntu_touch.Base.{
  ℕ, zero, suc, ◌+◌, ◌-◌, ◌≤◌, ◌<◌, ◌≡◌, refl, ◌∙◌, List, [], ◌∷◌, some, none, true, false,
  get_elem?, arith, leb, ◌==◌, if◌then◌else◌,
}
use xiaomi_pad4_ubuntu_touch.Osm.{OsmEntry}
use xiaomi_pad4_ubuntu_touch.Osm.Regs.{osm_seq_minus_one, max_virtual_corner}
use xiaomi_pad4_ubuntu_touch.Corners.{
  first_reaching, Threshold, found_threshold, resolve_threshold, default_threshold,
}

-- Row `j` is the first whose voltage reaches the threshold; the regulator counts corners from 1.
pub record IsFirstReaching (volts : ℕ → ℕ) (threshold : ℕ) (rows : List OsmEntry) (j : ℕ)
    (entry : OsmEntry) : Type 0 where
  pub at : get_elem? rows j ≡ some entry
  pub reaches : threshold ≤ volts (entry.virtual_corner + 1)
  pub earlier :
      (m : ℕ) (e : OsmEntry)
      → m < j
      → get_elem? rows m ≡ some e
      → volts (e.virtual_corner + 1) < threshold

le→leb : (a b : ℕ) → a ≤ b → leb a b ≡ true
le→leb a b h = ground arith

lt→leb_false : (a b : ℕ) → b < a → leb a b ≡ false
lt→leb_false a b h = ground arith

first_reaching-hit :
    (volts : ℕ → ℕ) (threshold : ℕ) (e : OsmEntry) (rows : List OsmEntry)
    → threshold ≤ volts (e.virtual_corner + 1)
    → first_reaching volts threshold (e ∷ rows) ≡ some e.virtual_corner
unfolding first_reaching
first_reaching-hit volts threshold e rows h = rw (le→leb threshold _ h) refl

first_reaching-miss :
    (volts : ℕ → ℕ) (threshold : ℕ) (e : OsmEntry) (rows : List OsmEntry)
    → volts (e.virtual_corner + 1) < threshold
    → first_reaching volts threshold (e ∷ rows) ≡ first_reaching volts threshold rows
unfolding first_reaching
first_reaching-miss volts threshold e rows h = rw (lt→leb_false threshold _ h) refl

first_reaching_lem :
    (volts : ℕ → ℕ) (threshold j : ℕ) (rows : List OsmEntry) (entry : OsmEntry)
    → IsFirstReaching volts threshold rows j entry
    → first_reaching volts threshold rows ≡ some entry.virtual_corner
first_reaching_lem volts threshold j [] entry f = cc f.at
first_reaching_lem volts threshold zero (e ∷ rows) entry f =
    let same : e ≡ entry = cc f.at in
    rw same (first_reaching-hit volts threshold entry rows f.reaches)
first_reaching_lem volts threshold (suc j) (e ∷ rows) entry f =
    first_reaching-miss volts threshold e rows (f.earlier 0 e (omega arith) refl)
    ∙ first_reaching_lem volts threshold j rows entry (record {
      at = f.at;
      reaches = f.reaches;
      earlier = λ m e' lt at. f.earlier (suc m) e' (omega arith) at;
    })

first_reaching-none :
    (volts : ℕ → ℕ) (threshold : ℕ) (rows : List OsmEntry)
    → ((m : ℕ) (e : OsmEntry)
        → get_elem? rows m ≡ some e
        → volts (e.virtual_corner + 1) < threshold)
    → first_reaching volts threshold rows ≡ none
first_reaching-none volts threshold [] below = unfold first_reaching in refl
first_reaching-none volts threshold (e ∷ rows) below =
    first_reaching-miss volts threshold e rows (below 0 e refl)
    ∙ first_reaching-none volts threshold rows (λ m e' at. below (suc m) e' at)

-- The corner before a corner, as the sequencer has it.
abbrev pub corner_before : ℕ → ℕ
corner_before vc = if vc == 0 then osm_seq_minus_one else vc - 1

-- The threshold corner is that of the first row whose voltage reaches the threshold, together with
-- the corner before it, whatever corners the cluster had before.
pub resolve_threshold-first :
    (volts : ℕ → ℕ) (threshold j : ℕ) (rows : List OsmEntry) (entry : OsmEntry) (t : Threshold)
    → IsFirstReaching volts threshold rows j entry
    → resolve_threshold volts threshold rows t
      ≡ record { vc = entry.virtual_corner; pre_vc = corner_before entry.virtual_corner }
unfolding resolve_threshold
resolve_threshold-first volts threshold j rows entry t f =
    rw (first_reaching_lem volts threshold j rows entry f) (default_found entry.virtual_corner t)
  where
    default_found :
        (vc : ℕ) (t : Threshold)
        → default_threshold (found_threshold (some vc) t)
          ≡ record { vc = vc; pre_vc = corner_before vc }
    default_found vc t = ground arith

-- Where no row's voltage reaches the threshold, and no corner was resolved before, the highest
-- corner is taken, with the corner before it.
pub resolve_threshold_default :
    (volts : ℕ → ℕ) (threshold : ℕ) (rows : List OsmEntry) (t : Threshold)
    → ((m : ℕ) (e : OsmEntry)
        → get_elem? rows m ≡ some e
        → volts (e.virtual_corner + 1) < threshold)
    → t.vc ≡ 0
    → t.pre_vc ≡ 0
    → resolve_threshold volts threshold rows t
      ≡ record { vc = max_virtual_corner; pre_vc = corner_before max_virtual_corner }
unfolding resolve_threshold
resolve_threshold_default volts threshold rows t below vc pre =
    rw (first_reaching-none volts threshold rows below, vc, pre) refl
