-- ===== src/Opp.antt =====
-- The operating points of clk-cpu-osm-660.c: `find_voltage`, and `add_opp`, which registers a
-- frequency and its voltage for each rate of a cluster.
pub mod Points
use xiaomi_pad4_ubuntu_touch.Base.{
  ℕ, zero, suc, ◌+◌, ◌*◌, Bool, not, ◌&&◌, ◌||◌, List, [], ◌∷◌, Option, none, some, u32, ◌==◌,
  if◌then◌else◌,
}
use xiaomi_pad4_ubuntu_touch.Osm.{OsmEntry, ClkOsm, Result, ok, err, fault, einval, neg_errno}

-- The loop over the rows in use, with `n` of them left; a u32 is returned.
pub find_voltage_rows : ℕ → ℕ → List OsmEntry → Result ℕ
find_voltage_rows rate zero rows = ok (neg_errno einval)
find_voltage_rows rate (suc n) [] = fault
find_voltage_rows rate (suc n) (e ∷ rows) =
    let rest = find_voltage_rows rate n rows in
    if rate == e.frequency then ok (u32 (e.open_loop_volt * 1000)) else rest

abbrev pub find_voltage : ClkOsm → ℕ → Result ℕ
find_voltage c rate = find_voltage_rows rate c.num_entries c.osm_table

-- An operating point, as `dev_pm_opp_add` is given it.
pub record OppPair : Type 0 where
  pub rate : ℕ
  pub uv : ℕ

-- The points that were registered, in order, and how the call ended.
pub record Added : Type 0 where
  pub points : List OppPair
  pub outcome : Result (Unit {0})

abbrev pub stopped : Result (Unit {0}) → Added
stopped r = record { points = []; outcome = r }

abbrev pub after_point : OppPair → Added → Added
after_point p a = record { points = p ∷ a.points; outcome = a.outcome }

-- `dev_pm_opp_add` answers `some e` for an error; it is code of the kernel.
module _ (dev_pm_opp_add : OppPair → Option ℕ) (c : ClkOsm) (min_rate max_rate : ℕ) where
  -- The tests at the end of the loop's body.
  abbrev is_last : ℕ → Bool
  is_last rate = rate == max_rate && not (max_rate == min_rate) || min_rate == max_rate

  abbrev register : OppPair → Option ℕ → Added → Added
  register p (some e) rest = stopped (err e)
  register p none rest = after_point p (if is_last p.rate then stopped (ok tt) else rest)

  -- What is done with a voltage: `uv <= 0` of a u32 is `uv == 0`.
  abbrev with_voltage : ℕ → Result ℕ → Added → Added
  with_voltage rate fault rest = stopped fault
  with_voltage rate (err e) rest = stopped (err e)
  with_voltage rate (ok uv) rest =
      if uv == 0
      then stopped (err einval)
      else let p : OppPair = record { rate = rate; uv = uv } in register p (dev_pm_opp_add p) rest

  -- The `while (1)` loop at the rates from `rate_max[j]` on; past the last one the array is over.
  pub add_opp_from : List ℕ → Added
  add_opp_from [] = stopped fault
  add_opp_from (rate ∷ rates) =
      let rest = add_opp_from rates in with_voltage rate (find_voltage c rate) rest

abbrev pub last_rate : ℕ → List ℕ → ℕ
last_rate r [] = r
last_rate r (x ∷ xs) = last_rate x xs

pub add_opp_rates : (OppPair → Option ℕ) → ClkOsm → List ℕ → Added
unfolding add_opp_from
add_opp_rates opp_add c [] = stopped fault
add_opp_rates opp_add c (r ∷ rates) = add_opp_from opp_add c r (last_rate r rates) (r ∷ rates)

pub add_opp : (OppPair → Option ℕ) → ClkOsm → Added
unfolding add_opp_rates
add_opp opp_add c = add_opp_rates opp_add c c.rate_max
