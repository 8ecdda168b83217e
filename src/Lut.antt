-- ===== src/Lut.antt =====
-- `clk_osm_get_lut` of clk-cpu-osm-660.c: reads the look-up table of a cluster from the device
-- tree, fills the 40 rows of `osm_table` and lists the rates that all cores can run at.
pub mod Fill
pub mod Parsed
use Prim.Native.String.{String}
use xiaomi_pad4_ubuntu_touch.Base.{
  ℕ, zero, suc, ◌+◌, ◌-◌, ◌*◌, ◌/◌, ◌%◌, Bool, true, false, not, ◌&&◌, List, [], ◌∷◌, Option, none,
  some, length, get_elem?, u16, sub32, core_count_val, ltb, ◌==◌, if◌then◌else◌,
}
use xiaomi_pad4_ubuntu_touch.Osm.{
  Cluster, OsmEntry, ClkOsm, World, M, ok, err, ◌>>=◌, ◌>>◌, pure, fail, crash, when, at_or_crash,
  modify, allocate, fmax_temp_alloc, lut_alloc, rate_max_alloc, einval, enomem, replaced,
  of_property_read_u32_array,
}
use xiaomi_pad4_ubuntu_touch.Osm.Regs.{osm_table_size, max_core_count}

-- `enum clk_osm_lut_data`: FREQ, FREQ_DATA, PLL_OVERRIDES, SPARE_DATA, VIRTUAL_CORNER.
abbrev pub num_fields : ℕ
num_fields = 5

infixl 5 ◌>>?◌
abbrev ◌>>?◌ {ℓ} : {A : Type ℓ} {B : Type ℓ} → Option A → (A → Option B) → Option B
none >>? f = none
some a >>? f = f a

-- The row whose first cell is `array[i]`; `none` is a read past the array. The corners of the
-- device tree count from 1.
pub row_at : List ℕ → ℕ → Option OsmEntry
row_at array i = get_elem? array i >>? λ f. get_elem? array (i + 1) >>? λ fd.
    get_elem? array (i + 2) >>? λ o. get_elem? array (i + 3) >>? λ sp.
    get_elem? array (i + 4) >>? λ vc. some (record {
      virtual_corner = u16 (sub32 vc 1);
      open_loop_volt = 0;
      freq_data = fd;
      override_data = o;
      spare_data = sp;
      frequency = f;
    })

abbrev pub is_quad : OsmEntry → Bool
is_quad e = core_count_val e.freq_data == max_core_count

-- What the loop has written: the rows of `osm_table`, and `fmax_temp[0 .. k)`.
pub record Filled : Type 0 where
  pub rows : List OsmEntry
  pub fmax : List ℕ

abbrev pub add_row : OsmEntry → Bool → Filled → Filled
add_row e last_entry f = record {
  rows = e ∷ f.rows;
  fmax = if not last_entry && is_quad e then e.frequency ∷ f.fmax else f.fmax;
}

-- The loop with `n` rows of `osm_table` left, at cell `i` of the array.
pub fill : List ℕ → ℕ → ℕ → ℕ → Bool → Option Filled
fill array total_elems zero i last_entry = some (record { rows = []; fmax = [] })
fill array total_elems (suc n) i last_entry =
    let more = ltb i (total_elems - num_fields) in
    let rest =
      fill array total_elems n (if more then i + num_fields else i)
        (if more then last_entry else true) in
    row_at array i >>? λ e. rest >>? λ f. some (add_row e last_entry f)

abbrev prop_length : Option ℕ → M ℕ
prop_length none = fail einval
prop_length (some n) = pure n

-- The rows keep the voltage that they had; it is resolved later.
abbrev pub keep_volts : List OsmEntry → List OsmEntry → List OsmEntry
keep_volts [] rows = rows
keep_volts (old ∷ olds) [] = []
keep_volts (old ∷ olds) (e ∷ rows) =
    record e { open_loop_volt = old.open_loop_volt } ∷ keep_volts olds rows

-- What devm_kzalloc returns is stored before it is tested: on a failure there is no array.
abbrev pub allocate_rate_max : Cluster → M (Unit {0})
allocate_rate_max k w = if w.env.alloc rate_max_alloc then (ok tt, w) else (
  err enomem,
  record w { clocks = replaced k (record (w.clocks k) { rate_max = [] }) w.clocks },
)

-- `fmax_temp` has room for `2 * num_rows` u32 values, as it is allocated for `unsigned long`.
pub clk_osm_get_lut : Cluster → String → M (Unit {0})
clk_osm_get_lut k prop_name w =
    (do
      prop_len ← prop_length (w.env.of_find_property prop_name)
      let total_elems = prop_len / 4
      when (not (total_elems % num_fields == 0)) (fail einval)
      let num_rows = total_elems / num_fields
      allocate fmax_temp_alloc
      allocate lut_alloc
      array ← of_property_read_u32_array prop_name total_elems
      modify k λ c. record c { num_entries = num_rows }
      when (ltb osm_table_size num_rows) (fail einval)
      f ← at_or_crash (fill array total_elems osm_table_size 0 false)
      modify k λ c. record c { osm_table = keep_volts c.osm_table f.rows }
      when (not (ltb (length f.fmax) (2 * num_rows))) crash
      allocate_rate_max k
      modify k λ c. record c { rate_max = f.fmax })
      w
