-- ===== src/Osm/Update.antt =====
-- The read-modify-write steps that the set-up functions of clk-cpu-osm-660.c repeat, and a
-- property read whose failure is not an error.
use Prim.Native.String.{String}
use xiaomi_pad4_ubuntu_touch.Base.{ℕ, List, bit_or, bval, get_or}
use xiaomi_pad4_ubuntu_touch.Osm.State.{Cluster, pwrcl, perfcl, cluster_num}
use xiaomi_pad4_ubuntu_touch.Osm.Io.{
  Result, ok, err, fault, M, ◌>>=◌, ◌>>◌, attempt, crash, get, clk_osm_write_reg, clk_osm_read_reg,
  clk_osm_count_ns,
}
use xiaomi_pad4_ubuntu_touch.Osm.Tree.{of_property_read_u32_array}

-- val = read(reg) | bits; write(val, reg);
abbrev pub set_bits : Cluster → ℕ → ℕ → M (Unit {0})
set_bits k reg bits = do val ← clk_osm_read_reg k reg; clk_osm_write_reg k (bit_or val bits) reg

-- BVAL(msb, lsb, clk_osm_count_ns(c, nsec)) into a register.
abbrev pub set_timer : Cluster → ℕ → ℕ → ℕ → ℕ → M (Unit {0})
set_timer k reg msb lsb nsec = do c ← get k; set_bits k reg (bval msb lsb (clk_osm_count_ns c nsec))

abbrev pub result_cases : {A : Type 0} → Result A → (A → M (Unit {0})) → M (Unit {0}) → M (Unit {0})
result_cases (ok a) found missing = found a
result_cases (err e) found missing = missing
result_cases fault found missing = crash

-- rc = of_property_read_u32_array(of, name, array, 2); if (rc) missing; else found(array);
abbrev pub with_cluster_array : String → (List ℕ → M (Unit {0})) → M (Unit {0}) → M (Unit {0})
with_cluster_array name found missing = do
  r ← attempt (of_property_read_u32_array name 2)
  result_cases r found missing

-- The same step for both clusters, each with its own cell.
abbrev pub for_both : List ℕ → (Cluster → ℕ → M (Unit {0})) → M (Unit {0})
for_both array step = do
  step pwrcl (get_or array (cluster_num pwrcl) 0)
  step perfcl (get_or array (cluster_num perfcl) 0)
