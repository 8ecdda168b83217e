-- ===== src/MemAcc.antt =====
-- `clk_osm_program_mem_acc_regs` of clk-cpu-osm-660.c: the corners at which the memory accelerator
-- changes its level, for the sequencer.
pub mod Levels
pub mod Thresholds
use xiaomi_pad4_ubuntu_touch.Base.{
  ℕ, zero, suc, ◌+◌, ◌^◌, Bool, true, false, not, ◌&&◌, ◌||◌, List, [], ◌∷◌, get_or, set, u32, u64,
  sub32, l_val, ltb, leb, ◌==◌, if◌then◌else◌,
}
use xiaomi_pad4_ubuntu_touch.Osm.{
  Cluster, OsmEntry, ClkOsm, Result, ok, fault, M, ◌>>=◌, ◌>>◌, pure, when, index, get, for_range,
  clk_osm_write_reg, scm_io_write,
}
use xiaomi_pad4_ubuntu_touch.Osm.Regs.{
  seq_reg, max_mem_acc_levels, max_mem_acc_val_per_level, max_mem_acc_values, mem_acc_apm_read_mask,
  osm_seq_minus_one,
}

-- `a >= b` of two `int` patterns.
abbrev pub int_ge : ℕ → ℕ → Bool
int_ge a b = leb (u32 (b + 2 ^ 31)) (u32 (a + 2 ^ 31))

-- The loop over the entries, with `n` of them left: `mem_acc_level_map` gets the corner below each
-- row that changes the level, and a fourth change is written past its end.
pub level_map : ℕ → ℕ → ℕ → List ℕ → List OsmEntry → Result (List ℕ)
level_map zero curr_level j levels rows = ok levels
level_map (suc n) curr_level j levels [] =
    if curr_level == max_mem_acc_levels then ok levels else fault
level_map (suc n) curr_level j levels (e ∷ rows) =
    let same = e.spare_data == curr_level in
    let rest =
      level_map n e.spare_data (if same then j else j + 1)
        (if same then levels else set levels j (sub32 e.virtual_corner 1)) rows in
    if curr_level == max_mem_acc_levels
    then ok levels
    else if not same && leb max_mem_acc_levels j
    then fault
    else rest

-- `threshold_vc[4]`, of `int` patterns.
pub record ThresholdVc : Type 0 where
  pub t0 : ℕ
  pub t1 : ℕ
  pub t2 : ℕ
  pub t3 : ℕ

abbrev pub fixed_thresholds : List ℕ → ThresholdVc
fixed_thresholds levels = record {
  t0 = get_or levels 0 0;
  t1 = u32 (get_or levels 0 0 + 1);
  t2 = get_or levels 1 0;
  t3 = u32 (get_or levels 1 0 + 1);
}

-- The highest threshold is the resolved one if there is one, and the others stay below it.
pub dynamic_thresholds : ℕ → ℕ → ThresholdVc → ThresholdVc
dynamic_thresholds threshold_vc pre_vc t =
    if not (threshold_vc == 0) || pre_vc == osm_seq_minus_one
    then (if pre_vc == osm_seq_minus_one
        then (record { t0 = pre_vc; t1 = pre_vc; t2 = pre_vc; t3 = threshold_vc })
        else let t1 = if int_ge t.t1 pre_vc then sub32 pre_vc 1 else t.t1 in
          let t0 = if int_ge t.t0 t1 then sub32 t1 1 else t.t0 in
          record { t0 = t0; t1 = t1; t2 = pre_vc; t3 = threshold_vc })
    else t

abbrev pub seq_phys : ClkOsm → ℕ → ℕ
seq_phys c n = u64 (c.pbases.osm_base + seq_reg n)

-- Without a secure world to do it.
pub write_secure_mem_acc : Cluster → ThresholdVc → M (Unit {0})
unfolding for_range
write_secure_mem_acc k t = do
  c ← get k
  clk_osm_write_reg k 1 (seq_reg 51)
  clk_osm_write_reg k 2 (seq_reg 52)
  clk_osm_write_reg k 3 (seq_reg 53)
  clk_osm_write_reg k 4 (seq_reg 54)
  clk_osm_write_reg k mem_acc_apm_read_mask (seq_reg 59)
  clk_osm_write_reg k t.t0 (seq_reg 55)
  clk_osm_write_reg k t.t1 (seq_reg 56)
  clk_osm_write_reg k t.t2 (seq_reg 57)
  clk_osm_write_reg k t.t3 (seq_reg 58)
  clk_osm_write_reg k (seq_phys c 28) (seq_reg 49)
  for_range max_mem_acc_values 0
      λ i. (index c.apcs_mem_acc_val i >>= λ v. clk_osm_write_reg k v (seq_reg (60 + i)))
  for_range max_mem_acc_val_per_level 0
      λ i. (index c.apcs_mem_acc_cfg i >>= λ v. clk_osm_write_reg k v (seq_reg (12 + i)))

pub write_scm_mem_acc : Cluster → ThresholdVc → M (Unit {0})
write_scm_mem_acc k t = do
  c ← get k
  when (not (c.mem_acc_crossover_vc == 0)) (scm_io_write (seq_phys c 88) c.mem_acc_crossover_vc)
  scm_io_write (seq_phys c 55) t.t0
  scm_io_write (seq_phys c 56) t.t1
  scm_io_write (seq_phys c 57) t.t2
  scm_io_write (seq_phys c 58) t.t3

-- The L value of each entry at the highest threshold.
pub write_l_val : Cluster → ℕ → M (Unit {0})
unfolding for_range
write_l_val k t3 = do
  c ← get k
  for_range c.num_entries 0 λ i.
      (index c.osm_table i >>= λ e.
      when (t3 == e.virtual_corner) (scm_io_write (seq_phys c 32) (l_val e.freq_data)))

pub clk_osm_program_mem_acc_regs : Cluster → M (Unit {0})
unfolding level_map dynamic_thresholds write_secure_mem_acc write_scm_mem_acc write_l_val
clk_osm_program_mem_acc_regs k = do
  c ← get k
  first ← index c.osm_table 0
  levels ← λ w. (level_map c.num_entries first.spare_data 0 (0 ∷ 0 ∷ 0 ∷ []) c.osm_table, w)
  let fixed = fixed_thresholds levels
  let t =
      if c.secure_init
      then fixed
      else dynamic_thresholds c.mem_acc_threshold_vc c.mem_acc_threshold_pre_vc fixed
  if c.secure_init then write_secure_mem_acc k t else write_scm_mem_acc k t
  write_l_val k t.t3
