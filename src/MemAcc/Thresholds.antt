-- ===== src/MemAcc/Thresholds.antt =====
-- The thresholds of the memory accelerator with a threshold corner that was resolved.
use xiaomi_pad4_ubuntu_touch.Base.{
  ℕ, ◌^◌, ◌≤◌, ◌<◌, ◌≡◌, ◌≢◌, refl, inl, inr, Bool-cases, ==_of_ne, sub32, if◌then◌else◌, arith,
}
use xiaomi_pad4_ubuntu_touch.Osm.Regs.{osm_seq_minus_one}
use xiaomi_pad4_ubuntu_touch.MemAcc.{int_ge, ThresholdVc, dynamic_thresholds}

-- The upper two thresholds are the resolved corners; the lower two stay below them, in their order,
-- and are no higher than they were.
pub record IsOrdered (threshold_vc pre_vc : ℕ) (before after : ThresholdVc) : Type 0 where
  pub first : after.t0 < after.t1
  pub second : after.t1 < after.t2
  pub third : after.t2 ≡ pre_vc
  pub fourth : after.t3 ≡ threshold_vc
  pub lower_first : after.t0 ≤ before.t0
  pub lower_second : after.t1 ≤ before.t1

abbrev lowered : ℕ → ℕ → ℕ
lowered a b = if int_ge a b then sub32 b 1 else a

lowered_lem : (a b : ℕ) → 1 ≤ b → b < 2 ^ 31 → a < 2 ^ 31 → (lowered a b < b) × (lowered a b ≤ a)
lowered_lem a b pos small_b small_a = elim (Bool-cases (int_ge a b)) [
  | inl ge ↦ let reaches : b ≤ a = ground arith in rw ge (omega arith, omega arith)
  | inr lt ↦ let below : a < b = ground arith in rw lt (below, omega arith)
]

lowered_pos : (a b : ℕ) → 2 ≤ b → b < 2 ^ 31 → 1 ≤ a → a < 2 ^ 31 → 1 ≤ lowered a b
lowered_pos a b enough small_b pos small_a = elim (Bool-cases (int_ge a b)) [
  | inl ge ↦ rw ge (omega arith)
  | inr lt ↦ rw lt pos
]

-- With a threshold corner, and a corner before it that is at least 2 and not the mark for none, the
-- upper two thresholds become these corners, and the lower two end below them, in their order, and
-- no higher than they were, if they were in order; none of these values reads as negative.
pub dynamic_thresholds-IsOrdered :
    (threshold_vc pre_vc : ℕ) (t : ThresholdVc)
    → 0 < threshold_vc
    → 2 ≤ pre_vc
    → pre_vc < 2 ^ 31
    → pre_vc ≢ osm_seq_minus_one
    → t.t0 < t.t1
    → t.t1 < 2 ^ 31
    → IsOrdered threshold_vc pre_vc t (dynamic_thresholds threshold_vc pre_vc t)
unfolding dynamic_thresholds
dynamic_thresholds-IsOrdered threshold_vc pre_vc t given enough small marked ordered fits =
    let t1 = lowered t.t1 pre_vc in
    let (t1_below, t1_lower) = lowered_lem t.t1 pre_vc (omega arith) small fits in
    let (t0_below, t0_lower) =
      lowered_lem t.t0 t1 (lowered_pos t.t1 pre_vc enough small (omega arith) fits) (omega arith)
        (omega arith) in
    rw (==_of_ne threshold_vc 0 (λ e. omega (arith, e)), ==_of_ne pre_vc osm_seq_minus_one marked)
      (record {
        first = t0_below;
        second = t1_below;
        third = refl;
        fourth = refl;
        lower_first = t0_lower;
        lower_second = t1_lower;
      })
