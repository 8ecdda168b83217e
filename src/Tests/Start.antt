-- ===== src/Tests/Start.antt =====
-- The theorems on the probe and on the start of the OSM, at concrete inputs.
use xiaomi_pad4_ubuntu_touch.Base.{ℕ, ◌+◌, ◌≡◌, refl, true, false, arith, if◌then◌else◌}
use xiaomi_pad4_ubuntu_touch.Osm.{pwrcl, perfcl, World, clock, ok}
use xiaomi_pad4_ubuntu_touch.Osm.{for_range}
use xiaomi_pad4_ubuntu_touch.Config.{
  parse_cluster_arrays, parse_overrides, parse_rates, parse_end, parse_fsm_flags,
  clk_osm_parse_dt_configs,
}
use xiaomi_pad4_ubuntu_touch.Config.Kept.{acd_config}
use xiaomi_pad4_ubuntu_touch.Resources.{
  map_osm, map_pll, map_common, map_efuse, map_acd, map_debug_regs, find_supplies,
  clk_osm_resources_init,
}
use xiaomi_pad4_ubuntu_touch.Resources.Mapped.{Mapped, AcdIs, acd_view, resources_init-Mapped}
use xiaomi_pad4_ubuntu_touch.Cycle.{cluster_of_hwid}
use xiaomi_pad4_ubuntu_touch.Probe.{probe_resources}
use xiaomi_pad4_ubuntu_touch.Probe.Order.{probe_resources-acd_config}
use xiaomi_pad4_ubuntu_touch.Base.{Bool, List, Option, ◌≤◌, leb, ◌==◌, some, none}
use xiaomi_pad4_ubuntu_touch.Osm.{Access, Env, ClkId, M, pure, fail, err, einval, last_written}
use xiaomi_pad4_ubuntu_touch.Osm.Keeps.{Keeps, Keeps-if, Keeps-fail, Keeps-pure}
use xiaomi_pad4_ubuntu_touch.Osm.Regs.{
  enable_reg, acd_autoxfer, acd_autoxfer_status, acd_write_ctl, acd_autoxfer_start_set,
  acd_autoxfer_start_clear, acd_gfmux_cfg, acd_dcvs_sw, acd_extint_cfg,
}
use xiaomi_pad4_ubuntu_touch.Acd.{clk_osm_enable, acd_reg_relative_addr}
use xiaomi_pad4_ubuntu_touch.Acd.Answers.{running, select, Answers}
use xiaomi_pad4_ubuntu_touch.Acd.Done.{enable-Answers}
use xiaomi_pad4_ubuntu_touch.Probe.{probe_cpus, enable_online_cpus, enable_cpus}
use xiaomi_pad4_ubuntu_touch.Probe.Cpus.{held_locks, left_behind, probe_cpus-left_behind}
use xiaomi_pad4_ubuntu_touch.Base.{◌||◌}
use xiaomi_pad4_ubuntu_touch.Sample.{sample, env, world, bases}

resources_init_done : (clk_osm_resources_init world).0 ≡ ok tt
unfolding clk_osm_resources_init map_osm map_pll map_common map_efuse map_acd map_debug_regs
    find_supplies
resources_init_done = refl

resources_init-Mapped_example : Mapped (clk_osm_resources_init world).1
resources_init-Mapped_example = resources_init-Mapped world resources_init_done

probe_resources_done : (probe_resources world).0 ≡ ok tt
unfolding probe_resources clk_osm_resources_init map_osm map_pll map_common map_efuse map_acd
    map_debug_regs find_supplies clk_osm_parse_dt_configs parse_cluster_arrays parse_overrides
    parse_rates parse_end parse_fsm_flags for_range
probe_resources_done = refl

probe_resources-acd_config_example :
    let w' = (probe_resources world).1 in
    (acd_config (clock perfcl w') ≡ acd_config sample)
    × AcdIs (w'.env.platform.get_resource "perfcl_acd") (acd_view (clock perfcl w'))
probe_resources-acd_config_example =
    probe_resources-acd_config perfcl world refl refl probe_resources_done

-- A block whose status registers show that a transfer is done, 300 ns after it was started.
abbrev acd_at : ℕ
acd_at = 0x179d0000

abbrev ready : Option ℕ → Bool
ready none = false
ready (some t) = leb 300 t

abbrev all_ready : List Access → Bool
all_ready h =
    ready (running (acd_at + acd_autoxfer) acd_autoxfer_start_clear acd_autoxfer_start_set h)

abbrev one_ready : ℕ → List Access → Bool
one_ready offset h =
    ready (running (acd_at + acd_write_ctl) 0 (select (acd_reg_relative_addr offset)) h)

abbrev answered : List Access → ℕ → Bool
answered h a =
    if a == acd_at + acd_autoxfer_status
    then all_ready h
    else one_ready acd_gfmux_cfg h || (one_ready acd_dcvs_sw h || one_ready acd_extint_cfg h)

abbrev slow_env : Env
slow_env = record env { device = λ h a. if answered h a then 0xffffffff else 0 }

abbrev with_acd : World
with_acd = record world {
  env = slow_env;
  clocks = λ k. record sample { acd_init = true; vbases = record bases { acd_base = acd_at } };
}

ready_at : (r : Option ℕ) (t : ℕ) → r ≡ some t → 300 ≤ t → ready r ≡ true
ready_at r t started time = rw started (ground arith)

or_left : (b c : Bool) → b ≡ true → (b || c) ≡ true
or_left b c h = rw h refl

or_right : (b c : Bool) → c ≡ true → (b || c) ≡ true
or_right true c h = refl
or_right false c h = h

Answers-slow : Answers slow_env acd_at
Answers-slow = record {
  auto = λ h t started time. rw (ready_at _ t started (omega arith)) (λ e. omega (arith, e));
  gfmux = λ h t started time.
      rw
        (or_left (one_ready acd_gfmux_cfg h) (one_ready acd_dcvs_sw h || one_ready acd_extint_cfg h)
          (ready_at _ t started (omega arith)))
        (λ e. omega (arith, e));
  dcvs = λ h t started time.
      rw
        (or_right (one_ready acd_gfmux_cfg h)
          (one_ready acd_dcvs_sw h || one_ready acd_extint_cfg h)
          (or_left (one_ready acd_dcvs_sw h) (one_ready acd_extint_cfg h)
            (ready_at _ t started (omega arith))))
        (λ e. omega (arith, e));
  extint = λ h t started time.
      rw
        (or_right (one_ready acd_gfmux_cfg h)
          (one_ready acd_dcvs_sw h || one_ready acd_extint_cfg h)
          (or_right (one_ready acd_dcvs_sw h) (one_ready acd_extint_cfg h)
            (ready_at _ t started (omega arith))))
        (λ e. omega (arith, e));
}

enable-Answers_example :
    let (r, w') = clk_osm_enable pwrcl with_acd in
    (r ≡ ok tt) × (last_written (0x179c0000 + enable_reg) w'.bus ≡ some 1)
enable-Answers_example = enable-Answers pwrcl with_acd Answers-slow

-- A clock framework that refuses one rate.
abbrev refusing : ClkId → ℕ → M (Unit {0})
refusing id rate = if rate == 1747200000 then fail einval else pure tt

refusing-Keeps : (id : ClkId) (rate : ℕ) → Keeps held_locks (refusing id rate)
refusing-Keeps id rate =
    Keeps-if held_locks (rate == 1747200000) (Keeps-fail held_locks einval)
      (Keeps-pure held_locks tt)

probe_cpus-left_behind_example :
    let (r, w') = probe_cpus refusing (λ id. pure tt) (λ id w. w) (λ cpu p. none) world in
    held_locks w' ≡ held_locks world + left_behind r
probe_cpus-left_behind_example =
    probe_cpus-left_behind refusing (λ id. pure tt) (λ id w. w) (λ cpu p. none) refusing-Keeps
      (λ id. Keeps-pure held_locks tt) world

-- The second boot rate is refused.
probe_cpus_refused :
    let (r, w') = probe_cpus refusing (λ id. pure tt) (λ id w. w) (λ cpu p. none) world in
    (r ≡ err einval) × (held_locks w' ≡ 1)
unfolding probe_cpus enable_online_cpus enable_cpus cluster_of_hwid
probe_cpus_refused = (refl, refl)
