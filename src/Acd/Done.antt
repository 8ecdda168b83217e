-- ===== src/Acd/Done.antt =====
-- The start-up of the clock distribution block on hardware that answers each transfer in time.
use xiaomi_pad4_ubuntu_touch.Base.{
  ℕ, zero, suc, ◌+◌, ◌*◌, ◌≤◌, ◌≡◌, refl, ap, true, false, List, ◌∷◌, some, arith, bit_and, bit_or,
  leb, u32, ◌==◌, ==_refl, ==_of_ne, inl, inr, Bool-cases,
}
use xiaomi_pad4_ubuntu_touch.Osm.{
  Cluster, pwrcl, perfcl, ClkOsm, Env, World, Access, read_reg, write_reg, wait_ns, clock, ok, M,
  ◌>>◌, fail, when, einval, udelay, last_written,
}
use xiaomi_pad4_ubuntu_touch.Osm.Regs.{
  enable_reg, acd_autoxfer, acd_autoxfer_status, auto_xfer_done_mask, acd_write_ctl,
  acd_write_status, acd_hw_version, acd_autoxfer_start_set, acd_autoxfer_start_clear,
  acd_autoxfer_cfg, acd_master_only_reg_addr, acd_gfmux_cfg, acd_dcvs_sw, acd_extint_cfg,
  acd_gfmux_cfg_select, acd_dcvs_sw_dcvs_in_prgr_set, acd_dcvs_sw_dcvs_in_prgr_clear,
}
use xiaomi_pad4_ubuntu_touch.Acd.Timeout.{count_auto_xfer}
use xiaomi_pad4_ubuntu_touch.Acd.{
  poll, transfer_local, clk_osm_acd_local_write_reg, clk_osm_acd_master_write_through_reg,
  clk_osm_acd_auto_local_write_reg, acd_reg_relative_addr, acd_reg_relative_addr_bitmask,
  acd_configure, acd_transfer, clk_osm_acd_init, clk_osm_enable, auto_xfer_mask, clk_osm_acd_mb,
  acd_write,
}
use xiaomi_pad4_ubuntu_touch.Acd.Answers.{
  running, longer_by, AnswersIn, select, OneAnswers, AllAnswer, Answers,
}

module _ (k : Cluster) (env : Env) (clocks : Cluster → ClkOsm) where
  abbrev base : ℕ
  base = (clocks k).vbases.acd_base

  abbrev world : List Access → World
  world bus = record { env = env; bus = bus; clocks = clocks }

  -- With time for `n + 1` reads, the loop ends with its `break`.
  poll-AnswersIn :
      (start clear go offset mask d n t : ℕ) (bus : List Access)
      → AnswersIn d env start clear go (base + offset) mask
      → running start clear go bus ≡ some t
      → d ≤ t + 100 * n
      → (bus' : List Access) × (poll (suc n) k offset mask (world bus) ≡ (ok true, world bus'))
  unfolding poll
  poll-AnswersIn start clear go offset mask d zero t bus answers started time =
      rw
        (==_of_ne (bit_and (u32 (env.device bus (base + offset))) mask) 0
          (answers bus t started (omega arith)))
        (_, refl)
  poll-AnswersIn start clear go offset mask d (suc n) t bus answers started time =
      let read = read_reg (base + offset) (u32 (env.device bus (base + offset))) ∷ bus in
      elim (Bool-cases (bit_and (u32 (env.device bus (base + offset))) mask == 0)) [
        | inl not_yet ↦
            let (bus', e) =
              poll-AnswersIn start clear go offset mask d n (t + 100) (wait_ns 100 ∷ read) answers
                (ap (longer_by 100) started) (omega arith) in
            rw not_yet (bus', e)
        | inr done ↦ rw done (read, refl)
      ]

  -- The run succeeds, and changes no field of the driver.
  pub record Succeeds (m : M (Unit {0})) : Type 0 where
    pub succeeds :
        (bus : List Access) → (bus' : List Access) × (m (world bus) ≡ (ok tt, world bus'))

  Succeeds-then : {m n : M (Unit {0})} → Succeeds m → Succeeds n → Succeeds (m >> n)
  Succeeds-then {m} {n} first second = record {
    succeeds = λ bus.
        let (bus1, e1) = first.succeeds bus in
        let (bus2, e2) = second.succeeds bus1 in (bus2, rw (e1, e2) refl);
  }

  -- Two writes that start a transfer.
  running-start :
      (a clear go : ℕ) (bus : List Access)
      → running a clear go (write_reg a go ∷ write_reg a clear ∷ bus) ≡ some 0
  running-start a clear go bus = rw (==_refl a, ==_refl go, ==_refl clear) refl

  transfer-Succeeds :
      (selected mask : ℕ)
      → AnswersIn 400 env (base + acd_write_ctl) 0 (select selected) (base + acd_write_status) mask
      → Succeeds (transfer_local k selected mask)
  unfolding transfer_local
  transfer-Succeeds selected mask answers = record {
    succeeds = λ bus.
        let started =
          write_reg (base + acd_write_ctl) (select selected)
          ∷ write_reg (base + acd_write_ctl) 0
          ∷ bus in
        let waiting =
          read_reg (base + acd_hw_version) (u32 (env.device started (base + acd_hw_version)))
          ∷ started in
        let (bus', e) =
          poll-AnswersIn (base + acd_write_ctl) 0 (select selected) acd_write_status mask 400 4 0
            waiting answers (running-start (base + acd_write_ctl) 0 (select selected) bus)
            (omega arith) in
        rw e (bus', refl);
  }

  abbrev InTime : ℕ → Type 0
  InTime offset = OneAnswers env base offset

  no_error : Succeeds (when false (fail einval))
  no_error = record { succeeds = λ bus. (bus, refl) }

  local_write-Succeeds :
      (val offset : ℕ)
      → leb acd_master_only_reg_addr offset ≡ false
      → InTime offset
      → Succeeds (clk_osm_acd_local_write_reg k val offset)
  unfolding clk_osm_acd_local_write_reg
  local_write-Succeeds val offset local answers = rw local (
      Succeeds-then no_error (
        transfer-Succeeds (acd_reg_relative_addr offset) (acd_reg_relative_addr_bitmask offset)
          answers))

  write-Succeeds : (val offset : ℕ) → Succeeds (acd_write k val offset)
  write-Succeeds val offset = record { succeeds = λ bus. (_, refl) }

  mb-Succeeds : Succeeds (clk_osm_acd_mb k)
  mb-Succeeds = record { succeeds = λ bus. (_, refl) }

  through-Succeeds :
      (val offset : ℕ)
      → leb acd_master_only_reg_addr offset ≡ false
      → InTime offset
      → Succeeds (clk_osm_acd_master_write_through_reg k val offset)
  unfolding clk_osm_acd_master_write_through_reg
  through-Succeeds val offset local answers =
      Succeeds-then (write-Succeeds val offset)
        (Succeeds-then mb-Succeeds (local_write-Succeeds val offset local answers))

  auto_local-Succeeds :
      AllAnswer env base → Succeeds (clk_osm_acd_auto_local_write_reg k auto_xfer_mask)
  unfolding clk_osm_acd_auto_local_write_reg
  auto_local-Succeeds answers = record {
    succeeds = λ bus.
        let asked =
          write_reg (base + acd_autoxfer) (u32 acd_autoxfer_start_set)
          ∷ write_reg (base + acd_autoxfer) (u32 acd_autoxfer_start_clear)
          ∷ write_reg (base + acd_autoxfer_cfg) (u32 auto_xfer_mask)
          ∷ bus in
        let waiting =
          read_reg (base + acd_hw_version) (u32 (env.device asked (base + acd_hw_version)))
          ∷ asked in
        let (bus', e) =
          poll-AnswersIn (base + acd_autoxfer) acd_autoxfer_start_clear acd_autoxfer_start_set
            acd_autoxfer_status auto_xfer_done_mask 1900 19 0 waiting answers
            (running-start (base + acd_autoxfer) acd_autoxfer_start_clear acd_autoxfer_start_set
              (write_reg (base + acd_autoxfer_cfg) (u32 auto_xfer_mask) ∷ bus))
            (omega arith) in
        rw (count_auto_xfer, e) (bus', refl);
  }

  udelay-Succeeds : (n : ℕ) → Succeeds (udelay n)
  udelay-Succeeds n = record { succeeds = λ bus. (_, refl) }

  transfers-Succeed :
      AllAnswer env base
      → InTime acd_gfmux_cfg
      → InTime acd_dcvs_sw
      → InTime acd_extint_cfg
      → Succeeds (acd_transfer k)
  unfolding acd_transfer
  transfers-Succeed auto gfmux dcvs extint = record {
    succeeds =
        (Succeeds-then (auto_local-Succeeds auto) (
          Succeeds-then (through-Succeeds acd_gfmux_cfg_select acd_gfmux_cfg refl gfmux) (
            Succeeds-then (through-Succeeds acd_dcvs_sw_dcvs_in_prgr_set acd_dcvs_sw refl dcvs) (
              Succeeds-then (through-Succeeds acd_dcvs_sw_dcvs_in_prgr_clear acd_dcvs_sw refl dcvs)
                (Succeeds-then (udelay-Succeeds 1) (
                  Succeeds-then
                    (through-Succeeds (clocks k).acd_extint1_cfg acd_extint_cfg refl extint)
                    (write-Succeeds
                      (bit_or auto_xfer_mask (acd_reg_relative_addr_bitmask acd_gfmux_cfg))
                      acd_autoxfer_cfg))))))).succeeds;
  }

acd_configure_keeps :
    (k : Cluster) (w : World)
    → let (r, w') = acd_configure k w in
      (r ≡ ok tt) × (w'.env ≡ w.env) × ((clock k w').vbases ≡ (clock k w).vbases)
unfolding acd_configure
acd_configure_keeps pwrcl w = (refl, refl, refl)
acd_configure_keeps perfcl w = (refl, refl, refl)

-- With hardware that, once a transfer of the clock distribution block is started, shows in time that
-- it is done, `clk_osm_enable` succeeds, and the last write to the enable register of the OSM switches it on.
pub enable-Answers :
    (k : Cluster) (w : World)
    → Answers w.env (clock k w).vbases.acd_base
    → let (r, w') = clk_osm_enable k w in
      (r ≡ ok tt) × (last_written ((clock k w).vbases.osm_base + enable_reg) w'.bus ≡ some 1)
unfolding clk_osm_enable clk_osm_acd_init
enable-Answers k w answers = elim (Bool-cases (clock k w).acd_init) [
  | inr off ↦ rw off (refl, rw (==_refl ((clock k w).vbases.osm_base + enable_reg)) refl)
  | inl on ↦
      let w1 = (acd_configure k w).1 in
      let (done, env, bases) = acd_configure_keeps k w in
      let answers1 : Answers w1.env (clock k w1).vbases.acd_base = rw (env, bases) answers in
      let (bus, e) =
        (transfers-Succeed k w1.env w1.clocks answers1.auto answers1.gfmux answers1.dcvs
            answers1.extint).succeeds
          w1.bus in
      rw (on, done, e) (refl, rw (bases, ==_refl ((clock k w).vbases.osm_base + enable_reg)) refl)
]
