-- ===== src/Fsm/Control.antt =====
-- The control register of the hardware's state machines after `clk_osm_setup_fsms`.
use xiaomi_pad4_ubuntu_touch.Base.Bits.{digit}
use xiaomi_pad4_ubuntu_touch.Base.Bits.Digits.{digit-set_bit}
use xiaomi_pad4_ubuntu_touch.Base.{
  ℕ, ◌+◌, ◌<◌, ◌^◌, ◌≡◌, ◌≢◌, refl, ap, ◌∙◌, Bool, true, false, bit_or, bval, ◌||◌, ◌&&◌, ◌==◌, u32,
  if◌then◌else◌, arith,
}
use xiaomi_pad4_ubuntu_touch.Osm.{
  Cluster, ClkOsm, Env, World, M, ◌>>◌, when, clock, ok, set_bits, set_timer, clk_osm_count_ns,
  clk_osm_write_reg,
}
use xiaomi_pad4_ubuntu_touch.Osm.Effect
use xiaomi_pad4_ubuntu_touch.Osm.Effect.{IsPlain, held}
use xiaomi_pad4_ubuntu_touch.Osm.Regs.{
  pdn_fsm_ctrl_reg, vmin_reduc_enable_reg, vmin_reduc_timer_reg, cc_boost_timer_reg0,
  cc_boost_timer_reg1, cc_boost_timer_reg2, cc_boost_en_mask, ps_boost_en_mask, dcvs_boost_en_mask,
  pc_ret_exit_droop_en_mask, wfx_droop_en_mask, dcvs_droop_en_mask, dcvs_boost_timer_reg0,
  dcvs_boost_timer_reg1, dcvs_boost_timer_reg2, ps_boost_timer_reg0, ps_boost_timer_reg1,
  ps_boost_timer_reg2, boost_prog_sync_delay_reg, droop_ctrl_reg, droop_release_timer_ctrl,
  droop_prog_sync_delay_reg, droop_unstall_timer_ctrl_reg, droop_wait_to_release_timer_ctrl0_reg,
  osm_pll_sw_override_en, pll_sw_override_droop_en, dcvs_droop_timer_ctrl,
}
use xiaomi_pad4_ubuntu_touch.Fsm.{
  set_timers, enable_boost, enable_reduction, enable_droop, setup_droop_timing, clk_osm_setup_fsms,
}

-- The bits of a machine that is enabled.
abbrev with_mask : Bool → ℕ → ℕ → ℕ
with_mask b mask v = if b then u32 (bit_or v mask) else v

abbrev machines : ClkOsm → ℕ → ℕ
machines c v = with_mask c.droop_fsm_en dcvs_droop_en_mask (
    with_mask c.pc_fsm_en pc_ret_exit_droop_en_mask (
      with_mask c.wfx_fsm_en wfx_droop_en_mask (
        with_mask c.ps_fsm_en ps_boost_en_mask (
          with_mask c.safe_fsm_en dcvs_boost_en_mask
            (with_mask c.boost_fsm_en cc_boost_en_mask v)))))

module _ (k : Cluster) (env : Env) (clocks : Cluster → ClkOsm) where
  abbrev pdn : ℕ
  pdn = (clocks k).vbases.osm_base + pdn_fsm_ctrl_reg

  module _ (plain : IsPlain env pdn) where
    abbrev Does : (ℕ → ℕ) → M (Unit {0}) → Type 0
    Does f m = Effect.Effect env clocks pdn f m

    infixr 5 ◌⨟◌
    abbrev ◌⨟◌ :
        {f g : ℕ → ℕ} {m n : M (Unit {0})} → Does f m → Does g n → Does (λ v. g (f v)) (m >> n)
    first ⨟ second = Effect.Effect-then env clocks pdn first second

    -- Bits in another register.
    other_bits : (reg bits : ℕ) → reg ≢ pdn_fsm_ctrl_reg → Does (λ v. v) (set_bits k reg bits)
    other_bits reg bits ne =
        Effect.Effect-set_bits_other env clocks pdn plain k reg bits (λ e. ne (omega (arith, e)))

    other_timer :
        (reg msb lsb ns : ℕ) → reg ≢ pdn_fsm_ctrl_reg → Does (λ v. v) (set_timer k reg msb lsb ns)
    other_timer reg msb lsb ns ne = record {
      runs = (other_bits reg (bval msb lsb (clk_osm_count_ns (clocks k) ns)) ne).runs;
    }

    other_timers :
        (reg low high : ℕ) → reg ≢ pdn_fsm_ctrl_reg → Does (λ v. v) (set_timers k reg low high)
    other_timers reg low high ne = record {
      runs =
          (other_bits reg
            (bit_or (bval 15 0 (clk_osm_count_ns (clocks k) low))
              (bval 31 16 (clk_osm_count_ns (clocks k) high)))
            ne).runs;
    }

    other_write : (v reg : ℕ) → reg ≢ pdn_fsm_ctrl_reg → Does (λ v. v) (clk_osm_write_reg k v reg)
    other_write v reg ne =
        Effect.Effect-write_other env clocks pdn plain k v reg (λ e. ne (omega (arith, e)))

    own_bits : (mask : ℕ) → Does (λ v. u32 (bit_or v mask)) (set_bits k pdn_fsm_ctrl_reg mask)
    own_bits mask = Effect.Effect-set_bits_same env clocks pdn plain k pdn_fsm_ctrl_reg mask refl

    enable_boost-Does :
        (mask timer0 timer1 timer2 : ℕ)
        → timer0 ≢ pdn_fsm_ctrl_reg
        → timer1 ≢ pdn_fsm_ctrl_reg
        → timer2 ≢ pdn_fsm_ctrl_reg
        → Does (λ v. u32 (bit_or v mask)) (enable_boost k mask timer0 timer1 timer2)
    enable_boost-Does mask timer0 timer1 timer2 a b c =
        own_bits mask
        ⨟ other_timers timer0 _ _ a
        ⨟ other_timers timer1 _ _ b
        ⨟ other_timer timer2 15 0 _ c

    enable_droop-Does :
        (mask msb lsb : ℕ) → Does (λ v. u32 (bit_or v mask)) (enable_droop k mask msb lsb)
    enable_droop-Does mask msb lsb =
        own_bits mask
        ⨟ other_timer droop_unstall_timer_ctrl_reg msb lsb 500 (λ e. omega (arith, e))
        ⨟ other_timer droop_wait_to_release_timer_ctrl0_reg msb lsb 250 (λ e. omega (arith, e))

    enable_reduction-Does : Does (λ v. v) (enable_reduction k)
    unfolding enable_reduction
    enable_reduction-Does = record {
      runs =
          (other_bits vmin_reduc_enable_reg 1 (λ e. omega (arith, e))
            ⨟ other_write (bval 15 0 (clk_osm_count_ns (clocks k) 10000)) vmin_reduc_timer_reg
                (λ e. omega (arith, e))).runs;
    }

    setup_droop_timing-Does : Does (λ v. v) (setup_droop_timing k)
    unfolding setup_droop_timing
    setup_droop_timing-Does = record {
      runs =
          (other_write 0x1 droop_prog_sync_delay_reg (λ e. omega (arith, e))
            ⨟ other_write (clk_osm_count_ns (clocks k) 5) droop_release_timer_ctrl
                (λ e. omega (arith, e))
            ⨟ other_write (clk_osm_count_ns (clocks k) 500) dcvs_droop_timer_ctrl
                (λ e. omega (arith, e))
            ⨟ other_bits droop_ctrl_reg _ (λ e. omega (arith, e))).runs;
    }

    when_id : {m : M (Unit {0})} (b : Bool) → Does (λ v. v) m → Does (λ v. v) (when b m)
    when_id true h = h
    when_id false h = Effect.Effect-pure env clocks pdn

    when_mask :
        {m : M (Unit {0})} (b : Bool) (mask : ℕ)
        → Does (λ v. u32 (bit_or v mask)) m
        → Does (with_mask b mask) (when b m)
    when_mask b mask h = Effect.Effect-when env clocks pdn b h

    setup_fsms-Does : Does (machines (clocks k)) (clk_osm_setup_fsms k)
    unfolding clk_osm_setup_fsms
    setup_fsms-Does =
        let c = clocks k in
        record {
          runs =
              (when_id c.red_fsm_en enable_reduction-Does
                ⨟ when_mask c.boost_fsm_en cc_boost_en_mask (
                    enable_boost-Does cc_boost_en_mask cc_boost_timer_reg0 cc_boost_timer_reg1
                      cc_boost_timer_reg2 (λ e. omega (arith, e)) (λ e. omega (arith, e))
                      (λ e. omega (arith, e)))
                ⨟ when_mask c.safe_fsm_en dcvs_boost_en_mask (
                    enable_boost-Does dcvs_boost_en_mask dcvs_boost_timer_reg0 dcvs_boost_timer_reg1
                      dcvs_boost_timer_reg2 (λ e. omega (arith, e)) (λ e. omega (arith, e))
                      (λ e. omega (arith, e)))
                ⨟ when_mask c.ps_fsm_en ps_boost_en_mask (
                    enable_boost-Does ps_boost_en_mask ps_boost_timer_reg0 ps_boost_timer_reg1
                      ps_boost_timer_reg2 (λ e. omega (arith, e)) (λ e. omega (arith, e))
                      (λ e. omega (arith, e)))
                ⨟ when_id (c.boost_fsm_en || (c.safe_fsm_en || c.ps_fsm_en))
                    (other_write 0x5 boost_prog_sync_delay_reg (λ e. omega (arith, e)))
                ⨟ when_mask c.wfx_fsm_en wfx_droop_en_mask
                    (enable_droop-Does wfx_droop_en_mask 31 16)
                ⨟ when_mask c.pc_fsm_en pc_ret_exit_droop_en_mask
                    (enable_droop-Does pc_ret_exit_droop_en_mask 15 0)
                ⨟ when_mask c.droop_fsm_en dcvs_droop_en_mask (own_bits dcvs_droop_en_mask)
                ⨟ when_id (c.wfx_fsm_en || (c.ps_fsm_en || c.droop_fsm_en)) setup_droop_timing-Does
                ⨟ other_bits osm_pll_sw_override_en pll_sw_override_droop_en
                    (λ e. omega (arith, e))).runs;
        }

-- The machine that a bit of the control register belongs to is asked for.
abbrev pub asked_for : ClkOsm → ℕ → Bool
asked_for c i =
    i == 0 && c.boost_fsm_en
    || i == 1 && c.ps_fsm_en
    || i == 2 && c.safe_fsm_en
    || i == 3 && c.pc_fsm_en
    || i == 4 && c.wfx_fsm_en
    || i == 5 && c.droop_fsm_en

digit-with_mask :
    (b : Bool) (j i v : ℕ)
    → i < 32
    → digit (with_mask b (2 ^ j) v) i ≡ (if b && i == j then 1 else digit v i)
digit-with_mask true j i v small = digit-set_bit j i v small
digit-with_mask false j i v small = refl

-- The last of several machines that sets a bit, or the bit before.
merge :
    (boost ps safe pc wfx droop : Bool) (i d : ℕ)
    → (if droop && i == 5
        then 1
        else if pc && i == 3
        then 1
        else if wfx && i == 4
        then 1
        else if ps && i == 1
        then 1
        else if safe && i == 2
        then 1
        else if boost && i == 0
        then 1
        else d)
      ≡ (if i == 0 && boost
            || i == 1 && ps
            || i == 2 && safe
            || i == 3 && pc
            || i == 4 && wfx
            || i == 5 && droop
          then 1
          else d)
merge boost ps safe pc wfx droop i d = ground arith

digit-machines :
    (c : ClkOsm) (i v : ℕ)
    → i < 32
    → digit (machines c v) i ≡ (if asked_for c i then 1 else digit v i)
digit-machines c i v small =
    let v1 = with_mask c.boost_fsm_en cc_boost_en_mask v in
    let v2 = with_mask c.safe_fsm_en dcvs_boost_en_mask v1 in
    let v3 = with_mask c.ps_fsm_en ps_boost_en_mask v2 in
    let v4 = with_mask c.wfx_fsm_en wfx_droop_en_mask v3 in
    let v5 = with_mask c.pc_fsm_en pc_ret_exit_droop_en_mask v4 in
    simp
      (
        digit-with_mask c.droop_fsm_en 5 i v5 small,
        digit-with_mask c.pc_fsm_en 3 i v4 small,
        digit-with_mask c.wfx_fsm_en 4 i v3 small,
        digit-with_mask c.ps_fsm_en 1 i v2 small,
        digit-with_mask c.safe_fsm_en 2 i v1 small,
        digit-with_mask c.boost_fsm_en 0 i v small,
      )
      (merge c.boost_fsm_en c.ps_fsm_en c.safe_fsm_en c.pc_fsm_en c.wfx_fsm_en c.droop_fsm_en i
        (digit v i))

-- After the set-up of the state machines, with a control register that holds what is written to it,
-- the bit of each machine that is asked for is set, and every other bit of the register is as it was;
-- the set-up succeeds and changes no field of the driver.
pub setup_fsms-digit :
    (k : Cluster) (w : World) (i : ℕ)
    → let control = (clock k w).vbases.osm_base + pdn_fsm_ctrl_reg in
      IsPlain w.env control
      → i < 32
      → let (r, w') = clk_osm_setup_fsms k w in
        (r ≡ ok tt)
        × (digit (held w.env control w'.bus) i
            ≡ (if asked_for (clock k w) i then 1 else digit (held w.env control w.bus) i))
        × (w'.clocks ≡ w.clocks)
setup_fsms-digit k w i plain small =
    let (bus, ran, makes) = (setup_fsms-Does k w.env w.clocks plain).runs w.bus in
    rw ran (refl, ap (λ v. digit v i) makes ∙ digit-machines (clock k w) i _ small, refl)
