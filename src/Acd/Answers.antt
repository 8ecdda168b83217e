-- ===== src/Acd/Answers.antt =====
-- What is asked of the clock distribution block, for clk-cpu-osm-660.c: that it answers a transfer
-- that was started, as the driver starts it, before the driver gives up.
use xiaomi_pad4_ubuntu_touch.Base.{
  ℕ, ◌+◌, ◌≤◌, ◌≡◌, ◌≢◌, Bool, Option, none, ◌&&◌, false, List, [], ◌∷◌, some, bit_and, bit_or,
  ◌<<<◌, u32, ◌==◌, if◌then◌else◌,
}
use xiaomi_pad4_ubuntu_touch.Osm.{
  Env, Access, read_reg, write_reg, scm_write, wait_ns, call, last_written,
}
use xiaomi_pad4_ubuntu_touch.Osm.Regs.{
  acd_autoxfer, acd_autoxfer_status, auto_xfer_done_mask, acd_write_ctl, acd_write_status,
  acd_autoxfer_start_set, acd_autoxfer_start_clear, acd_write_ctl_select_shift,
  acd_write_ctl_update_en, acd_gfmux_cfg, acd_dcvs_sw, acd_extint_cfg,
}
use xiaomi_pad4_ubuntu_touch.Acd.{acd_reg_relative_addr, acd_reg_relative_addr_bitmask}

abbrev holds : ℕ → Option ℕ → Bool
holds v none = false
holds v (some old) = old == v

abbrev pub longer_by : ℕ → Option ℕ → Option ℕ
longer_by n none = none
longer_by n (some t) = some (t + n)

-- The time that the driver has waited since it started a transfer: a transfer is started by a write
-- of `go` to the register at `a` right after one of `clear` to it, and any other write there stops it.
abbrev pub running : ℕ → ℕ → ℕ → List Access → Option ℕ
running a clear go [] = none
running a clear go (write_reg b v ∷ h) =
    if a == b
    then if v == go && holds clear (last_written a h) then some 0 else none
    else running a clear go h
running a clear go (read_reg b v ∷ h) = running a clear go h
running a clear go (scm_write b v ∷ h) = running a clear go h
running a clear go (wait_ns n ∷ h) = longer_by n (running a clear go h)
running a clear go (call c ∷ h) = running a clear go h

-- A status register has a bit of the mask set `d` ns after a transfer was started, until it is
-- stopped.
abbrev pub AnswersIn : ℕ → Env → ℕ → ℕ → ℕ → ℕ → ℕ → Type 0
AnswersIn d env start clear go status mask =
    (h : List Access) (t : ℕ)
    → running start clear go h ≡ some t
    → d ≤ t
    → bit_and (u32 (env.device h status)) mask ≢ 0

-- What starts the transfer of the register with a number.
abbrev pub select : ℕ → ℕ
select selected = u32 (bit_or (selected <<< acd_write_ctl_select_shift) acd_write_ctl_update_en)

-- The transfer of the register at an offset, within 400 ns.
abbrev pub OneAnswers : Env → ℕ → ℕ → Type 0
OneAnswers env base offset =
    AnswersIn 400 env (base + acd_write_ctl) 0 (select (acd_reg_relative_addr offset))
      (base + acd_write_status) (acd_reg_relative_addr_bitmask offset)

-- The transfer of all registers that are set in the mask, within 1900 ns.
abbrev pub AllAnswer : Env → ℕ → Type 0
AllAnswer env base =
    AnswersIn 1900 env (base + acd_autoxfer) acd_autoxfer_start_clear acd_autoxfer_start_set
      (base + acd_autoxfer_status) auto_xfer_done_mask

-- Hardware that answers each transfer of the start-up before the driver gives up: a single register
-- within 400 ns, all of them within 1900 ns.
pub record Answers (env : Env) (base : ℕ) : Type 0 where
  pub auto : AllAnswer env base
  pub gfmux : OneAnswers env base acd_gfmux_cfg
  pub dcvs : OneAnswers env base acd_dcvs_sw
  pub extint : OneAnswers env base acd_extint_cfg
