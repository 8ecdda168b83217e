-- ===== src/Acd.antt =====
-- The adaptive clock distribution block of clk-cpu-osm-660.c: transfers from a master register to
-- its local copy, which are polled with a timeout, the start-up sequence `clk_osm_acd_init`, and
-- `clk_osm_enable`, which runs it before it switches the OSM on.
pub mod Bits
pub mod Timeout
pub mod Answers
pub mod Done
use xiaomi_pad4_ubuntu_touch.Base.{
  ℕ, zero, suc, ◌+◌, ◌-◌, ◌*◌, ◌/◌, Bool, true, false, not, Option, none, some, bit_and, bit_or,
  ◌<<<◌, leb, ◌==◌, if◌then◌else◌,
}
use xiaomi_pad4_ubuntu_touch.Osm.{
  Cluster, M, ◌>>=◌, ◌>>◌, pure, fail, when, at_or_crash, get, modify, readl, writel, ndelay,
  udelay, clk_osm_write_reg, clk_osm_mb, einval, etimedout,
}
use xiaomi_pad4_ubuntu_touch.Osm.Regs.{
  enable_reg, acd_hw_version, acdcr, acdtd, acdsscr, acd_extint_cfg, acd_dcvs_sw, acd_gfmux_cfg,
  acd_readout_cfg, acd_autoxfer_cfg, acd_autoxfer, acd_autoxfer_ctl, acd_autoxfer_status,
  acd_write_ctl, acd_write_status, acd_readout, acd_master_only_reg_addr, acd_write_ctl_update_en,
  acd_write_ctl_select_shift, acd_gfmux_cfg_select, acd_autoxfer_start_clear,
  acd_autoxfer_start_set, auto_xfer_done_mask, acd_dcvs_sw_dcvs_in_prgr_set,
  acd_dcvs_sw_dcvs_in_prgr_clear, acd_local_transfer_timeout_ns,
}

-- ACD_REG_RELATIVE_ADDR(addr)
abbrev pub acd_reg_relative_addr : ℕ → ℕ
acd_reg_relative_addr addr = addr / 4

-- ACD_REG_RELATIVE_ADDR_BITMASK(addr)
abbrev pub acd_reg_relative_addr_bitmask : ℕ → ℕ
acd_reg_relative_addr_bitmask addr = 1 <<< acd_reg_relative_addr addr

-- A register of the block, from its base.
abbrev pub acd_write : Cluster → ℕ → ℕ → M (Unit {0})
acd_write k val offset = do c ← get k; writel val (c.vbases.acd_base + offset)

abbrev pub acd_read : Cluster → ℕ → M ℕ
acd_read k offset = do c ← get k; readl (c.vbases.acd_base + offset)

abbrev pub clk_osm_acd_mb : Cluster → M (Unit {0})
clk_osm_acd_mb k = do _ ← acd_read k acd_hw_version; pure tt

abbrev pub clk_osm_acd_master_write_reg : Cluster → ℕ → ℕ → M (Unit {0})
clk_osm_acd_master_write_reg k val offset = acd_write k val offset

-- for (timeout = 100 * n; timeout > 0; timeout -= 100): whether the loop ended by its `break`,
-- that is, with `timeout` not 0.
pub poll : ℕ → Cluster → ℕ → ℕ → M Bool
poll zero k offset mask = pure false
poll (suc n) k offset mask = acd_read k offset >>= λ reg.
    (if bit_and reg mask == 0 then (ndelay 100 >> poll n k offset mask) else pure true)

-- The transfer that both local accesses wait for, to the register with bit `mask` in the status.
pub transfer_local : Cluster → ℕ → ℕ → M (Unit {0})
unfolding poll
transfer_local k selected mask = do
  acd_write k 0 acd_write_ctl
  acd_write k (bit_or (selected <<< acd_write_ctl_select_shift) acd_write_ctl_update_en)
      acd_write_ctl
  clk_osm_acd_mb k
  done ← poll (acd_local_transfer_timeout_ns / 100) k acd_write_status mask
  when (not done) (fail etimedout)

-- The value read, as an `int` pattern; `-EINVAL` and `-ETIMEDOUT` are errors here.
pub clk_osm_acd_local_read_reg : Cluster → ℕ → M ℕ
unfolding transfer_local
clk_osm_acd_local_read_reg k offset = do
  when (leb acd_master_only_reg_addr offset) (fail einval)
  acd_write k (acd_reg_relative_addr offset) acd_readout_cfg
  transfer_local k (acd_reg_relative_addr acd_readout_cfg)
      (acd_reg_relative_addr_bitmask acd_readout_cfg)
  acd_read k acd_readout

pub clk_osm_acd_local_write_reg : Cluster → ℕ → ℕ → M (Unit {0})
unfolding transfer_local
clk_osm_acd_local_write_reg k val offset = do
  when (leb acd_master_only_reg_addr offset) (fail einval)
  transfer_local k (acd_reg_relative_addr offset) (acd_reg_relative_addr_bitmask offset)

pub clk_osm_acd_master_write_through_reg : Cluster → ℕ → ℕ → M (Unit {0})
clk_osm_acd_master_write_through_reg k val offset = do
  acd_write k val offset
  clk_osm_acd_mb k
  clk_osm_acd_local_write_reg k val offset

-- for (numregs = 0; bitmask; numregs++) bitmask &= bitmask - 1; with fuel for the rounds.
pub count_set_bits : ℕ → ℕ → ℕ → Option ℕ
count_set_bits zero bitmask numregs = none
count_set_bits (suc fuel) bitmask numregs =
    let rest = count_set_bits fuel (bit_and bitmask (bitmask - 1)) (numregs + 1) in
    if bitmask == 0 then some numregs else rest

-- A u32 has at most 32 set bits: 33 tests are enough.
pub clk_osm_acd_auto_local_write_reg : Cluster → ℕ → M (Unit {0})
clk_osm_acd_auto_local_write_reg k mask = do
  numregs ← at_or_crash (count_set_bits 33 mask 0)
  acd_write k mask acd_autoxfer_cfg
  acd_write k acd_autoxfer_start_clear acd_autoxfer
  acd_write k acd_autoxfer_start_set acd_autoxfer
  clk_osm_acd_mb k
  done ←
      poll (acd_local_transfer_timeout_ns * numregs / 100) k acd_autoxfer_status auto_xfer_done_mask
  when (not done) (fail etimedout)

-- The registers that are transferred at first, and again whenever the cluster powers up.
abbrev pub auto_xfer_mask : ℕ
auto_xfer_mask =
    bit_or
      (bit_or (bit_or (acd_reg_relative_addr_bitmask acdtd) (acd_reg_relative_addr_bitmask acdcr))
        (acd_reg_relative_addr_bitmask acdsscr))
      (acd_reg_relative_addr_bitmask acd_extint_cfg)

-- `clk_osm_acd_init` past its guard, up to the transfer.
pub acd_configure : Cluster → M (Unit {0})
acd_configure k = do
  modify k λ c. record c { acd_debugfs_addr = acd_hw_version }
  c ← get k
  clk_osm_acd_master_write_reg k c.acd_td acdtd
  clk_osm_acd_master_write_reg k c.acd_cr acdcr
  clk_osm_acd_master_write_reg k c.acd_sscr acdsscr
  clk_osm_acd_master_write_reg k c.acd_extint0_cfg acd_extint_cfg
  clk_osm_acd_master_write_reg k c.acd_autoxfer_ctl acd_autoxfer_ctl
  clk_osm_acd_mb k

-- The transfer, the switch of the clock, and the registers that are transferred from then on.
pub acd_transfer : Cluster → M (Unit {0})
acd_transfer k = do
  c ← get k
  clk_osm_acd_auto_local_write_reg k auto_xfer_mask
  clk_osm_acd_master_write_through_reg k acd_gfmux_cfg_select acd_gfmux_cfg
  clk_osm_acd_master_write_through_reg k acd_dcvs_sw_dcvs_in_prgr_set acd_dcvs_sw
  clk_osm_acd_master_write_through_reg k acd_dcvs_sw_dcvs_in_prgr_clear acd_dcvs_sw
  udelay 1
  clk_osm_acd_master_write_through_reg k c.acd_extint1_cfg acd_extint_cfg
  clk_osm_acd_master_write_reg k
      (bit_or auto_xfer_mask (acd_reg_relative_addr_bitmask acd_gfmux_cfg)) acd_autoxfer_cfg

pub clk_osm_acd_init : Cluster → M (Unit {0})
clk_osm_acd_init k = do c ← get k; when c.acd_init (acd_configure k >> acd_transfer k)

pub clk_osm_enable : Cluster → M (Unit {0})
clk_osm_enable k = do
  clk_osm_acd_init k
  udelay 5
  clk_osm_write_reg k 1 enable_reg
  clk_osm_mb k
  udelay 5
