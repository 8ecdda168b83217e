-- ===== src/Acd/Timeout.antt =====
-- The start-up of the clock distribution block on hardware that never answers a transfer.
use xiaomi_pad4_ubuntu_touch.Base.{
  ℕ, zero, suc, ◌+◌, ◌<◌, ◌≡◌, ◌≢◌, refl, ◌∙◌, true, false, List, ◌∷◌, some, arith, bit_and, u32,
  ==_of_ne,
}
use xiaomi_pad4_ubuntu_touch.Osm.{
  Cluster, World, pwrcl, perfcl, Access, read_reg, write_reg, clock, ok, err, Result, etimedout,
  last_written,
}
use xiaomi_pad4_ubuntu_touch.Osm.Regs.{
  enable_reg, acd_autoxfer_status, auto_xfer_done_mask, acd_autoxfer, acd_autoxfer_cfg,
  acd_autoxfer_start_set, acd_autoxfer_start_clear, acd_hw_version,
}
use xiaomi_pad4_ubuntu_touch.Acd.{
  poll, count_set_bits, clk_osm_acd_auto_local_write_reg, acd_configure, acd_transfer,
  clk_osm_acd_init, clk_osm_enable, auto_xfer_mask,
}

-- The transfer status never reads as done, whatever the accesses before the read.
abbrev pub NeverDone : World → Cluster → Type 0
NeverDone w k =
    (h : List Access)
    → bit_and (u32 (w.env.device h ((clock k w).vbases.acd_base + acd_autoxfer_status)))
        auto_xfer_done_mask
      ≡ 0

-- The loop then runs out, and writes nothing.
poll-NeverDone :
    (n a : ℕ) (k : Cluster) (w : World)
    → NeverDone w k
    → (bus : List Access) × (poll n k acd_autoxfer_status auto_xfer_done_mask w
        ≡ (ok false, record w { bus = bus }))
      × (last_written a bus ≡ last_written a w.bus)
unfolding poll
poll-NeverDone zero a k w never = (w.bus, refl, refl)
poll-NeverDone (suc n) a k w never =
    let (bus, e, same) = poll-NeverDone n a k _ never in rw (never w.bus) (bus, e, same)

pub count_auto_xfer : count_set_bits 33 auto_xfer_mask 0 ≡ some 4
unfolding count_set_bits
count_auto_xfer = refl

-- A write to another address.
last_written-other :
    (a b v : ℕ) (bus : List Access)
    → a ≢ b
    → last_written a (write_reg b v ∷ bus) ≡ last_written a bus
last_written-other a b v bus ne = rw (==_of_ne a b ne) refl

-- The outcome of a step that times out, and does not write to `a`.
abbrev TimesOut : ℕ → World → Result (Unit {0}) × World → Type 0
TimesOut a w out =
    (bus : List Access) × (out.0 ≡ err etimedout)
    × (out.1.bus ≡ bus)
    × (last_written a bus ≡ last_written a w.bus)

auto_local-NeverDone :
    (a : ℕ) (k : Cluster) (w : World)
    → NeverDone w k
    → a < (clock k w).vbases.acd_base
    → TimesOut a w (clk_osm_acd_auto_local_write_reg k auto_xfer_mask w)
unfolding clk_osm_acd_auto_local_write_reg
auto_local-NeverDone a k w never below =
    let base = (clock k w).vbases.acd_base in
    let asked =
      write_reg (base + acd_autoxfer) (u32 acd_autoxfer_start_set)
      ∷ write_reg (base + acd_autoxfer) (u32 acd_autoxfer_start_clear)
      ∷ write_reg (base + acd_autoxfer_cfg) (u32 auto_xfer_mask)
      ∷ w.bus in
    let polled =
      read_reg (base + acd_hw_version) (u32 (w.env.device asked (base + acd_hw_version))) ∷ asked in
    let (bus, e, same) = poll-NeverDone 20 a k (record w { bus = polled }) never in
    let before : last_written a polled ≡ last_written a w.bus = ground arith in
    rw (count_auto_xfer, e) (bus, refl, refl, same ∙ before)

acd_transfer-NeverDone :
    (a : ℕ) (k : Cluster) (w : World)
    → NeverDone w k
    → a < (clock k w).vbases.acd_base
    → TimesOut a w (acd_transfer k w)
unfolding acd_transfer
acd_transfer-NeverDone a k w never below =
    let (bus, e, at, same) = auto_local-NeverDone a k w never below in rw e (bus, refl, at, same)

-- The configuration succeeds, leaves the environment and the bases as they are, and writes to the
-- block alone.
pub acd_configure_lem :
    (a : ℕ) (k : Cluster) (w : World)
    → a < (clock k w).vbases.acd_base
    → let (r, w') = acd_configure k w in
      (r ≡ ok tt)
      × (w'.env ≡ w.env)
      × ((clock k w').vbases ≡ (clock k w).vbases)
      × (last_written a w'.bus ≡ last_written a w.bus)
unfolding acd_configure
acd_configure_lem a pwrcl w below = (refl, refl, refl, ground arith)
acd_configure_lem a perfcl w below = (refl, refl, refl, ground arith)

-- With the block enabled and a transfer that is never done, `clk_osm_enable` gives up with
-- -ETIMEDOUT and has not written the OSM's enable register, if that lies below the block's registers.
pub enable-NeverDone :
    (k : Cluster) (w : World)
    → (clock k w).acd_init ≡ true
    → (clock k w).vbases.osm_base + enable_reg < (clock k w).vbases.acd_base
    → NeverDone w k
    → let (r, w') = clk_osm_enable k w in
      let enable = (clock k w).vbases.osm_base + enable_reg in
      (r ≡ err etimedout) × (last_written enable w'.bus ≡ last_written enable w.bus)
unfolding clk_osm_enable clk_osm_acd_init
enable-NeverDone k w on below never =
    let enable = (clock k w).vbases.osm_base + enable_reg in
    let (done, env, bases, kept) = acd_configure_lem enable k w below in
    let (bus, e, at, same) =
      acd_transfer-NeverDone enable k (acd_configure k w).1 (rw (env, bases) never)
        (rw bases below) in
    rw (on, done, e, at) (refl, same ∙ kept)
