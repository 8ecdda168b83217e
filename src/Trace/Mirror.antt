-- ===== src/Trace/Mirror.antt =====
-- The trace files of clk-cpu-osm-660.c against their promise.
use xiaomi_pad4_ubuntu_touch.Base.{
  ℕ, length, ◌+◌, ◌≡◌, ap, true, false, not, List, [], ◌∷◌, ltb, leb, ◌==◌, u32, not32, bit_and,
  ◌<<<◌, if◌then◌else◌, arith, ◌||◌, ◌⊎◌, inl, inr, Bool-cases,
}
use xiaomi_pad4_ubuntu_touch.Osm.{
  Cluster, pwrcl, perfcl, ClkOsm, World, Access, M, ◌>>=◌, pure, clock, Result, ok, err, fault,
  continue, replaced, clk_osm_count_ns, xor_packet, periodic_packet,
}
use xiaomi_pad4_ubuntu_touch.Osm.Effect
use xiaomi_pad4_ubuntu_touch.Osm.Effect.{IsPlain, held}
use xiaomi_pad4_ubuntu_touch.Osm.Regs.{
  trace_ctrl, periodic_trace_timer_ctrl, periodic_trace_min_ns, periodic_trace_max_ns,
  periodic_trace_default_ns,
}
use xiaomi_pad4_ubuntu_touch.Trace.{
  debugfs_set_trace_enable, debugfs_set_wdog_trace, debugfs_trace_method_set,
  debugfs_set_trace_packet_id, debugfs_set_trace_periodic_timer, set_periodic, set_xor, UserBuf,
  is_text, periodic_text, xor_text,
}
use xiaomi_pad4_ubuntu_touch.Trace.Shown.{
  with_wdog, enable-Shows, id-Shows, periodic-Shows, xor-Shows, wdog-Shows,
}
use xiaomi_pad4_ubuntu_touch.Trace.Mode.{
  Mode, Request, trace_enable, wdog_trace_enable, trace_packet_id, trace_periodic_timer,
  trace_method, requested, all_requested, Shows, mode_of,
}

-- A write to a file, by the driver.
pub serve : Cluster → Request → M (Unit {0})
serve k (trace_enable val) = debugfs_set_trace_enable k val
serve k (wdog_trace_enable val) = debugfs_set_wdog_trace k val
serve k (trace_packet_id val) = debugfs_set_trace_packet_id k val
serve k (trace_periodic_timer val) = debugfs_set_trace_periodic_timer k val
serve k (trace_method buf) = debugfs_trace_method_set k buf >>= λ n. pure tt

-- The cluster's fields are in mode `m`, and its trace control register, at `a`, shows it.
pub record Mirrors (a : ℕ) (k : Cluster) (m : Mode) (w : World) : Type 0 where
  pub address : (clock k w).vbases.osm_base + trace_ctrl ≡ a
  pub plain : IsPlain w.env a
  pub fields : mode_of (clock k w) ≡ m
  pub shown : Shows m (held w.env a w.bus)

-- An update of the cluster's fields after a run on the bus.
updated :
    (a : ℕ) (k : Cluster) (m : Mode) (w : World) (bus : List Access) (c : ClkOsm)
    → c.vbases.osm_base + trace_ctrl ≡ a
    → IsPlain w.env a
    → mode_of c ≡ m
    → Shows m (held w.env a bus)
    → Mirrors a k m (record w { bus = bus; clocks = replaced k c w.clocks })
updated a pwrcl m w bus c at plain fields shown = record {
  address = at;
  plain = plain;
  fields = fields;
  shown = shown;
}
updated a perfcl m w bus c at plain fields shown = record {
  address = at;
  plain = plain;
  fields = fields;
  shown = shown;
}

module _ (a : ℕ) (k : Cluster) (m : Mode) (w : World) (h : Mirrors a k m w) where
  abbrev MirrorsAfter : Request → Type 0
  MirrorsAfter r = Mirrors a k (requested r m) (serve k r w).1

  served_enable : (val : ℕ) → MirrorsAfter (trace_enable val)
  unfolding serve debugfs_set_trace_enable
  served_enable val =
      let b = not (val == 0) in
      let (bus, ran, makes) =
        (Effect.Effect-masked_write w.env w.clocks a h.plain k (if b then 1 else 0) trace_ctrl 1
            h.address).runs
          w.bus in
      rw ran (
        updated a k (record m { enabled = b }) w bus (record (clock k w) { trace_en = b }) h.address
          h.plain (ap (λ (m : Mode). record m { enabled = b }) h.fields)
          (rw makes (enable-Shows m _ b h.shown)))

  served_wdog : (val : ℕ) → MirrorsAfter (wdog_trace_enable val)
  unfolding serve debugfs_set_wdog_trace
  served_wdog val =
      let b = not (val == 0) in
      let at = (clock k w).vbases.osm_base + trace_ctrl in
      updated a k (record m { wdog = b }) w _ (record (clock k w) { wdog_trace_en = b }) h.address
        h.plain (ap (λ (m : Mode). record m { wdog = b }) h.fields)
        (rw (Effect.held-update w.env w.clocks a h.plain at (with_wdog b) w.bus h.address)
          (wdog-Shows m _ b h.shown))

  served_id : (val : ℕ) → MirrorsAfter (trace_packet_id val)
  unfolding serve debugfs_set_trace_packet_id
  served_id val =
      let (bus, ran, makes) =
        (Effect.Effect-masked_write w.env w.clocks a h.plain k (u32 (val <<< 1)) trace_ctrl 6
            h.address).runs
          w.bus in
      elim (small_or_big val) [
        | inl (big, small) ↦
            rw (big, small, ran)
              (updated a k (record m { id = val }) w bus (record (clock k w) { trace_id = val })
                h.address h.plain (ap (λ (m : Mode). record m { id = val }) h.fields)
                (rw makes (id-Shows m _ val h.shown)))
        | inr (big, small) ↦ rw (big, small) h
      ]
    where
      small_or_big :
          (val : ℕ)
          → (ltb 3 val ≡ false) × (leb val 3 ≡ true) ⊎ (ltb 3 val ≡ true) × (leb val 3 ≡ false)
      small_or_big val = ground arith

  -- The period goes to another register.
  served_timer : (val : ℕ) → MirrorsAfter (trace_periodic_timer val)
  unfolding serve debugfs_set_trace_periodic_timer
  served_timer val =
      elim (Bool-cases (ltb val periodic_trace_min_ns || ltb periodic_trace_max_ns val)) [
        | inl out ↦ rw out h
        | inr fits ↦ rw fits (
            updated a k m w _ (record (clock k w) { trace_periodic_timer = u32 val }) h.address
              h.plain h.fields
              (rw
                (Effect.held-write_other w.env w.clocks a h.plain
                  ((clock k w).vbases.osm_base + periodic_trace_timer_ctrl)
                  (u32 (clk_osm_count_ns (clock k w) val)) w.bus (λ e. omega (arith, e, h.address)))
                h.shown))
      ]

  served_periodic : Mirrors a k (record m { method = periodic_packet }) (set_periodic k w).1
  served_periodic =
      let (bus, ran, makes) =
        (Effect.Effect-then w.env w.clocks a
            (Effect.Effect-write_other w.env w.clocks a h.plain k
              (clk_osm_count_ns (clock k w) periodic_trace_default_ns) periodic_trace_timer_ctrl
              (λ e. omega (arith, e, h.address)))
            (Effect.Effect-masked_write w.env w.clocks a h.plain k 8 trace_ctrl 8 h.address)).runs
          w.bus in
      rw ran (
        updated a k (record m { method = periodic_packet }) w bus
          (record (clock k w) {
            trace_method = periodic_packet;
            trace_periodic_timer = periodic_trace_default_ns;
          })
          h.address h.plain (ap (λ (m : Mode). record m { method = periodic_packet }) h.fields)
          (rw makes (periodic-Shows m _ h.shown)))

  served_xor : Mirrors a k (record m { method = xor_packet }) (set_xor k w).1
  served_xor =
      let at = (clock k w).vbases.osm_base + trace_ctrl in
      updated a k (record m { method = xor_packet }) w _
        (record (clock k w) { trace_method = xor_packet }) h.address h.plain
        (ap (λ (m : Mode). record m { method = xor_packet }) h.fields)
        (rw
          (Effect.held-update w.env w.clocks a h.plain at (λ v. bit_and v (not32 8)) w.bus
            h.address)
          (xor-Shows m _ h.shown))

  -- The number of bytes that a write returns is no part of the world.
  carried :
      (m' : Mode) (n : ℕ) (r : Result (Unit {0})) (w' : World)
      → Mirrors a k m' w'
      → let (s, w2) = continue (λ done. pure n) r w' in
        Mirrors a k m' (continue {A = ℕ} {B = Unit {0}} (λ n. pure tt) s w2).1
  carried m' n (ok u) w' h' = h'
  carried m' n (err e) w' h' = h'
  carried m' n fault w' h' = h'

  served_method : (buf : UserBuf) → MirrorsAfter (trace_method buf)
  unfolding serve debugfs_trace_method_set
  served_method buf = elim (Bool-cases (ltb (length buf.bytes) 15)) [
    | inr long ↦ rw long h
    | inl short ↦ elim (Bool-cases buf.readable) [
      | inr hidden ↦ rw (short, hidden) h
      | inl seen ↦ elim (Bool-cases (is_text buf periodic_text)) [
        | inl periodic ↦
            rw (short, seen, periodic)
              (carried (record m { method = periodic_packet }) (length buf.bytes)
                (set_periodic k w).0 (set_periodic k w).1 served_periodic)
        | inr other ↦ elim (Bool-cases (is_text buf xor_text)) [
          | inl xor ↦ rw (short, seen, other, xor) served_xor
          | inr neither ↦ rw (short, seen, other, neither) h
        ]
      ]
    ]
  ]

  served : (r : Request) → MirrorsAfter r
  served (trace_enable val) = served_enable val
  served (wdog_trace_enable val) = served_wdog val
  served (trace_packet_id val) = served_id val
  served (trace_periodic_timer val) = served_timer val
  served (trace_method buf) = served_method buf

-- The writes to the files, one after the other; an error of one does not keep the next away.
pub serve_all : Cluster → List Request → World → World
serve_all k [] w = w
serve_all k (r ∷ rs) w = serve_all k rs (serve k r w).1

-- Whatever is written to the trace files, in whatever order: if the driver's fields and the trace
-- control register show a mode before, they show after it the mode that the writes ask for. The
-- register holds what is written to it.
pub serve_all-Mirrors :
    (a : ℕ) (k : Cluster) (rs : List Request) (m : Mode) (w : World)
    → Mirrors a k m w
    → Mirrors a k (all_requested rs m) (serve_all k rs w)
unfolding serve_all
serve_all-Mirrors a k [] m w h = h
serve_all-Mirrors a k (r ∷ rs) m w h =
    serve_all-Mirrors a k rs (requested r m) (serve k r w).1 (served a k m w h r)
