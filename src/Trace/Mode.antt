-- ===== src/Trace/Mode.antt =====
-- What the trace files of clk-cpu-osm-660.c promise: a trace mode that each write to a file
-- changes, and the bits of the trace control register that show it.
use xiaomi_pad4_ubuntu_touch.Base.{
  ℕ, ◌≡◌, Bool, true, false, not, length, List, [], ◌∷◌, ltb, leb, ◌==◌, ◌&&◌, if◌then◌else◌,
}
use xiaomi_pad4_ubuntu_touch.Base.Bits.{digit}
use xiaomi_pad4_ubuntu_touch.Osm.{TraceMethod, xor_packet, periodic_packet, ClkOsm}
use xiaomi_pad4_ubuntu_touch.Trace.{UserBuf, is_text, periodic_text, xor_text}

pub record Mode : Type 0 where
  pub enabled : Bool
  pub wdog : Bool
  pub method : TraceMethod
  pub id : ℕ

-- A write to one of the five files.
pub data Request : Type 0 where
  trace_enable wdog_trace_enable trace_packet_id trace_periodic_timer : ℕ → Request
  trace_method : UserBuf → Request

-- The written bytes, up to the first zero byte, are the text; they are fewer than 15 and readable.
abbrev pub takes : UserBuf → List ℕ → Bool
takes buf text = ltb (length buf.bytes) 15 && buf.readable && is_text buf text

-- The mode after a write: a packet id above 3, and a method that is not one of the two or has 15
-- bytes or more or cannot be read, change nothing.
abbrev pub requested : Request → Mode → Mode
requested (trace_enable val) m = record m { enabled = not (val == 0) }
requested (wdog_trace_enable val) m = record m { wdog = not (val == 0) }
requested (trace_packet_id val) m = if leb val 3 then (record m { id = val }) else m
requested (trace_periodic_timer val) m = m
requested (trace_method buf) m =
    if takes buf periodic_text
    then (record m { method = periodic_packet })
    else if takes buf xor_text
    then (record m { method = xor_packet })
    else m

abbrev pub all_requested : List Request → Mode → Mode
all_requested [] m = m
all_requested (r ∷ rs) m = all_requested rs (requested r m)

abbrev pub bit : Bool → ℕ
bit true = 1
bit false = 0

abbrev pub periodic_bit : TraceMethod → ℕ
periodic_bit periodic_packet = 1
periodic_bit xor_packet = 0

-- The trace control register shows the mode: bit 0 the enable, bits 1 and 2 the packet id, bit 3
-- the method, bit 30 the watchdog status.
pub record Shows (m : Mode) (v : ℕ) : Type 0 where
  pub enable_shown : digit v 0 ≡ bit m.enabled
  pub id_low_shown : digit v 1 ≡ digit m.id 0
  pub id_high_shown : digit v 2 ≡ digit m.id 1
  pub method_shown : digit v 3 ≡ periodic_bit m.method
  pub wdog_shown : digit v 30 ≡ bit m.wdog

-- The mode in the driver's own fields.
abbrev pub mode_of : ClkOsm → Mode
mode_of c = record {
  enabled = c.trace_en;
  wdog = c.wdog_trace_en;
  method = c.trace_method;
  id = c.trace_id;
}
