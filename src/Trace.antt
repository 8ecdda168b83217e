-- ===== src/Trace.antt =====
-- The debug files of clk-cpu-osm-660.c: tracing, the performance state interrupts, and the access
-- to the registers of the clock distribution block.
pub mod Mode
pub mod Shown
pub mod Mirror
use Prim.Native.String.{String}
use xiaomi_pad4_ubuntu_touch.Base.{
  ℕ, Bool, true, false, not, ◌&&◌, ◌||◌, List, [], ◌∷◌, length, bit_and, bit_or, not32, u32,
  sign_extend, ltb, leb, ◌==◌, ◌<<<◌, if◌then◌else◌,
}
use xiaomi_pad4_ubuntu_touch.Osm.{
  Cluster, TraceMethod, xor_packet, periodic_packet, Result, ok, err, fault, M, ◌>>=◌, ◌>>◌, pure,
  fail, crash, attempt, when, get, modify, clk_osm_write_reg, clk_osm_read_reg,
  clk_osm_masked_write_reg, clk_osm_count_ns, einval, neg_errno,
}
use xiaomi_pad4_ubuntu_touch.Osm.Regs.{
  trace_ctrl, trace_ctrl_en_mask, trace_ctrl_enable, trace_ctrl_disable,
  trace_ctrl_enable_wdog_status, trace_ctrl_packet_type_mask, trace_ctrl_packet_type_shift,
  trace_ctrl_periodic_trace_en_mask, trace_ctrl_periodic_trace_enable, periodic_trace_timer_ctrl,
  periodic_trace_min_ns, periodic_trace_max_ns, periodic_trace_default_ns,
  dcvs_perf_state_met_intr_en, dcvs_perf_state_deviation_intr_en,
  dcvs_perf_state_deviation_corrected_intr_en, acd_master_only_reg_addr,
}
use xiaomi_pad4_ubuntu_touch.Acd.{
  acd_read, clk_osm_acd_local_read_reg, clk_osm_acd_master_write_reg,
  clk_osm_acd_master_write_through_reg,
}

-- A u64 as a C condition.
abbrev pub is_set : ℕ → Bool
is_set val = not (val == 0)

abbrev pub bool_value : Bool → ℕ
bool_value b = if b then 1 else 0

pub debugfs_get_trace_enable : Cluster → M ℕ
debugfs_get_trace_enable k = do c ← get k; pure (bool_value c.trace_en)

pub debugfs_set_trace_enable : Cluster → ℕ → M (Unit {0})
debugfs_set_trace_enable k val = do
  clk_osm_masked_write_reg k (if is_set val then trace_ctrl_enable else trace_ctrl_disable)
      trace_ctrl trace_ctrl_en_mask
  modify k λ c. record c { trace_en = is_set val }

pub debugfs_get_wdog_trace : Cluster → M ℕ
debugfs_get_wdog_trace k = do c ← get k; pure (bool_value c.wdog_trace_en)

pub debugfs_set_wdog_trace : Cluster → ℕ → M (Unit {0})
debugfs_set_wdog_trace k val = do
  regval ← clk_osm_read_reg k trace_ctrl
  clk_osm_write_reg k
      (if is_set val
        then bit_or regval trace_ctrl_enable_wdog_status
        else bit_and regval (not32 trace_ctrl_enable_wdog_status))
      trace_ctrl
  modify k λ c. record c { wdog_trace_en = is_set val }

abbrev pub set_periodic : Cluster → M (Unit {0})
set_periodic k = do
  c ← get k
  clk_osm_write_reg k (clk_osm_count_ns c periodic_trace_default_ns) periodic_trace_timer_ctrl
  clk_osm_masked_write_reg k trace_ctrl_periodic_trace_enable trace_ctrl
      trace_ctrl_periodic_trace_en_mask
  modify k λ c. record c {
    trace_method = periodic_packet;
    trace_periodic_timer = periodic_trace_default_ns;
  }

abbrev pub set_xor : Cluster → M (Unit {0})
set_xor k = do
  val ← clk_osm_read_reg k trace_ctrl
  clk_osm_write_reg k (bit_and val (not32 trace_ctrl_periodic_trace_enable)) trace_ctrl
  modify k λ c. record c { trace_method = xor_packet }

abbrev pub max_debug_buf_len : ℕ
max_debug_buf_len = 15

-- What `copy_from_user` finds: the `count` bytes that are written, if they can be read.
pub record UserBuf : Type 0 where
  pub bytes : List ℕ
  pub readable : Bool

-- The bytes of a C string: those before the first zero byte.
abbrev pub c_string : List ℕ → List ℕ
c_string [] = []
c_string (x ∷ xs) = if x == 0 then [] else x ∷ c_string xs

abbrev pub strcmp_equal : List ℕ → List ℕ → Bool
strcmp_equal [] [] = true
strcmp_equal [] (y ∷ ys) = false
strcmp_equal (x ∷ xs) [] = false
strcmp_equal (x ∷ xs) (y ∷ ys) = x == y && strcmp_equal xs ys

-- "periodic\n" and "xor\n"
abbrev pub periodic_text : List ℕ
periodic_text = 112 ∷ 101 ∷ 114 ∷ 105 ∷ 111 ∷ 100 ∷ 105 ∷ 99 ∷ 10 ∷ []

abbrev pub xor_text : List ℕ
xor_text = 120 ∷ 111 ∷ 114 ∷ 10 ∷ []

abbrev pub is_text : UserBuf → List ℕ → Bool
is_text buf text = strcmp_equal (c_string buf.bytes) text

abbrev pub efault : ℕ
efault = 14

-- A write of `buf`, past the checks of the file handle; the number of its bytes is returned.
pub debugfs_trace_method_set : Cluster → UserBuf → M ℕ
debugfs_trace_method_set k buf =
    let count = length buf.bytes in
    if ltb count max_debug_buf_len
    then (if not buf.readable
        then fail efault
        else if is_text buf periodic_text
        then (set_periodic k >> pure count)
        else if is_text buf xor_text
        then (set_xor k >> pure count)
        else fail einval)
    else fail einval

-- The text of the method that is read back.
pub debugfs_trace_method_get : Cluster → M String
debugfs_trace_method_get k = do c ← get k; pure (text c.trace_method)
  where
    text : TraceMethod → String
    text periodic_packet = "periodic\n"
    text xor_packet = "xor\n"

pub debugfs_get_trace_packet_id : Cluster → M ℕ
debugfs_get_trace_packet_id k = do c ← get k; pure c.trace_id

-- TRACE_PACKET0 is 0 and TRACE_PACKET3 is 3.
pub debugfs_set_trace_packet_id : Cluster → ℕ → M (Unit {0})
debugfs_set_trace_packet_id k val = if ltb 3 val then pure tt else (do
  clk_osm_masked_write_reg k (u32 (val <<< trace_ctrl_packet_type_shift)) trace_ctrl
      trace_ctrl_packet_type_mask
  modify k λ c. record c { trace_id = val })

pub debugfs_get_trace_periodic_timer : Cluster → M ℕ
debugfs_get_trace_periodic_timer k = do c ← get k; pure c.trace_periodic_timer

pub debugfs_set_trace_periodic_timer : Cluster → ℕ → M (Unit {0})
debugfs_set_trace_periodic_timer k val =
    if ltb val periodic_trace_min_ns || ltb periodic_trace_max_ns val then pure tt else (do
      c ← get k
      clk_osm_write_reg k (clk_osm_count_ns c val) periodic_trace_timer_ctrl
      modify k λ c. record c { trace_periodic_timer = u32 val })

-- The three interrupt enables: `val ? 1 : 0`, and what is read back.
abbrev pub set_irq_enable : Cluster → ℕ → ℕ → M (Unit {0})
set_irq_enable k reg val = clk_osm_write_reg k (if is_set val then 1 else 0) reg

abbrev pub get_irq_enable : Cluster → ℕ → M ℕ
get_irq_enable k reg = clk_osm_read_reg k reg >>= λ v. pure (sign_extend v)

pub debugfs_set_perf_state_met_irq : Cluster → ℕ → M (Unit {0})
debugfs_set_perf_state_met_irq k val = set_irq_enable k dcvs_perf_state_met_intr_en val

pub debugfs_get_perf_state_met_irq : Cluster → M ℕ
debugfs_get_perf_state_met_irq k = get_irq_enable k dcvs_perf_state_met_intr_en

pub debugfs_set_perf_state_deviation_irq : Cluster → ℕ → M (Unit {0})
debugfs_set_perf_state_deviation_irq k val = set_irq_enable k dcvs_perf_state_deviation_intr_en val

pub debugfs_get_perf_state_deviation_irq : Cluster → M ℕ
debugfs_get_perf_state_deviation_irq k = get_irq_enable k dcvs_perf_state_deviation_intr_en

pub debugfs_set_perf_state_deviation_corrected_irq : Cluster → ℕ → M (Unit {0})
debugfs_set_perf_state_deviation_corrected_irq k val =
    set_irq_enable k dcvs_perf_state_deviation_corrected_intr_en val

pub debugfs_get_perf_state_deviation_corrected_irq : Cluster → M ℕ
debugfs_get_perf_state_deviation_corrected_irq k =
    get_irq_enable k dcvs_perf_state_deviation_corrected_intr_en

-- The value of a return code that is stored without a look at its sign.
abbrev pub int_result : Result ℕ → M ℕ
int_result (ok v) = pure (sign_extend v)
int_result (err e) = pure (sign_extend (neg_errno e))
int_result fault = crash

pub debugfs_get_debug_reg : Cluster → M ℕ
debugfs_get_debug_reg k = do
  c ← get k
  when (c.pbases.acd_base == 0) (fail einval)
  if leb acd_master_only_reg_addr c.acd_debugfs_addr
      then acd_read k c.acd_debugfs_addr
      else (attempt (clk_osm_acd_local_read_reg k c.acd_debugfs_addr) >>= int_result)

-- The return code of the local write is not looked at.
abbrev pub ignore : Result (Unit {0}) → M (Unit {0})
ignore (ok u) = pure tt
ignore (err e) = pure tt
ignore fault = crash

pub debugfs_set_debug_reg : Cluster → ℕ → M (Unit {0})
debugfs_set_debug_reg k val = do
  c ← get k
  when (c.pbases.acd_base == 0) (fail einval)
  if leb acd_master_only_reg_addr c.acd_debugfs_addr
      then clk_osm_acd_master_write_reg k val c.acd_debugfs_addr
      else (attempt (clk_osm_acd_master_write_through_reg k (u32 val) c.acd_debugfs_addr)
          >>= ignore)

pub debugfs_set_debug_reg_addr : Cluster → ℕ → M (Unit {0})
debugfs_set_debug_reg_addr k val = do
  c ← get k
  when (c.pbases.acd_base == 0) (fail einval)
  when (leb c.acd_debugfs_addr_size val) (fail einval)
  modify k λ c. record c { acd_debugfs_addr = u32 val }

pub debugfs_get_debug_reg_addr : Cluster → M ℕ
debugfs_get_debug_reg_addr k = do
  c ← get k
  when (c.pbases.acd_base == 0) (fail einval)
  pure c.acd_debugfs_addr
