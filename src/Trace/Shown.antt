-- ===== src/Trace/Shown.antt =====
-- What each write to the trace control register shows.
use xiaomi_pad4_ubuntu_touch.Base.{
  ℕ, ◌≡◌, refl, ◌∙◌, Bool, true, false, u32, not32, bit_and, bit_or, ◌<<<◌, if◌then◌else◌, arith,
}
use xiaomi_pad4_ubuntu_touch.Base.Bits.{digit}
use xiaomi_pad4_ubuntu_touch.Base.Bits.Digits.{digit-masked, digit-set_bit, digit-clear_bit}
use xiaomi_pad4_ubuntu_touch.Osm.{xor_packet, periodic_packet}
use xiaomi_pad4_ubuntu_touch.Trace.Mode.{Mode, bit, Shows}

abbrev pub masked : ℕ → ℕ → ℕ → ℕ
masked v val mask = u32 (bit_or (bit_and v (not32 mask)) (bit_and val mask))

digit-enable : (b : Bool) → digit (if b then 1 else 0) 0 ≡ bit b
digit-enable true = refl
digit-enable false = refl

pub enable-Shows :
    (m : Mode) (v : ℕ) (b : Bool)
    → Shows m v
    → Shows (record m { enabled = b }) (masked v (if b then 1 else 0) 1)
enable-Shows m v b s =
    let val : ℕ = if b then 1 else 0 in
    record {
      enable_shown = digit-masked v val 1 0 (omega arith) (omega arith) ∙ digit-enable b;
      id_low_shown = digit-masked v val 1 1 (omega arith) (omega arith) ∙ s.id_low_shown;
      id_high_shown = digit-masked v val 1 2 (omega arith) (omega arith) ∙ s.id_high_shown;
      method_shown = digit-masked v val 1 3 (omega arith) (omega arith) ∙ s.method_shown;
      wdog_shown = digit-masked v val 1 30 (omega arith) (omega arith) ∙ s.wdog_shown;
    }

pub id-Shows :
    (m : Mode) (v id : ℕ) → Shows m v → Shows (record m { id = id }) (masked v (u32 (id <<< 1)) 6)
id-Shows m v id s =
    let val = u32 (id <<< 1) in
    record {
      enable_shown = digit-masked v val 6 0 (omega arith) (omega arith) ∙ s.enable_shown;
      id_low_shown = digit-masked v val 6 1 (omega arith) (omega arith) ∙ low id;
      id_high_shown = digit-masked v val 6 2 (omega arith) (omega arith) ∙ high id;
      method_shown = digit-masked v val 6 3 (omega arith) (omega arith) ∙ s.method_shown;
      wdog_shown = digit-masked v val 6 30 (omega arith) (omega arith) ∙ s.wdog_shown;
    }
  where
    low : (id : ℕ) → digit (u32 (id <<< 1)) 1 ≡ digit id 0
    low id = omega arith

    high : (id : ℕ) → digit (u32 (id <<< 1)) 2 ≡ digit id 1
    high id = omega arith

pub periodic-Shows :
    (m : Mode) (v : ℕ) → Shows m v → Shows (record m { method = periodic_packet }) (masked v 8 8)
periodic-Shows m v s = record {
  enable_shown = digit-masked v 8 8 0 (omega arith) (omega arith) ∙ s.enable_shown;
  id_low_shown = digit-masked v 8 8 1 (omega arith) (omega arith) ∙ s.id_low_shown;
  id_high_shown = digit-masked v 8 8 2 (omega arith) (omega arith) ∙ s.id_high_shown;
  method_shown = digit-masked v 8 8 3 (omega arith) (omega arith);
  wdog_shown = digit-masked v 8 8 30 (omega arith) (omega arith) ∙ s.wdog_shown;
}

pub xor-Shows :
    (m : Mode) (v : ℕ)
    → Shows m v
    → Shows (record m { method = xor_packet }) (u32 (bit_and v (not32 8)))
xor-Shows m v s = record {
  enable_shown = digit-clear_bit 3 0 v (omega arith) (omega arith) ∙ s.enable_shown;
  id_low_shown = digit-clear_bit 3 1 v (omega arith) (omega arith) ∙ s.id_low_shown;
  id_high_shown = digit-clear_bit 3 2 v (omega arith) (omega arith) ∙ s.id_high_shown;
  method_shown = digit-clear_bit 3 3 v (omega arith) (omega arith);
  wdog_shown = digit-clear_bit 3 30 v (omega arith) (omega arith) ∙ s.wdog_shown;
}

abbrev pub with_wdog : Bool → ℕ → ℕ
with_wdog b v = if b then bit_or v 0x40000000 else bit_and v (not32 0x40000000)

pub wdog-Shows :
    (m : Mode) (v : ℕ) (b : Bool) → Shows m v → Shows (record m { wdog = b }) (u32 (with_wdog b v))
wdog-Shows m v true s = record {
  enable_shown = digit-set_bit 30 0 v (omega arith) ∙ s.enable_shown;
  id_low_shown = digit-set_bit 30 1 v (omega arith) ∙ s.id_low_shown;
  id_high_shown = digit-set_bit 30 2 v (omega arith) ∙ s.id_high_shown;
  method_shown = digit-set_bit 30 3 v (omega arith) ∙ s.method_shown;
  wdog_shown = digit-set_bit 30 30 v (omega arith);
}
wdog-Shows m v false s = record {
  enable_shown = digit-clear_bit 30 0 v (omega arith) (omega arith) ∙ s.enable_shown;
  id_low_shown = digit-clear_bit 30 1 v (omega arith) (omega arith) ∙ s.id_low_shown;
  id_high_shown = digit-clear_bit 30 2 v (omega arith) (omega arith) ∙ s.id_high_shown;
  method_shown = digit-clear_bit 30 3 v (omega arith) (omega arith) ∙ s.method_shown;
  wdog_shown = digit-clear_bit 30 30 v (omega arith) (omega arith);
}
