-- ===== src/HwTable/Volt.antt =====
-- The two fields of a row's volt register.
use xiaomi_pad4_ubuntu_touch.Base.{
  ℕ, ◌+◌, ◌*◌, ◌/◌, ◌%◌, ◌^◌, ◌≡◌, ap, ◌∙◌, arith, bit_or, bval, u32, ◌<<<◌,
}
use xiaomi_pad4_ubuntu_touch.Base.Bits.{bit_or-disjoint}
use xiaomi_pad4_ubuntu_touch.Base.Bits.Fields.{bit_and_field, bit_and-ones}
use xiaomi_pad4_ubuntu_touch.Osm.{OsmEntry}
use xiaomi_pad4_ubuntu_touch.HwTable.{volt_of}

corner_field : (vc : ℕ) → bval 21 16 vc ≡ vc % 2 ^ 6 * 2 ^ 16
corner_field vc = bit_and_field 6 16 (u32 (vc <<< 16)) ∙ ap (λ f. f * 2 ^ 16) (low vc)
  where
    low : (vc : ℕ) → u32 (vc <<< 16) / 2 ^ 16 % 2 ^ 6 ≡ vc % 2 ^ 6
    low vc = omega arith

volt_field : (volt : ℕ) → bval 11 0 volt ≡ volt % 2 ^ 12
volt_field volt = bit_and-ones 12 (u32 (volt <<< 0)) ∙ low volt
  where
    low : (volt : ℕ) → u32 (volt <<< 0) % 2 ^ 12 ≡ volt % 2 ^ 12
    low volt = omega arith

-- The value of a row's volt register: the corner stands from bit 16 on and the voltage below it; the
-- corner's low 6 bits and the voltage's low 12 are sent.
pub volt_of-fields :
    (e : OsmEntry)
    → (volt_of e / 2 ^ 16 ≡ e.virtual_corner % 2 ^ 6)
      × (volt_of e % 2 ^ 16 ≡ e.open_loop_volt % 2 ^ 12)
volt_of-fields e =
    let sum : volt_of e ≡ e.virtual_corner % 2 ^ 6 * 2 ^ 16 + e.open_loop_volt % 2 ^ 12 =
      ap (λ v. bit_or v (bval 11 0 e.open_loop_volt)) (corner_field e.virtual_corner)
      ∙ ap (bit_or (e.virtual_corner % 2 ^ 6 * 2 ^ 16)) (volt_field e.open_loop_volt)
      ∙ bit_or-disjoint 16 (e.virtual_corner % 2 ^ 6) (e.open_loop_volt % 2 ^ 12) (omega arith) in
    (omega (arith, sum), omega (arith, sum))
