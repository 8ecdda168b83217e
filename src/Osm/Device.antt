-- ===== src/Osm/Device.antt =====
-- What the hardware manual says of a register, as a property of the device that the driver runs
-- on: a plain register holds the value that was last written to it.
use xiaomi_pad4_ubuntu_touch.Base.{
  ℕ, ◌≡◌, refl, List, [], ◌∷◌, Option, none, some, ◌==◌, if◌then◌else◌,
}
use xiaomi_pad4_ubuntu_touch.Osm.State.{
  Access, read_reg, write_reg, scm_write, wait_ns, call, World,
}

-- The value that was last written to an address; the accesses stand newest first.
abbrev pub last_written : ℕ → List Access → Option ℕ
last_written a [] = none
last_written a (write_reg b v ∷ rest) = if a == b then some v else last_written a rest
last_written a (read_reg b v ∷ rest) = last_written a rest
last_written a (scm_write b v ∷ rest) = last_written a rest
last_written a (wait_ns n ∷ rest) = last_written a rest
last_written a (call c ∷ rest) = last_written a rest

-- The register at `a` holds what was last written to it.
abbrev pub Holds : World → ℕ → Type 0
Holds w a = (h : List Access) (v : ℕ) → last_written a h ≡ some v → w.env.device h a ≡ v

-- A device whose registers all hold what was written, and are `init` before.
unfoldable pub memory : (ℕ → ℕ) → List Access → ℕ → ℕ
memory init h a = or_init (last_written a h)
  where
    or_init : Option ℕ → ℕ
    or_init none = init a
    or_init (some v) = v

pub memory_lem :
    (init : ℕ → ℕ) (h : List Access) (a v : ℕ) → last_written a h ≡ some v → memory init h a ≡ v
unfolding memory
memory_lem init h a v e = rw e refl
