-- ===== src/Registration/CpuMap.antt =====
-- The static array `cpu_clk_map` of `logical_cpu_to_clk` of clk-cpu-osm-660.c, which keeps the clocks
-- that were found: the lookup with it, from call to call, against the one in the device tree alone.
use xiaomi_pad4_ubuntu_touch.Base.{
  ℕ, ◌≡◌, refl, sym, ◌∙◌, List, [], ◌∷◌, Option, ◌==◌, if◌then◌else◌, inl, inr, Bool-cases, arith,
}
use xiaomi_pad4_ubuntu_touch.Osm.{Cluster}
use xiaomi_pad4_ubuntu_touch.Cycle.{Owner, owned_by, no_clock}
use xiaomi_pad4_ubuntu_touch.Registration.{owner_of}

-- The clock of each CPU, where one was found; NULL is `no_clock`.
abbrev pub CpuClkMap : Type 0
CpuClkMap = ℕ → Owner

-- All of the array is NULL at first.
abbrev pub no_clocks : CpuClkMap
no_clocks cpu = no_clock

abbrev pub with_owner : ℕ → Owner → CpuClkMap → CpuClkMap
with_owner cpu owner clks c = if c == cpu then owner else clks c

-- A clock that was found in the device tree is kept; NULL is not.
abbrev pub keep_owner : ℕ → Owner → CpuClkMap → Owner × CpuClkMap
keep_owner cpu no_clock clks = (no_clock, clks)
keep_owner cpu (owned_by k) clks = (owned_by k, with_owner cpu (owned_by k) clks)

abbrev pub from_entry : (ℕ → Option ℕ) → ℕ → Owner → CpuClkMap → Owner × CpuClkMap
from_entry hwid cpu (owned_by k) clks = (owned_by k, clks)
from_entry hwid cpu no_clock clks = keep_owner cpu (owner_of (hwid cpu)) clks

-- One call, with the device tree's hardware id of each CPU.
pub look_up_cpu : (ℕ → Option ℕ) → ℕ → CpuClkMap → Owner × CpuClkMap
look_up_cpu hwid cpu clks = from_entry hwid cpu (clks cpu) clks

-- The clocks that the calls return, one after the other.
pub look_up_cpus : (ℕ → Option ℕ) → List ℕ → CpuClkMap → List Owner
look_up_cpus hwid [] clks = []
look_up_cpus hwid (cpu ∷ cpus) clks =
    let (owner, later) = look_up_cpu hwid cpu clks in owner ∷ look_up_cpus hwid cpus later

abbrev pub owners_of : (ℕ → Option ℕ) → List ℕ → List Owner
owners_of hwid [] = []
owners_of hwid (cpu ∷ cpus) = owner_of (hwid cpu) ∷ owners_of hwid cpus

module _ (hwid : ℕ → Option ℕ) where
  -- What the array has for a CPU is what the device tree gives.
  record Agrees (clks : CpuClkMap) : Type 0 where
    pub agrees : (cpu : ℕ) (k : Cluster) → clks cpu ≡ owned_by k → owner_of (hwid cpu) ≡ owned_by k

  keep_owner-Agrees :
      (cpu : ℕ) (owner : Owner) (clks : CpuClkMap)
      → owner_of (hwid cpu) ≡ owner
      → Agrees clks
      → let (found, later) = keep_owner cpu owner clks in (found ≡ owner) × Agrees later
  keep_owner-Agrees cpu no_clock clks at h = (refl, h)
  keep_owner-Agrees cpu (owned_by k) clks at h = (
    refl,
    record {
      agrees = λ c k' e. elim (Bool-cases (c == cpu)) [
        | inl same ↦
            let here : c ≡ cpu = ground arith in
            let found : owned_by k ≡ owned_by k' = rw same at e in rw here (at ∙ found)
        | inr other ↦ h.agrees c k' (rw other at e)
      ];
    },
  )

  look_up_cpu-Agrees :
      (cpu : ℕ) (entry : Owner) (clks : CpuClkMap)
      → clks cpu ≡ entry
      → Agrees clks
      → let (found, later) = from_entry hwid cpu entry clks in
        (found ≡ owner_of (hwid cpu)) × Agrees later
  look_up_cpu-Agrees cpu (owned_by k) clks at h = (sym (h.agrees cpu k at), h)
  look_up_cpu-Agrees cpu no_clock clks at h =
      keep_owner-Agrees cpu (owner_of (hwid cpu)) clks refl h

  look_up_cpus-Agrees :
      (cpus : List ℕ) (clks : CpuClkMap)
      → Agrees clks
      → look_up_cpus hwid cpus clks ≡ owners_of hwid cpus
  unfolding look_up_cpus look_up_cpu
  look_up_cpus-Agrees [] clks h = refl
  look_up_cpus-Agrees (cpu ∷ cpus) clks h =
      let (same, later) = look_up_cpu-Agrees cpu (clks cpu) clks refl h in
      rw (same, look_up_cpus-Agrees cpus _ later) refl

-- Whatever CPUs are looked up, in whatever order and how often, the clocks that are returned are
-- those of the device tree: what was kept from earlier calls never gives another one.
pub look_up_cpus-owners_of :
    (hwid : ℕ → Option ℕ) (cpus : List ℕ) → look_up_cpus hwid cpus no_clocks ≡ owners_of hwid cpus
look_up_cpus-owners_of hwid cpus =
    look_up_cpus-Agrees hwid cpus no_clocks (record { agrees = λ cpu k e. cc e })
