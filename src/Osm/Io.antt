-- ===== src/Osm/Io.antt =====
-- How the driver reaches its state and its hardware: a state monad with errors, and the register
-- helpers of clk-cpu-osm-660.c. `err e` is a return of `-e`; `fault` is what C leaves undefined, an
-- access outside an array or a division by zero.
use xiaomi_pad4_ubuntu_touch.Base.{
  ℕ, zero, suc, ◌+◌, ◌-◌, ◌/◌, ◌*◌, ◌^◌, ◌≡◌, refl, Bool, true, false, not, List, ◌∷◌, Option, none,
  some, u32, u64, not32, bit_and, bit_or, ◌==◌, if◌then◌else◌, get_elem?,
}
use xiaomi_pad4_ubuntu_touch.Osm.State.{
  Cluster, pwrcl, perfcl, ClkOsm, Access, read_reg, write_reg, scm_write, wait_ns, World, Alloc,
}
use xiaomi_pad4_ubuntu_touch.Osm.Regs.{version_reg}

pub data Result {ℓ} (A : Type ℓ) : Type ℓ where
  ok : A → Result A
  err : ℕ → Result A
  fault : Result A

abbrev pub einval : ℕ
einval = 22

abbrev pub enomem : ℕ
enomem = 12

abbrev pub enxio : ℕ
enxio = 6

abbrev pub etimedout : ℕ
etimedout = 110

-- `-e` as an `int`, in its 32-bit pattern.
abbrev pub neg_errno : ℕ → ℕ
neg_errno e = u32 (2 ^ 32 - e)

abbrev pub M : Type 0 → Type 0
M A = World → Result A × World

abbrev pub pure : {A : Type 0} → A → M A
pure a w = (ok a, w)

abbrev pub fail : {A : Type 0} → ℕ → M A
fail e w = (err e, w)

abbrev pub crash : {A : Type 0} → M A
crash w = (fault, w)

-- The rest of a block after a call that returned: it runs only on `ok`.
abbrev pub continue : {A B : Type 0} → (A → M B) → Result A → World → Result B × World
continue f (ok a) w = f a w
continue f (err e) w = (err e, w)
continue f fault w = (fault, w)

infixl 5 ◌>>=◌ ◌>>◌
abbrev pub ◌>>=◌ : {A B : Type 0} → M A → (A → M B) → M B
◌>>=◌ m f w = let (r, w') = m w in continue f r w'

abbrev pub ◌>>◌ : {A : Type 0} → M (Unit {0}) → M A → M A
first >> rest = first >>= λ done. rest

-- A return code that the caller looks at: an error does not end the caller, a fault does.
abbrev pub caught : {A : Type 0} → Result A → Result (Result A)
caught (ok a) = ok (ok a)
caught (err e) = ok (err e)
caught fault = fault

abbrev pub attempt : {A : Type 0} → M A → M (Result A)
attempt m w = let (r, w') = m w in (caught r, w')

-- `if (b) m;`
abbrev pub when : Bool → M (Unit {0}) → M (Unit {0})
when true m = m
when false m = pure tt

-- Reads an array; `fault` outside of it.
abbrev pub at_or_crash : {A : Type 0} → Option A → M A
at_or_crash none = crash
at_or_crash (some a) = pure a

abbrev pub index : {A : Type 0} → List A → ℕ → M A
index xs i = at_or_crash (get_elem? xs i)

-- for (k = i; k < i + n; k++) body(k);
unfoldable pub for_range : ℕ → ℕ → (ℕ → M (Unit {0})) → M (Unit {0})
for_range zero i body = pure tt
for_range (suc n) i body = body i >> for_range n (i + 1) body

-- The static clock behind a `struct clk_osm *`.
abbrev pub clock : Cluster → World → ClkOsm
clock k w = w.clocks k

abbrev pub get : Cluster → M ClkOsm
get k w = (ok (clock k w), w)

-- The two clocks with one of them replaced.
abbrev pub replaced : Cluster → ClkOsm → (Cluster → ClkOsm) → Cluster → ClkOsm
replaced pwrcl c clocks pwrcl = c
replaced pwrcl c clocks perfcl = clocks perfcl
replaced perfcl c clocks pwrcl = clocks pwrcl
replaced perfcl c clocks perfcl = c

pub replaced_self :
    (k : Cluster) (c : ClkOsm) (clocks : Cluster → ClkOsm) → replaced k c clocks k ≡ c
replaced_self pwrcl c clocks = refl
replaced_self perfcl c clocks = refl

abbrev pub put : Cluster → ClkOsm → M (Unit {0})
put k c w = (ok tt, record w { clocks = replaced k c w.clocks })

abbrev pub modify : Cluster → (ClkOsm → ClkOsm) → M (Unit {0})
modify k f w = put k (f (clock k w)) w

abbrev pub log : Access → M (Unit {0})
log a w = (ok tt, record w { bus = a ∷ w.bus })

-- readl_relaxed: the device answers with a u32.
abbrev pub readl : ℕ → M ℕ
readl a w = let v = u32 (w.env.device w.bus a) in (ok v, record w { bus = read_reg a v ∷ w.bus })

-- writel_relaxed: 32 bits go out.
abbrev pub writel : ℕ → ℕ → M (Unit {0})
writel v a = log (write_reg a (u32 v))

-- scm_io_write(addr, val)
abbrev pub scm_io_write : ℕ → ℕ → M (Unit {0})
scm_io_write a v = log (scm_write a (u32 v))

-- udelay, ndelay, usleep_range (its lower bound)
abbrev pub ndelay : ℕ → M (Unit {0})
ndelay n = log (wait_ns n)

abbrev pub udelay : ℕ → M (Unit {0})
udelay n = ndelay (n * 1000)

abbrev pub allocate : Alloc → M (Unit {0})
allocate a w = if w.env.alloc a then (ok tt, w) else (err enomem, w)

abbrev pub clk_osm_write_reg : Cluster → ℕ → ℕ → M (Unit {0})
clk_osm_write_reg k val offset w = writel val ((clock k w).vbases.osm_base + offset) w

abbrev pub clk_osm_read_reg : Cluster → ℕ → M ℕ
clk_osm_read_reg k offset w = readl ((clock k w).vbases.osm_base + offset) w

abbrev pub clk_osm_masked_write_reg : Cluster → ℕ → ℕ → ℕ → M (Unit {0})
clk_osm_masked_write_reg k val offset mask = do
  orig_val ← clk_osm_read_reg k offset
  let val2 = bit_or (bit_and orig_val (not32 mask)) (bit_and val mask)
  when (not (val2 == orig_val)) (clk_osm_write_reg k val2 offset)

-- clk_osm_mb(c, OSM_BASE) and clk_osm_mb(c, PLL_BASE): a read that waits for the writes before it.
abbrev pub clk_osm_mb : Cluster → M (Unit {0})
clk_osm_mb k w = (readl ((clock k w).vbases.osm_base + version_reg) >>= λ _. pure tt) w

abbrev pub clk_osm_mb_pll : Cluster → M (Unit {0})
clk_osm_mb_pll k w = (readl ((clock k w).vbases.pll_base + version_reg) >>= λ _. pure tt) w

-- (u64)osm_clk_rate * nsec / 1000000000, returned as an `int`.
abbrev pub clk_osm_count_ns : ClkOsm → ℕ → ℕ
clk_osm_count_ns c nsec = u32 (u64 (c.osm_clk_rate * nsec) / 1000000000)
