-- ===== src/Osm/Effect.antt =====
-- Runs that only the bus shows, and what they make of one plain register: one that holds what is
-- written to it and that nothing else changes.
use xiaomi_pad4_ubuntu_touch.Base.{
  ℕ, ◌+◌, ◌≡◌, ◌≢◌, refl, sym, ap, ◌∙◌, Bool, true, false, List, ◌∷◌, bit_and, bit_or, u32, not32,
  ◌==◌, if◌then◌else◌, arith, inl, inr, Bool-cases, ==_iff,
}
use xiaomi_pad4_ubuntu_touch.Osm.State.{
  Cluster, ClkOsm, Access, read_reg, write_reg, scm_write, wait_ns, call, Env, World,
}
use xiaomi_pad4_ubuntu_touch.Osm.Io.{
  ok, M, pure, ◌>>=◌, ◌>>◌, when, clk_osm_write_reg, clk_osm_read_reg, clk_osm_masked_write_reg,
  clk_osm_mb,
}
use xiaomi_pad4_ubuntu_touch.Osm.Device.{memory}
use xiaomi_pad4_ubuntu_touch.Osm.Update.{set_bits}

-- The value of a register after an access.
abbrev pub after : ℕ → Access → ℕ → ℕ
after a (write_reg b v) old = if a == b then v else old
after a (read_reg b v) old = old
after a (scm_write b v) old = old
after a (wait_ns n) old = old
after a (call c) old = old

abbrev pub IsPlain : Env → ℕ → Type 0
IsPlain env a = (x : Access) (h : List Access) → env.device (x ∷ h) a ≡ after a x (env.device h a)

pub memory-IsPlain :
    (init : ℕ → ℕ) (a : ℕ) (x : Access) (h : List Access)
    → memory init (x ∷ h) a ≡ after a x (memory init h a)
unfolding memory
memory-IsPlain init a (read_reg b v) h = refl
memory-IsPlain init a (scm_write b v) h = refl
memory-IsPlain init a (wait_ns n) h = refl
memory-IsPlain init a (call c) h = refl
memory-IsPlain init a (write_reg b v) h = elim (Bool-cases (a == b)) [
  | inl same ↦ rw same refl
  | inr other ↦ rw other refl
]

-- The value that a read of the register gives.
abbrev pub held : Env → ℕ → List Access → ℕ
held env a bus = u32 (env.device bus a)

after-write_same : (a b v old : ℕ) → b ≡ a → after a (write_reg b v) old ≡ v
after-write_same a b v old same = ground arith

after-write_other : (a b v old : ℕ) → b ≢ a → after a (write_reg b v) old ≡ old
after-write_other a b v old other = ground arith

u32_twice : (v : ℕ) → u32 (u32 v) ≡ u32 v
u32_twice v = omega arith

module _ (env : Env) (clocks : Cluster → ClkOsm) (a : ℕ) where
  abbrev pub world_of : List Access → World
  world_of bus = record { env = env; bus = bus; clocks = clocks }

  -- The run succeeds, changes no field of the driver, and makes `f` of the register's value.
  abbrev pub Runs : (ℕ → ℕ) → M (Unit {0}) → Type 0
  Runs f m =
      (bus : List Access)
      → (bus' : List Access) × (m (world_of bus) ≡ (ok tt, world_of bus'))
        × (held env a bus' ≡ f (held env a bus))

  pub record Effect (f : ℕ → ℕ) (m : M (Unit {0})) : Type 0 where
    pub runs : Runs f m

  pub Effect-pure : Effect (λ v. v) (pure tt)
  Effect-pure = record { runs = λ bus. (bus, refl, refl) }

  pub Effect-then :
      {f g : ℕ → ℕ} {m n : M (Unit {0})} → Effect f m → Effect g n → Effect (λ v. g (f v)) (m >> n)
  Effect-then {f} {g} {m} {n} first second = record { runs = both }
    where
      both : Runs (λ v. g (f v)) (m >> n)
      both bus =
          let (bus1, ran1, held1) = first.runs bus in
          let (bus2, ran2, held2) = second.runs bus1 in
          (bus2, rw (ran1, ran2) refl, held2 ∙ ap g held1)

  pub Effect-when :
      {f : ℕ → ℕ} {m : M (Unit {0})} (b : Bool)
      → Effect f m
      → Effect (λ v. if b then f v else v) (when b m)
  Effect-when true h = h
  Effect-when false h = Effect-pure

  module _ (plain : IsPlain env a) where
    pub held-write_other :
        (b v : ℕ) (bus : List Access) → b ≢ a → held env a (write_reg b v ∷ bus) ≡ held env a bus
    held-write_other b v bus other =
        ap u32 (plain (write_reg b v) bus ∙ after-write_other a b v (env.device bus a) other)

    write_same-Runs :
        (k : Cluster) (v offset : ℕ)
        → (clocks k).vbases.osm_base + offset ≡ a
        → Runs (λ old. u32 v) (clk_osm_write_reg k v offset)
    write_same-Runs k v offset same bus =
        (_, refl, ap u32 (plain _ bus ∙ after-write_same a _ _ _ same) ∙ u32_twice v)

    write_other-Runs :
        (k : Cluster) (v offset : ℕ)
        → (clocks k).vbases.osm_base + offset ≢ a
        → Runs (λ old. old) (clk_osm_write_reg k v offset)
    write_other-Runs k v offset other bus = (_, refl, held-write_other _ (u32 v) bus other)

    mb-Runs : (k : Cluster) → Runs (λ old. old) (clk_osm_mb k)
    mb-Runs k bus = (_, refl, ap u32 (plain _ bus))

    -- The register after a read and a write of what `g` makes of the value read.
    pub held-update :
        (at : ℕ) (g : ℕ → ℕ) (bus : List Access)
        → at ≡ a
        → held env a
            (write_reg at (u32 (g (held env at bus))) ∷ read_reg at (held env at bus) ∷ bus)
          ≡ u32 (g (held env a bus))
    held-update at g bus same =
        ap u32 (plain _ (read_reg at (held env at bus) ∷ bus) ∙ after-write_same a at _ _ same)
        ∙ u32_twice (g (held env at bus))
        ∙ ap (λ b. u32 (g (held env b bus))) same

    -- Read, change, write.
    update_same-Runs :
        (k : Cluster) (reg : ℕ) (g : ℕ → ℕ)
        → (clocks k).vbases.osm_base + reg ≡ a
        → Runs (λ old. u32 (g old)) (clk_osm_read_reg k reg >>= λ v. clk_osm_write_reg k (g v) reg)
    update_same-Runs k reg g same bus =
        (_, refl, held-update ((clocks k).vbases.osm_base + reg) g bus same)

    set_bits_other-Runs :
        (k : Cluster) (reg bits : ℕ)
        → (clocks k).vbases.osm_base + reg ≢ a
        → Runs (λ old. old) (set_bits k reg bits)
    set_bits_other-Runs k reg bits other bus =
        let v = held env ((clocks k).vbases.osm_base + reg) bus in
        let (bus', ran, kept) =
          write_other-Runs k (bit_or v bits) reg other
            (read_reg ((clocks k).vbases.osm_base + reg) v ∷ bus) in
        (bus', ran, kept ∙ ap u32 (plain _ bus))

    masked_write-Runs :
        (k : Cluster) (v reg mask : ℕ)
        → (clocks k).vbases.osm_base + reg ≡ a
        → Runs
            (λ old. u32 (bit_or (bit_and old (not32 mask)) (bit_and v mask)))
            (clk_osm_masked_write_reg k v reg mask)
    masked_write-Runs k v reg mask same bus =
        let at = (clocks k).vbases.osm_base + reg in
        let orig_val = held env at bus in
        let val2 = bit_or (bit_and orig_val (not32 mask)) (bit_and v mask) in
        let here =
          ap (λ b. u32 (bit_or (bit_and (held env b bus) (not32 mask)) (bit_and v mask))) same in
        let read = read_reg at orig_val ∷ bus in
        elim (Bool-cases (val2 == orig_val)) [
          | inl equal ↦
              let e : val2 ≡ orig_val = (==_iff val2 orig_val).0 equal in
              rw equal (
                read,
                refl,
                ap u32 (plain _ bus)
                    ∙ ap (λ b. held env b bus) (sym same)
                    ∙ sym (u32_twice _)
                    ∙ ap u32 (sym e)
                    ∙ here,
              )
          | inr differ ↦
              let (bus', ran, wrote) = write_same-Runs k val2 reg same read in
              rw differ (bus', ran, wrote ∙ here)
        ]

    pub Effect-write_same :
        (k : Cluster) (v offset : ℕ)
        → (clocks k).vbases.osm_base + offset ≡ a
        → Effect (λ old. u32 v) (clk_osm_write_reg k v offset)
    Effect-write_same k v offset same = record { runs = write_same-Runs k v offset same }

    pub Effect-write_other :
        (k : Cluster) (v offset : ℕ)
        → (clocks k).vbases.osm_base + offset ≢ a
        → Effect (λ old. old) (clk_osm_write_reg k v offset)
    Effect-write_other k v offset other = record { runs = write_other-Runs k v offset other }

    pub Effect-mb : (k : Cluster) → Effect (λ old. old) (clk_osm_mb k)
    Effect-mb k = record { runs = mb-Runs k }

    pub Effect-update_same :
        (k : Cluster) (reg : ℕ) (g : ℕ → ℕ)
        → (clocks k).vbases.osm_base + reg ≡ a
        → Effect
            (λ old. u32 (g old))
            (clk_osm_read_reg k reg >>= λ v. clk_osm_write_reg k (g v) reg)
    Effect-update_same k reg g same = record { runs = update_same-Runs k reg g same }

    pub Effect-set_bits_same :
        (k : Cluster) (reg bits : ℕ)
        → (clocks k).vbases.osm_base + reg ≡ a
        → Effect (λ old. u32 (bit_or old bits)) (set_bits k reg bits)
    Effect-set_bits_same k reg bits same = Effect-update_same k reg (λ v. bit_or v bits) same

    pub Effect-set_bits_other :
        (k : Cluster) (reg bits : ℕ)
        → (clocks k).vbases.osm_base + reg ≢ a
        → Effect (λ old. old) (set_bits k reg bits)
    Effect-set_bits_other k reg bits other = record { runs = set_bits_other-Runs k reg bits other }

    pub Effect-masked_write :
        (k : Cluster) (v reg mask : ℕ)
        → (clocks k).vbases.osm_base + reg ≡ a
        → Effect
            (λ old. u32 (bit_or (bit_and old (not32 mask)) (bit_and v mask)))
            (clk_osm_masked_write_reg k v reg mask)
    Effect-masked_write k v reg mask same = record { runs = masked_write-Runs k v reg mask same }
