-- ===== src/Policy/Votes.antt =====
-- The votes of the limits manager after the two llm policies of clk-cpu-osm-660.c.
use Prim.Native.String.{String}
use xiaomi_pad4_ubuntu_touch.Base.{
  ℕ, ◌+◌, ◌^◌, ◌<◌, ◌≡◌, ◌≢◌, refl, ap, ◌∙◌, Bool, true, false, not, ◌&&◌, ◌||◌, Option, none, some,
  bit_or, bval, get_or, u32, ◌==◌, if◌then◌else◌, arith,
}
use xiaomi_pad4_ubuntu_touch.Base.Bits.{digit, bit_or-zero}
use xiaomi_pad4_ubuntu_touch.Base.Bits.Digits.{digit-mod, digit-set_bit}
use xiaomi_pad4_ubuntu_touch.Osm.{
  Cluster, pwrcl, perfcl, ClkOsm, Env, World, M, ◌>>=◌, ◌>>◌, pure, clock, ok, set_bits, set_timer,
  clk_osm_count_ns, allocate, cluster_array_alloc, with_cluster_array, for_both, clk_osm_mb,
  of_property_read_bool,
}
use xiaomi_pad4_ubuntu_touch.Osm.Effect
use xiaomi_pad4_ubuntu_touch.Osm.Effect.{IsPlain, held}
use xiaomi_pad4_ubuntu_touch.Osm.Regs.{
  llm_freq_vote_hysteresis, llm_volt_vote_hysteresis, llm_intf_dcvs_disable, osm_core_table_size,
}
use xiaomi_pad4_ubuntu_touch.Policy.{clk_osm_set_llm_freq_policy, clk_osm_set_llm_volt_policy}

-- The value that is added for a vote that is not honoured.
abbrev ignored : Bool → ℕ → ℕ
ignored honoured bit = if honoured then 0 else bit

module _ (k : Cluster) (env : Env) (clocks : Cluster → ClkOsm) where
  abbrev votes_at : ℕ
  votes_at = (clocks k).vbases.osm_base + llm_intf_dcvs_disable

  module _ (plain : IsPlain env votes_at) where
    abbrev Does : (ℕ → ℕ) → M (Unit {0}) → Type 0
    Does f m = Effect.Effect env clocks votes_at f m

    infixr 5 ◌⨟◌
    abbrev ◌⨟◌ :
        {f g : ℕ → ℕ} {m n : M (Unit {0})} → Does f m → Does g n → Does (λ v. g (f v)) (m >> n)
    first ⨟ second = Effect.Effect-then env clocks votes_at first second

    -- A timer of either cluster is another register.
    timer-Does :
        (j : Cluster) (reg msb lsb ns : ℕ)
        → (clocks j).vbases.osm_base + reg ≢ votes_at
        → Does (λ v. v) (set_timer j reg msb lsb ns)
    timer-Does j reg msb lsb ns other = record {
      runs =
          (Effect.Effect-set_bits_other env clocks votes_at plain j reg
            (bval msb lsb (clk_osm_count_ns (clocks j) ns)) other).runs;
    }

    nothing-Does : Does (λ v. v) (pure tt)
    nothing-Does = Effect.Effect-pure env clocks votes_at

    -- A step for both clusters with the cells of a property, which may be missing.
    array-Runs :
        {step : Cluster → ℕ → M (Unit {0})} (name : String)
        → ((j : Cluster) (ns : ℕ) → Does (λ v. v) (step j ns))
        → (e : Option ℕ) → env.of_read_array_error name 2 ≡ e
        → Effect.Runs env clocks votes_at
            (λ v. v)
            (with_cluster_array name (λ array. for_both array step) (pure tt))
    array-Runs name does none found bus =
        let cells = env.of_read_array name 2 in
        rw found ((does pwrcl (get_or cells 0 0) ⨟ does perfcl (get_or cells 1 0)).runs bus)
    array-Runs name does (some e) missing bus = rw missing (bus, refl, refl)

    array-Does :
        {step : Cluster → ℕ → M (Unit {0})} (name : String)
        → ((j : Cluster) (ns : ℕ) → Does (λ v. v) (step j ns))
        → Does (λ v. v) (with_cluster_array name (λ array. for_both array step) (pure tt))
    array-Does name does = record {
      runs = array-Runs name does (env.of_read_array_error name 2) refl;
    }

-- The bits of both clusters, of which one is the cluster at hand.
module _ (env : Env) (clocks : Cluster → ClkOsm)
    (apart : (clocks perfcl).vbases.osm_base
      ≡ (clocks pwrcl).vbases.osm_base + osm_core_table_size) where
  other_timer :
      (k j : Cluster) (reg : ℕ)
      → reg < llm_intf_dcvs_disable
      → 0x1000 < reg
      → (clocks j).vbases.osm_base + reg ≢ (clocks k).vbases.osm_base + llm_intf_dcvs_disable
  other_timer pwrcl pwrcl reg below above e = omega (arith, e)
  other_timer pwrcl perfcl reg below above e = omega (arith, e, apart)
  other_timer perfcl pwrcl reg below above e = omega (arith, e, apart)
  other_timer perfcl perfcl reg below above e = omega (arith, e)

  vote_bits :
      (k : Cluster) (val : ℕ)
      → (plain : IsPlain env (votes_at k env clocks))
      → Does k env clocks plain
          (λ v. u32 (bit_or v val))
          (do
            set_bits pwrcl llm_intf_dcvs_disable val
            set_bits perfcl llm_intf_dcvs_disable val
            clk_osm_mb perfcl)
  vote_bits pwrcl val plain =
      let at = votes_at pwrcl env clocks in
      Effect.Effect-then env clocks at
        (Effect.Effect-set_bits_same env clocks at plain pwrcl llm_intf_dcvs_disable val refl)
        (Effect.Effect-then env clocks at
          (Effect.Effect-set_bits_other env clocks at plain perfcl llm_intf_dcvs_disable val
            (λ e. omega (arith, e, apart)))
          (Effect.Effect-mb env clocks at plain perfcl))
  vote_bits perfcl val plain =
      let at = votes_at perfcl env clocks in
      Effect.Effect-then env clocks at
        (Effect.Effect-set_bits_other env clocks at plain pwrcl llm_intf_dcvs_disable val
          (λ e. omega (arith, e, apart)))
        (Effect.Effect-then env clocks at
          (Effect.Effect-set_bits_same env clocks at plain perfcl llm_intf_dcvs_disable val refl)
          (Effect.Effect-mb env clocks at plain perfcl))

  module _ (k : Cluster) (plain : IsPlain env (votes_at k env clocks))
      (given : env.alloc cluster_array_alloc ≡ true) where
    abbrev at : ℕ
    at = votes_at k env clocks

    allocate-Does : Does k env clocks plain (λ v. v) (allocate cluster_array_alloc)
    allocate-Does = record { runs = λ bus. rw given (bus, refl, refl) }

    -- Both timers of a vote.
    timers-Does :
        (reg msb lsb : ℕ) (name : String)
        → reg < llm_intf_dcvs_disable
        → 0x1000 < reg
        → Does k env clocks plain
            (λ v. v)
            (with_cluster_array name
              (λ array. for_both array (λ j ns. set_timer j reg msb lsb ns))
              (pure tt))
    timers-Does reg msb lsb name below above =
        array-Does k env clocks plain name
          λ j ns. timer-Does k env clocks plain j reg msb lsb ns (other_timer k j reg below above)

    freq-Does :
        Does k env clocks plain
          (λ v. u32 (bit_or v (ignored (env.of_read_bool "qcom,enable-llm-freq-vote") 1)))
          clk_osm_set_llm_freq_policy
    unfolding clk_osm_set_llm_freq_policy
    freq-Does =
        let votes : Does k env clocks plain
            (λ v. u32 (bit_or v (ignored (env.of_read_bool "qcom,enable-llm-freq-vote") 1)))
            (do
              honoured ← of_property_read_bool "qcom,enable-llm-freq-vote"
              let val = if honoured then 0 else 1
              set_bits pwrcl llm_intf_dcvs_disable val
              set_bits perfcl llm_intf_dcvs_disable val
              clk_osm_mb perfcl) =
          record {
            runs =
                (vote_bits k (ignored (env.of_read_bool "qcom,enable-llm-freq-vote") 1) plain).runs;
          } in
        Effect.Effect-then env clocks at allocate-Does (
          Effect.Effect-then env clocks at
            (timers-Does llm_freq_vote_hysteresis 31 16 "qcom,llm-freq-up-timer" (omega arith)
              (omega arith))
            (Effect.Effect-then env clocks at
              (timers-Does llm_freq_vote_hysteresis 15 0 "qcom,llm-freq-down-timer" (omega arith)
                (omega arith))
              votes))

    volt-Does :
        Does k env clocks plain
          (λ v. u32 (bit_or v (ignored (env.of_read_bool "qcom,enable-llm-volt-vote") (2 ^ 1))))
          clk_osm_set_llm_volt_policy
    unfolding clk_osm_set_llm_volt_policy
    volt-Does =
        let votes : Does k env clocks plain
            (λ v. u32 (bit_or v (ignored (env.of_read_bool "qcom,enable-llm-volt-vote") (2 ^ 1))))
            (do
              honoured ← of_property_read_bool "qcom,enable-llm-volt-vote"
              let val = if honoured then 0 else 2 ^ 1
              set_bits pwrcl llm_intf_dcvs_disable val
              set_bits perfcl llm_intf_dcvs_disable val
              clk_osm_mb perfcl) =
          record {
            runs =
                (vote_bits k (ignored (env.of_read_bool "qcom,enable-llm-volt-vote") (2 ^ 1))
                  plain).runs;
          } in
        Effect.Effect-then env clocks at allocate-Does (
          Effect.Effect-then env clocks at
            (timers-Does llm_volt_vote_hysteresis 31 16 "qcom,llm-volt-up-timer" (omega arith)
              (omega arith))
            (Effect.Effect-then env clocks at
              (timers-Does llm_volt_vote_hysteresis 15 0 "qcom,llm-volt-down-timer" (omega arith)
                (omega arith))
              votes))

digit-ignored :
    (honoured : Bool) (j i v : ℕ)
    → i < 32
    → digit (u32 (bit_or v (ignored honoured (2 ^ j)))) i
      ≡ (if not honoured && i == j then 1 else digit v i)
digit-ignored true j i v small = rw (bit_or-zero v) (digit-mod 32 i v small)
digit-ignored false j i v small = digit-set_bit j i v small

-- Bit 0 of the disable register is that of the frequency votes, bit 1 that of the voltage votes.
abbrev pub disabled_by : Env → ℕ → Bool
disabled_by env i =
    i == 0 && not (env.of_read_bool "qcom,enable-llm-freq-vote")
    || i == 1 && not (env.of_read_bool "qcom,enable-llm-volt-vote")

-- The two llm policies, one after the other, with memory, blocks that lie 8192 bytes apart, and a
-- disable register that holds what is written to it: they succeed and change no field of the driver,
-- and in the disable register of either cluster the bit of each vote that is not to be honoured is
-- set, and every other bit is as it was: also that of a vote that is to be honoured.
pub llm_policies-digit :
    (k : Cluster) (w : World) (i : ℕ)
    → let at = (clock k w).vbases.osm_base + llm_intf_dcvs_disable in
      (clock perfcl w).vbases.osm_base ≡ (clock pwrcl w).vbases.osm_base + osm_core_table_size
      → IsPlain w.env at
      → w.env.alloc cluster_array_alloc ≡ true
      → i < 32
      → let (r, w') = (clk_osm_set_llm_freq_policy >> clk_osm_set_llm_volt_policy) w in
        (r ≡ ok tt)
        × (digit (held w.env at w'.bus) i
            ≡ (if disabled_by w.env i then 1 else digit (held w.env at w.bus) i))
        × (w'.clocks ≡ w.clocks)
llm_policies-digit k w i apart plain given small =
    let at = votes_at k w.env w.clocks in
    let freq = w.env.of_read_bool "qcom,enable-llm-freq-vote" in
    let volt = w.env.of_read_bool "qcom,enable-llm-volt-vote" in
    let (bus, ran, makes) =
      (Effect.Effect-then w.env w.clocks at (freq-Does w.env w.clocks apart k plain given)
          (volt-Does w.env w.clocks apart k plain given)).runs
        w.bus in
    let old = held w.env at w.bus in
    rw ran (
      refl,
      ap (λ v. digit v i) makes
          ∙ digit-ignored volt 1 i (u32 (bit_or old (ignored freq 1))) small
          ∙ ap (λ d. if not volt && i == 1 then 1 else d) (digit-ignored freq 0 i old small)
          ∙ merge freq volt i (digit old i),
      refl,
    )
  where
    merge :
        (freq volt : Bool) (i d : ℕ)
        → (if not volt && i == 1 then 1 else if not freq && i == 0 then 1 else d)
          ≡ (if i == 0 && not freq || i == 1 && not volt then 1 else d)
    merge freq volt i d = ground arith
