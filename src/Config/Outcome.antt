-- ===== src/Config/Outcome.antt =====
-- How `clk_osm_parse_dt_configs` of clk-cpu-osm-660.c ends, against the lists of the properties that
-- it demands.
use xiaomi_pad4_ubuntu_touch.Base.{
  ◌≡◌, refl, ◌∙◌, Bool, true, false, not, ◌&&◌, ◌||◌, if◌then◌else◌, inl, inr, Bool-cases,
}
use xiaomi_pad4_ubuntu_touch.Osm.{
  pwrcl, perfcl, Env, World, Result, ok, err, ◌>>=◌, ◌>>◌, when, get, for_range, allocate,
  cluster_array_alloc, einval, enomem, clock,
}
use xiaomi_pad4_ubuntu_touch.Osm.Keeps.{Keeps-allocate}
use xiaomi_pad4_ubuntu_touch.Config.{
  parse_overrides, parse_acd, parse_rates, parse_end, clk_osm_parse_dt_configs,
}
use xiaomi_pad4_ubuntu_touch.Config.Ends.{
  Ends, Ends-then, Inputs, all_there, code_of, inputs, needed, then_ends,
}
use xiaomi_pad4_ubuntu_touch.Config.Demands.{
  cluster_demands, acd_demands, rate_demands, mem_acc_demands, arrays-Ends, acd-Ends, rates-Ends,
}
use xiaomi_pad4_ubuntu_touch.Config.Tail.{last_outcome, end-Ends}

overrides-Ends : Ends parse_overrides (λ x. ok tt)
unfolding parse_overrides for_range
overrides-Ends = record { kept = record { keeps = λ w. refl }; ended = λ w. refl }

allocate-Ends :
    Ends
      (allocate cluster_array_alloc)
      (λ x. if x.0.alloc cluster_array_alloc then ok tt else err enomem)
allocate-Ends = record {
  kept = Keeps-allocate inputs cluster_array_alloc;
  ended = λ w. elim (Bool-cases (w.env.alloc cluster_array_alloc)) [
    | inl given ↦ rw given refl
    | inr out ↦ rw out refl
  ];
}

abbrev if_marked : Bool → Inputs → Result (Unit {0})
if_marked marked x = if marked then needed acd_demands x else ok tt

marked-Ends : (marked : Bool) → Ends (when marked parse_acd) (if_marked marked)
marked-Ends true = acd-Ends
marked-Ends false = record { kept = record { keeps = λ w. refl }; ended = λ w. refl }

abbrev last_of : Inputs → Result (Unit {0})
last_of x = last_outcome (code_of (x.0.of_read_array_error "qcom,cc-factor" 1)) x

-- From the settings of the ACD on.
rest-Ends :
    (marked : Bool)
    → Ends
        (do when marked parse_acd; parse_rates; parse_end)
        (λ x. then_ends (if_marked marked x) (then_ends (needed rate_demands x) (last_of x)))
rest-Ends marked = Ends-then (marked-Ends marked) (Ends-then rates-Ends end-Ends)

by_marks-Ends :
    Ends
      (do
        cp ← get pwrcl
        cf ← get perfcl
        when (cp.acd_init || cf.acd_init) parse_acd
        parse_rates
        parse_end)
      (λ x. then_ends (if_marked (x.1 || x.2) x) (then_ends (needed rate_demands x) (last_of x)))
by_marks-Ends = record {
  kept = record {
    keeps = λ w. (rest-Ends ((clock pwrcl w).acd_init || (clock perfcl w).acd_init)).kept.keeps w;
  };
  ended = λ w. (rest-Ends ((clock pwrcl w).acd_init || (clock perfcl w).acd_init)).ended w;
}

-- The properties that must be there before the flags of the state machines are read.
abbrev pub first_there : Env → Bool → Bool
first_there env marked =
    all_there env cluster_demands
    && (not marked || all_there env acd_demands)
    && all_there env rate_demands

-- How the parse ends, from the device tree, the memory and whether an ACD is marked.
abbrev pub parse_outcome : Env → Bool → Result (Unit {0})
parse_outcome env marked =
    if not (env.alloc cluster_array_alloc)
    then err enomem
    else if not (first_there env marked)
    then err einval
    else if not (env.of_read_bool "qcom,osm-no-tz")
    then code_of (env.of_read_array_error "qcom,cc-factor" 1)
    else if all_there env mem_acc_demands
    then ok tt
    else err einval

-- The outcomes of the steps, one after the other.
in_order :
    (given arrays marked acd rates : Bool) (o : Result (Unit {0}))
    → then_ends (if given then ok tt else err enomem) (
        then_ends (if arrays then ok tt else err einval) (
          then_ends (ok tt) (
            then_ends
              (if marked then (if acd then ok tt else err einval) else ok tt)
              (then_ends (if rates then ok tt else err einval) o))))
      ≡ (if not given
          then err enomem
          else if not (arrays && (not marked || acd) && rates)
          then err einval
          else o)
in_order false arrays marked acd rates o = refl
in_order true false marked acd rates o = refl
in_order true true false acd false o = refl
in_order true true false acd true o = refl
in_order true true true false rates o = refl
in_order true true true true false o = refl
in_order true true true true true o = refl

-- The whole parse of the device tree ends as the lists of the demanded properties say: with -ENOMEM
-- without memory; with -EINVAL if one of the cells of the clusters, of the ACD where one is marked,
-- or of the rates is missing; then, without qcom,osm-no-tz, with the return code of the read of
-- qcom,cc-factor, whatever of the memory accelerator is missing; and with it with -EINVAL if one of
-- three of its four properties is missing, of which qcom,perfcl-apcs-mem-acc-cfg is none.
pub parse_dt_configs-parse_outcome :
    (w : World)
    → (clk_osm_parse_dt_configs w).0
      ≡ parse_outcome w.env ((clock pwrcl w).acd_init || (clock perfcl w).acd_init)
unfolding clk_osm_parse_dt_configs
parse_dt_configs-parse_outcome w =
    let marked = (clock pwrcl w).acd_init || (clock perfcl w).acd_init in
    (Ends-then allocate-Ends (Ends-then arrays-Ends (Ends-then overrides-Ends by_marks-Ends))).ended
      w
    ∙ in_order (w.env.alloc cluster_array_alloc) (all_there w.env cluster_demands) marked
        (all_there w.env acd_demands) (all_there w.env rate_demands) (last_of (inputs w))
