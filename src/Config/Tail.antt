-- ===== src/Config/Tail.antt =====
-- How the end of `clk_osm_parse_dt_configs` of clk-cpu-osm-660.c ends, from `qcom,cc-delay` on.
use Prim.Native.String.{String}
use xiaomi_pad4_ubuntu_touch.Base.{
  ℕ, ◌≡◌, refl, Bool, true, false, not, List, [], ◌∷◌, Option, none, some, if◌then◌else◌,
}
use xiaomi_pad4_ubuntu_touch.Osm.{
  pwrcl, perfcl, World, Result, ok, err, fault, ◌>>=◌, ◌>>◌, pure, get, modify, attempt,
  of_property_read_u32_array, result_cases, clock,
}
use xiaomi_pad4_ubuntu_touch.Osm.Regs.{max_mem_acc_val_per_level, max_mem_acc_values}
use xiaomi_pad4_ubuntu_touch.Osm.Keeps.{
  Keeps, Keeps-bind, Keeps-then, Keeps-if, Keeps-get, Keeps-attempt, Keeps-read_array,
}
use xiaomi_pad4_ubuntu_touch.Config.{parse_fsm_flags, parse_mem_acc, return_code, parse_end}
use xiaomi_pad4_ubuntu_touch.Config.Ends.{
  Demand, Ends, Ends-as, Ends-bind, Ends-last, Ends-need, Ends-then, Inputs, Returns, array-Ends,
  code_of, inputs, needed, optional-Returns, then_ends,
}
use xiaomi_pad4_ubuntu_touch.Config.Demands.{mem_acc_demands}

-- The read whose return code is not stored: whatever it answers, the parse goes on.
abbrev read_result : Option ℕ → List ℕ → Result (List ℕ)
read_result none cells = ok cells
read_result (some e) cells = err e

abbrev unnoticed : Result (List ℕ) → Result (Unit {0})
unnoticed (ok cells) = ok tt
unnoticed (err e) = ok tt
unnoticed fault = fault

read-Returns :
    (name : String) (n : ℕ)
    → Returns
        (attempt (of_property_read_u32_array name n))
        (λ x. read_result (x.0.of_read_array_error name n) (x.0.of_read_array name n))
read-Returns name n = record {
  kept = Keeps-attempt inputs (Keeps-read_array inputs name n);
  returned = λ w. by_error w (w.env.of_read_array_error name n) refl;
}
  where
    by_error :
        (w : World) (e : Option ℕ)
        → w.env.of_read_array_error name n ≡ e
        → (attempt (of_property_read_u32_array name n) w).0
          ≡ ok (read_result e (w.env.of_read_array name n))
    by_error w none at = rw at refl
    by_error w (some e) at = rw at refl

unnoticed-Ends :
    (r : Result (List ℕ))
    → Ends
        (result_cases r
          (λ cells. modify perfcl (λ c. record c { apcs_mem_acc_cfg = cells }))
          (pure tt))
        (λ x. unnoticed r)
unnoticed-Ends (ok cells) = record { kept = record { keeps = λ w. refl }; ended = λ w. refl }
unnoticed-Ends (err e) = record { kept = record { keeps = λ w. refl }; ended = λ w. refl }
unnoticed-Ends fault = record { kept = record { keeps = λ w. refl }; ended = λ w. refl }

mem_acc_values : List Demand
mem_acc_values =
    ("qcom,pwrcl-apcs-mem-acc-val", max_mem_acc_values)
    ∷ ("qcom,perfcl-apcs-mem-acc-val", max_mem_acc_values)
    ∷ []

mem_acc-Ends : Ends parse_mem_acc (needed mem_acc_demands)
unfolding parse_mem_acc mem_acc_values
mem_acc-Ends =
    Ends-need "qcom,pwrcl-apcs-mem-acc-cfg" max_mem_acc_val_per_level mem_acc_values
      (array-Ends "qcom,pwrcl-apcs-mem-acc-cfg" max_mem_acc_val_per_level pwrcl
        (λ c cells. record c { apcs_mem_acc_cfg = cells }) (λ c v. refl))
      (Ends-as
        (Ends-bind (read-Returns "qcom,perfcl-apcs-mem-acc-cfg" max_mem_acc_val_per_level) (λ r.
          Ends-then (unnoticed-Ends r) (
            Ends-need "qcom,pwrcl-apcs-mem-acc-val" max_mem_acc_values
              (("qcom,perfcl-apcs-mem-acc-val", max_mem_acc_values) ∷ [])
              (array-Ends "qcom,pwrcl-apcs-mem-acc-val" max_mem_acc_values pwrcl
                (λ c cells. record c { apcs_mem_acc_val = cells }) (λ c v. refl))
              (Ends-last "qcom,perfcl-apcs-mem-acc-val" max_mem_acc_values (
                array-Ends "qcom,perfcl-apcs-mem-acc-val" max_mem_acc_values perfcl
                  (λ c cells. record c { apcs_mem_acc_val = cells }) (λ c v. refl))))))
        (λ x.
          cases (x.0.of_read_array_error "qcom,perfcl-apcs-mem-acc-cfg" max_mem_acc_val_per_level)
            (x.0.of_read_array "qcom,perfcl-apcs-mem-acc-cfg" max_mem_acc_val_per_level)
            (needed mem_acc_values x)))
  where
    cases :
        (e : Option ℕ) (cells : List ℕ) (o : Result (Unit {0}))
        → then_ends (unnoticed (read_result e cells)) o ≡ o
    cases none cells o = refl
    cases (some e) cells o = refl

code-Ends : (rc : Result (Unit {0})) → Ends (return_code rc) (λ x. rc)
code-Ends (ok u) = record { kept = record { keeps = λ w. refl }; ended = λ w. refl }
code-Ends (err e) = record { kept = record { keeps = λ w. refl }; ended = λ w. refl }
code-Ends fault = record { kept = record { keeps = λ w. refl }; ended = λ w. refl }

-- The end, with the return code of the read of `qcom,cc-factor`.
abbrev pub last_outcome : Result (Unit {0}) → Inputs → Result (Unit {0})
last_outcome rc x = if not (x.0.of_read_bool "qcom,osm-no-tz") then rc else needed mem_acc_demands x

flags-Kept : Keeps inputs parse_fsm_flags
unfolding parse_fsm_flags
flags-Kept = record { keeps = λ w. refl }

flags-Ends :
    (rc : Result (Unit {0}))
    → Ends
        (do
          parse_fsm_flags
          c ← get pwrcl
          if not c.secure_init then return_code rc else parse_mem_acc)
        (last_outcome rc)
unfolding parse_fsm_flags
flags-Ends rc = record {
  kept = Keeps-then inputs flags-Kept (
      Keeps-bind inputs (Keeps-get inputs pwrcl)
        (λ c. Keeps-if inputs (not c.secure_init) (code-Ends rc).kept mem_acc-Ends.kept));
  ended = λ w. choose (parse_fsm_flags w).1 (w.env.of_read_bool "qcom,osm-no-tz") refl;
}
  where
    choose :
        (w : World) (b : Bool)
        → (clock pwrcl w).secure_init ≡ b
        → ((if not (clock pwrcl w).secure_init then return_code rc else parse_mem_acc) w).0
          ≡ (if not b then rc else needed mem_acc_demands (inputs w))
    choose w true at = rw at (mem_acc-Ends.ended w)
    choose w false at = rw at ((code-Ends rc).ended w)

pub end-Ends :
    Ends parse_end (λ x. last_outcome (code_of (x.0.of_read_array_error "qcom,cc-factor" 1)) x)
unfolding parse_end
end-Ends =
    Ends-bind
      (optional-Returns "qcom,cc-delay" (λ c v. record c { cycle_counter_delay = v }) (λ c v. refl))
      λ _.
        Ends-bind
          (optional-Returns "qcom,cc-factor" (λ c v. record c { cycle_counter_factor = v })
            (λ c v. refl))
          flags-Ends
