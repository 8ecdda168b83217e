-- ===== src/Config/Ends.antt =====
-- How the steps of `clk_osm_parse_dt_configs` of clk-cpu-osm-660.c end, and that they keep what decides
-- it.
use Prim.Native.String.{String}
use xiaomi_pad4_ubuntu_touch.Base.{
  ℕ, ◌≡◌, refl, ap, ◌∙◌, Bool, true, false, ◌&&◌, List, [], ◌∷◌, Option, none, some, get_or,
  if◌then◌else◌,
}
use xiaomi_pad4_ubuntu_touch.Osm.{
  Cluster, pwrcl, perfcl, ClkOsm, Env, World, Result, ok, err, fault, M, ◌>>=◌, ◌>>◌, modify,
  continue, einval,
}
use xiaomi_pad4_ubuntu_touch.Osm.Keeps.{
  Keeps, Keeps-fail, Keeps-bind, Keeps-then, Keeps-attempt, Keeps-cases, Keeps-cluster_array,
  Keeps-read_u32, Keeps-read_array,
}
use xiaomi_pad4_ubuntu_touch.Config.{
  required_cells, store_both, required_u32, optional_u32, required_array,
}

-- What the outcome hangs on: the device tree and the memory, and whether an ACD is marked.
abbrev pub Inputs : Type 0
Inputs = Env × Bool × Bool

abbrev pub inputs : World → Inputs
inputs w = (w.env, (w.clocks pwrcl).acd_init, (w.clocks perfcl).acd_init)

abbrev pub demanded : Option ℕ → Result (Unit {0})
demanded none = ok tt
demanded (some e) = err einval

-- A return code that is passed on.
abbrev pub code_of : Option ℕ → Result (Unit {0})
code_of none = ok tt
code_of (some e) = err e

abbrev pub then_ends : Result (Unit {0}) → Result (Unit {0}) → Result (Unit {0})
then_ends (ok u) o = o
then_ends (err e) o = err e
then_ends fault o = fault

-- The outcome of a run, from the inputs, which it keeps.
pub record Ends (m : M (Unit {0})) (o : Inputs → Result (Unit {0})) : Type 0 where
  pub kept : Keeps inputs m
  pub ended : (w : World) → (m w).0 ≡ o (inputs w)

pub record Returns {A : Type 0} (m : M A) (v : Inputs → A) : Type 0 where
  pub kept : Keeps inputs m
  pub returned : (w : World) → (m w).0 ≡ ok (v (inputs w))

pub Ends-then :
    {m n : M (Unit {0})} {o o' : Inputs → Result (Unit {0})}
    → Ends m o
    → Ends n o'
    → Ends (m >> n) (λ x. then_ends (o x) (o' x))
Ends-then {m} {n} {o} {o'} first second = record {
  kept = Keeps-then inputs first.kept second.kept;
  ended = λ w.
      cases w (m w).0 (m w).1 (first.kept.keeps w)
      ∙ ap (λ r. then_ends r (o' (inputs w))) (first.ended w);
}
  where
    cases :
        (w : World) (r : Result (Unit {0})) (w' : World)
        → inputs w' ≡ inputs w
        → (continue (λ done. n) r w').0 ≡ then_ends r (o' (inputs w))
    cases w (ok u) w' same = second.ended w' ∙ ap o' same
    cases w (err e) w' same = refl
    cases w fault w' same = refl

pub Ends-bind :
    {A : Type 0} {m : M A} {f : A → M (Unit {0})} {v : Inputs → A}
    {o : A → Inputs → Result (Unit {0})}
    → Returns m v
    → ((a : A) → Ends (f a) (o a))
    → Ends (m >>= f) (λ x. o (v x) x)
Ends-bind {A} {m} {f} {v} {o} first rest = record {
  kept = Keeps-bind inputs first.kept (λ a. (rest a).kept);
  ended = λ w.
      ap (λ r. (continue f r (m w).1).0) (first.returned w)
      ∙ (rest (v (inputs w))).ended (m w).1
      ∙ ap (o (v (inputs w))) (first.kept.keeps w);
}

abbrev pub Same : {V : Type 0} → (ClkOsm → V → ClkOsm) → Type 0
Same {V} store = (c : ClkOsm) (v : V) → (store c v).acd_init ≡ c.acd_init

pub stored-Kept :
    {V : Type 0} (k : Cluster) (store : ClkOsm → V → ClkOsm) (v : V)
    → Same store
    → Keeps inputs (modify k (λ c. store c v))
stored-Kept pwrcl store v same = record { keeps = λ w. rw (same (w.clocks pwrcl) v) refl }
stored-Kept perfcl store v same = record { keeps = λ w. rw (same (w.clocks perfcl) v) refl }

pub cells-Ends :
    (name : String) (store : ClkOsm → ℕ → ClkOsm)
    → Same store
    → Ends (required_cells name store) (λ x. demanded (x.0.of_read_array_error name 2))
cells-Ends name store same = record {
  kept =
      Keeps-cluster_array inputs name
        (λ cells.
          Keeps-then inputs (stored-Kept pwrcl store (get_or cells 0 0) same)
            (stored-Kept perfcl store (get_or cells 1 0) same))
        (Keeps-fail inputs einval);
  ended = λ w. by_error w (w.env.of_read_array_error name 2) refl;
}
  where
    by_error :
        (w : World) (e : Option ℕ)
        → w.env.of_read_array_error name 2 ≡ e
        → (required_cells name store w).0 ≡ demanded e
    by_error w none at = rw at refl
    by_error w (some e) at = rw at refl

pub store_both-Kept :
    (store : ClkOsm → ℕ → ClkOsm) (v : ℕ) → Same store → Keeps inputs (store_both store v)
store_both-Kept store v same =
    Keeps-then inputs (stored-Kept pwrcl store v same) (stored-Kept perfcl store v same)

pub u32-Ends :
    (name : String) (store : ClkOsm → ℕ → ClkOsm)
    → Same store
    → Ends (required_u32 name store) (λ x. demanded (x.0.of_read_array_error name 1))
u32-Ends name store same = record {
  kept =
      Keeps-bind inputs (Keeps-attempt inputs (Keeps-read_u32 inputs name))
        (λ r. Keeps-cases inputs r (λ v. store_both-Kept store v same) (Keeps-fail inputs einval));
  ended = λ w. by_error w (w.env.of_read_array_error name 1) refl;
}
  where
    by_error :
        (w : World) (e : Option ℕ)
        → w.env.of_read_array_error name 1 ≡ e
        → (required_u32 name store w).0 ≡ demanded e
    by_error w none at = rw at refl
    by_error w (some e) at = rw at refl

pub optional-Returns :
    (name : String) (store : ClkOsm → ℕ → ClkOsm)
    → Same store
    → Returns (optional_u32 name store) (λ x. code_of (x.0.of_read_array_error name 1))
optional-Returns name store same = record {
  kept =
      Keeps-attempt inputs
        (Keeps-bind inputs (Keeps-read_u32 inputs name) (λ v. store_both-Kept store v same));
  returned = λ w. by_error w (w.env.of_read_array_error name 1) refl;
}
  where
    by_error :
        (w : World) (e : Option ℕ)
        → w.env.of_read_array_error name 1 ≡ e
        → (optional_u32 name store w).0 ≡ ok (code_of e)
    by_error w none at = rw at refl
    by_error w (some e) at = rw at refl

pub array-Ends :
    (name : String) (n : ℕ) (k : Cluster) (store : ClkOsm → List ℕ → ClkOsm)
    → Same store
    → Ends (required_array name n k store) (λ x. demanded (x.0.of_read_array_error name n))
array-Ends name n k store same = record {
  kept = Keeps-bind inputs (Keeps-attempt inputs (Keeps-read_array inputs name n)) (λ r.
      Keeps-cases inputs r (λ cells. stored-Kept k store cells same) (Keeps-fail inputs einval));
  ended = λ w. by_error w (w.env.of_read_array_error name n) refl;
}
  where
    by_error :
        (w : World) (e : Option ℕ)
        → w.env.of_read_array_error name n ≡ e
        → (required_array name n k store w).0 ≡ demanded e
    by_error w none at = rw at refl
    by_error w (some e) at = rw at refl

pub Ends-as :
    {m : M (Unit {0})} {o o' : Inputs → Result (Unit {0})}
    → Ends m o
    → ((x : Inputs) → o x ≡ o' x)
    → Ends m o'
Ends-as h same = record { kept = h.kept; ended = λ w. h.ended w ∙ same (inputs w) }

-- A property with the number of its cells.
abbrev pub Demand : Type 0
Demand = String × ℕ

abbrev pub found : Option ℕ → Bool
found none = true
found (some e) = false

abbrev pub all_there : Env → List Demand → Bool
all_there env [] = true
all_there env ((name, n) ∷ rest) = found (env.of_read_array_error name n) && all_there env rest

abbrev pub needed : List Demand → Inputs → Result (Unit {0})
needed ds x = if all_there x.0 ds then ok tt else err einval

pub Ends-need :
    {m n : M (Unit {0})} (name : String) (cells : ℕ) (ds : List Demand)
    → Ends m (λ x. demanded (x.0.of_read_array_error name cells))
    → Ends n (needed ds)
    → Ends (m >> n) (needed ((name, cells) ∷ ds))
Ends-need name cells ds first second =
    Ends-as (Ends-then first second) (λ x. cases (x.0.of_read_array_error name cells) x)
  where
    cases :
        (e : Option ℕ) (x : Inputs)
        → then_ends (demanded e) (needed ds x)
          ≡ (if found e && all_there x.0 ds then ok tt else err einval)
    cases none x = refl
    cases (some e) x = refl

pub Ends-last :
    {m : M (Unit {0})} (name : String) (cells : ℕ)
    → Ends m (λ x. demanded (x.0.of_read_array_error name cells))
    → Ends m (needed ((name, cells) ∷ []))
Ends-last name cells h = Ends-as h (λ x. cases (x.0.of_read_array_error name cells))
  where
    cases : (e : Option ℕ) → demanded e ≡ (if found e && true then ok tt else err einval)
    cases none = refl
    cases (some e) = refl
