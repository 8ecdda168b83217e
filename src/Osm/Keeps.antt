-- ===== src/Osm/Keeps.antt =====
-- Runs that leave a part of the world as it is.
use Prim.Native.String.{String}
use xiaomi_pad4_ubuntu_touch.Base.{
  ℕ, zero, suc, ◌+◌, ◌≡◌, refl, sym, subst, ◌∙◌, Bool, true, false, List, Option, none, some,
  get_or, if◌then◌else◌, inl, inr, Bool-cases,
}
use xiaomi_pad4_ubuntu_touch.Osm.State.{Cluster, pwrcl, perfcl, ClkOsm, Alloc, Env, World}
use xiaomi_pad4_ubuntu_touch.Osm.Io.{
  Result, ok, err, fault, M, ◌>>=◌, ◌>>◌, pure, fail, crash, attempt, when, continue, for_range,
  get, modify, allocate,
}
use xiaomi_pad4_ubuntu_touch.Osm.Tree.{of_property_read_u32_array, of_property_read_u32, of_error}
use xiaomi_pad4_ubuntu_touch.Osm.Update.{result_cases, with_cluster_array}

module _ {X : Type 0} (part : World → X) where
  -- Whatever a run returns, it leaves the part as it was.
  pub record Keeps {A : Type 0} (m : M A) : Type 0 where
    pub keeps : (w : World) → part (m w).1 ≡ part w

  pub Keeps-pure : {A : Type 0} (a : A) → Keeps (pure a)
  Keeps-pure a = record { keeps = λ w. refl }

  pub Keeps-fail : {A : Type 0} (e : ℕ) → Keeps (fail {A = A} e)
  Keeps-fail e = record { keeps = λ w. refl }

  pub Keeps-crash : {A : Type 0} → Keeps (crash {A = A})
  Keeps-crash = record { keeps = λ w. refl }

  continued :
      {A B : Type 0} {f : A → M B}
      → ((a : A) → Keeps (f a))
      → (r : Result A) (w : World) → part (continue f r w).1 ≡ part w
  continued h (ok a) w = (h a).keeps w
  continued h (err e) w = refl
  continued h fault w = refl

  pub Keeps-bind :
      {A B : Type 0} {m : M A} {f : A → M B} → Keeps m → ((a : A) → Keeps (f a)) → Keeps (m >>= f)
  Keeps-bind {m} first rest = record { keeps = λ w. continued rest (m w).0 (m w).1 ∙ first.keeps w }

  pub Keeps-then : {A : Type 0} {m : M (Unit {0})} {n : M A} → Keeps m → Keeps n → Keeps (m >> n)
  Keeps-then first second = Keeps-bind first (λ done. second)

  pub Keeps-when : {m : M (Unit {0})} (b : Bool) → Keeps m → Keeps (when b m)
  Keeps-when true h = h
  Keeps-when false h = Keeps-pure tt

  pub Keeps-if :
      {A : Type 0} {m n : M A} (b : Bool) → Keeps m → Keeps n → Keeps (if b then m else n)
  Keeps-if true h h' = h
  Keeps-if false h h' = h'

  -- The part is kept from the worlds where it is in `P`.
  pub record KeepsFrom {A : Type 0} (P : X → Type 0) (m : M A) : Type 0 where
    pub keeps_from : (w : World) → P (part w) → part (m w).1 ≡ part w

  pub Keeps-KeepsFrom : {A : Type 0} {P : X → Type 0} {m : M A} → Keeps m → KeepsFrom P m
  Keeps-KeepsFrom h = record { keeps_from = λ w p. h.keeps w }

  pub KeepsFrom-then :
      {A : Type 0} {P : X → Type 0} {m : M (Unit {0})} {n : M A}
      → Keeps m
      → KeepsFrom P n
      → KeepsFrom P (m >> n)
  KeepsFrom-then {A} {P} {m} {n} first second = record {
    keeps_from = λ w p. cases w p (m w).0 (m w).1 (first.keeps w);
  }
    where
      cases :
          (w : World) (p : P (part w)) (r : Result (Unit {0})) (w' : World)
          → part w' ≡ part w
          → part (continue (λ done. n) r w').1 ≡ part w
      cases w p (ok u) w' same = second.keeps_from w' (subst P (sym same) p) ∙ same
      cases w p (err e) w' same = same
      cases w p fault w' same = same

  pub Keeps-attempt : {A : Type 0} {m : M A} → Keeps m → Keeps (attempt m)
  Keeps-attempt h = record { keeps = λ w. h.keeps w }

  pub Keeps-cases :
      {A : Type 0} {f : A → M (Unit {0})} {m : M (Unit {0})} (r : Result A)
      → ((a : A) → Keeps (f a))
      → Keeps m
      → Keeps (result_cases r f m)
  Keeps-cases (ok a) h missing = h a
  Keeps-cases (err e) h missing = missing
  Keeps-cases fault h missing = Keeps-crash

  pub Keeps-of_error : (e : Option ℕ) → Keeps (of_error e)
  Keeps-of_error none = Keeps-pure tt
  Keeps-of_error (some e) = Keeps-fail e

  pub Keeps-get : (k : Cluster) → Keeps (get k)
  Keeps-get k = record { keeps = λ w. refl }

  pub Keeps-allocate : (a : Alloc) → Keeps (allocate a)
  Keeps-allocate a = record {
    keeps = λ w. elim (Bool-cases (w.env.alloc a)) [
      | inl given ↦ rw given refl
      | inr out ↦ rw out refl
    ];
  }

  -- A read of the device tree.
  pub Keeps-read_array : (name : String) (n : ℕ) → Keeps (of_property_read_u32_array name n)
  Keeps-read_array name n = record {
    keeps = λ w.
        (Keeps-then (Keeps-of_error (w.env.of_read_array_error name n))
            (Keeps-pure (w.env.of_read_array name n))).keeps
          w;
  }

  pub Keeps-read_u32 : (name : String) → Keeps (of_property_read_u32 name)
  Keeps-read_u32 name =
      Keeps-bind (Keeps-read_array name 1) (λ cells. Keeps-pure (get_or cells 0 0))

  pub Keeps-cluster_array :
      {f : List ℕ → M (Unit {0})} {m : M (Unit {0})} (name : String)
      → ((cells : List ℕ) → Keeps (f cells))
      → Keeps m
      → Keeps (with_cluster_array name f m)
  Keeps-cluster_array name found missing =
      Keeps-bind (Keeps-attempt (Keeps-read_array name 2)) (λ r. Keeps-cases r found missing)

  pub Keeps-for_range :
      {body : ℕ → M (Unit {0})} (n i : ℕ) → ((j : ℕ) → Keeps (body j)) → Keeps (for_range n i body)
  unfolding for_range
  Keeps-for_range zero i h = Keeps-pure tt
  Keeps-for_range (suc n) i h = Keeps-then (h i) (Keeps-for_range n (i + 1) h)

-- What holds of the world, and of what is returned, when a run succeeds, if something held of the
-- world before.
pub record Ensures {A : Type 0} (Before : World → Type 0) (m : M A) (After : A → World → Type 0)
    : Type 0 where
  pub ensures : (w : World) → Before w → (a : A) → (m w).0 ≡ ok a → After a (m w).1

pub Ensures-bind :
    {A B : Type 0} {P : World → Type 0} {Q : A → World → Type 0} {R : B → World → Type 0} {m : M A}
    {f : A → M B}
    → Ensures P m Q
    → ((a : A) → Ensures (Q a) (f a) R)
    → Ensures P (m >>= f) R
Ensures-bind {A} {B} {P} {Q} {R} {m} {f} first rest = record {
  ensures = λ w p. cases (m w).0 (m w).1 (first.ensures w p);
}
  where
    cases :
        (r : Result A) (w' : World)
        → ((a : A) → r ≡ ok a → Q a w')
        → (b : B) → (continue f r w').0 ≡ ok b
        → R b (continue f r w').1
    cases (ok a) w' q b done = (rest a).ensures w' (q a refl) b done
    cases (err e) w' q b done = cc done
    cases fault w' q b done = cc done

pub Ensures-then :
    {B : Type 0} {P Q : World → Type 0} {R : B → World → Type 0} {m : M (Unit {0})} {n : M B}
    → Ensures P m (λ u. Q)
    → Ensures Q n R
    → Ensures P (m >> n) R
Ensures-then first second = Ensures-bind first (λ done. second)

-- What a part that is kept shows still holds.
pub Keeps-Ensures :
    {X A : Type 0} {part : World → X} (P : X → Type 0) {m : M A}
    → Keeps part m
    → Ensures (λ w. P (part w)) m (λ a w. P (part w))
Keeps-Ensures P h = record { ensures = λ w p a done. subst P (sym (h.keeps w)) p }

-- A fact that needs nothing of the world before, beside one that does.
pub Ensures-also :
    {A : Type 0} {P : World → Type 0} {Q Q' : A → World → Type 0} {m : M A}
    → Ensures (λ w. Unit {0}) m Q
    → Ensures P m Q'
    → Ensures P m (λ a w. Q a w × Q' a w)
Ensures-also h h' = record {
  ensures = λ w p a done. (h.ensures w tt a done, h'.ensures w p a done);
}

pub Ensures-nothing : {A : Type 0} {P : World → Type 0} (m : M A) → Ensures P m (λ a w. Unit {0})
Ensures-nothing m = record { ensures = λ w p a done. tt }

-- The fields of one clock, with the environment, are kept by a change of other fields.
module _ {Y : Type 0} (view : ClkOsm → Y) where
  abbrev pub shown : Cluster → World → Env × Y
  shown j w = (w.env, view (w.clocks j))

  pub Keeps-field :
      (j k : Cluster) (f : ClkOsm → ClkOsm)
      → ((c : ClkOsm) → view (f c) ≡ view c)
      → Keeps (shown j) (modify k f)
  Keeps-field pwrcl pwrcl f same = record { keeps = λ w. rw (same (w.clocks pwrcl)) refl }
  Keeps-field pwrcl perfcl f same = record { keeps = λ w. refl }
  Keeps-field perfcl pwrcl f same = record { keeps = λ w. refl }
  Keeps-field perfcl perfcl f same = record { keeps = λ w. rw (same (w.clocks perfcl)) refl }

  pub Keeps-perfcl : (f : ClkOsm → ClkOsm) → Keeps (shown pwrcl) (modify perfcl f)
  Keeps-perfcl f = record { keeps = λ w. refl }

-- A part of both clocks is kept by a change of other fields of one of them.
module _ {Y : Type 0} (view : ClkOsm → Y) where
  abbrev pub views : World → Y × Y
  views w = (view (w.clocks pwrcl), view (w.clocks perfcl))

  pub Keeps-modify :
      (k : Cluster) (f : ClkOsm → ClkOsm)
      → ((c : ClkOsm) → view (f c) ≡ view c)
      → Keeps views (modify k f)
  Keeps-modify pwrcl f same = record { keeps = λ w. rw (same (w.clocks pwrcl)) refl }
  Keeps-modify perfcl f same = record { keeps = λ w. rw (same (w.clocks perfcl)) refl }
