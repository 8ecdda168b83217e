-- ===== src/Rates/Choice.antt =====
-- Which rate `clk_osm_determine_rate` chooses.
use mathlib.Core.Path.{subst}
use mathlib.Core.List.{Memᴰ}
use xiaomi_pad4_ubuntu_touch.Base.{
  ℕ, ◌-◌, ◌^◌, ◌≤◌, ◌<◌, ◌≡◌, refl, sym, ◌⊎◌, inl, inr, true, false, List, [], ◌∷◌, ◌≢◌, arith,
  ==_iff, ==_of_ne, Bool-cases, ℕ_discrete,
}
use xiaomi_pad4_ubuntu_touch.Osm.{Cluster, World, clock, ok}
use xiaomi_pad4_ubuntu_touch.Rates.{is_better_rate, best_rate, clk_osm_determine_rate}

abbrev pub All {ℓ} : {A : Type ℓ} → (A → Type 0) → List A → Type 0
All P [] = Unit
All P (x ∷ xs) = P x × All P xs

-- No rate that is offered reads as an error code.
abbrev pub IsRate : ℕ → Type 0
IsRate x = x < 2 ^ 64 - 4095

-- `best` answers a request for `rate` at least as well as `x`: a rate at or above the request is
-- better the lower it is, and one below the request is better the higher it is.
abbrev pub NoWorse : ℕ → ℕ → ℕ → Type 0
NoWorse rate best x = (rate ≤ best) × ((x < rate) ⊎ (best ≤ x)) ⊎ (best < rate) × (x ≤ best)

module _ (rate : ℕ) where
  NoWorse-trans :
      (best mid x : ℕ) → NoWorse rate best mid → NoWorse rate mid x → NoWorse rate best x
  NoWorse-trans best mid x h k = ground arith

  -- A rate that the test prefers is no worse than the best so far, and the other way round.
  better_cases :
      (b x : ℕ)
      → IsRate x
      → (is_better_rate rate b x ≡ true) × NoWorse rate x b
        ⊎ (is_better_rate rate b x ≡ false) × NoWorse rate b x
  better_cases b x h = ground arith

  exact-NoWorse : (best : ℕ) (xs : List ℕ) → rate ≡ best → All (NoWorse rate best) xs
  exact-NoWorse best [] e = tt
  exact-NoWorse best (x ∷ xs) e = (ground arith, exact-NoWorse best xs e)

  abbrev BestOf : ℕ → List ℕ → ℕ → Type 0
  BestOf b xs best = NoWorse rate best b × All (NoWorse rate best) xs

  -- What the loop does with its next rate.
  best_rate-cons :
      (b x : ℕ) (xs : List ℕ)
      → let r = best_rate rate b (x ∷ xs) in
        (is_better_rate rate b x ≡ true → rate ≡ x → r ≡ x)
        × (is_better_rate rate b x ≡ true → rate ≢ x → r ≡ best_rate rate x xs)
        × (is_better_rate rate b x ≡ false → r ≡ best_rate rate b xs)
  unfolding best_rate
  best_rate-cons b x xs = (
    λ better same. rw (better, (==_iff rate x).1 same),
    λ better other. rw (better, ==_of_ne rate x other),
    λ worse. rw worse,
  )

  best_rate-NoWorse : (b : ℕ) (xs : List ℕ) → All IsRate xs → BestOf b xs (best_rate rate b xs)
  best_rate-NoWorse b [] h = unfold best_rate in (ground arith, tt)
  best_rate-NoWorse b (x ∷ xs) h = elim (better_cases b x h.0) [
    | inl (e, worse) ↦ elim (ℕ_discrete rate x) [
      | yes same ↦
          subst (BestOf b (x ∷ xs)) (sym ((best_rate-cons b x xs).0 e same))
            (worse, (ground arith, exact-NoWorse x xs same))
      | no other ↦
          let (up, rest) = best_rate-NoWorse x xs h.1 in
          subst (BestOf b (x ∷ xs)) (sym ((best_rate-cons b x xs).1 e other))
            (NoWorse-trans _ x b up worse, (up, rest))
    ]
    | inr (e, worse) ↦
        let (up, rest) = best_rate-NoWorse b xs h.1 in
        subst (BestOf b (x ∷ xs)) (sym ((best_rate-cons b x xs).2 e))
          (up, (NoWorse-trans _ b x up worse, rest))
  ]

  best_rate-Mem : (b : ℕ) (xs : List ℕ) → (best_rate rate b xs ≡ b) ⊎ Memᴰ (best_rate rate b xs) xs
  best_rate-Mem b [] = unfold best_rate in inl refl
  best_rate-Mem b (x ∷ xs) = elim (Bool-cases (is_better_rate rate b x)) [
    | inl e ↦ elim (ℕ_discrete rate x) [
      | yes same ↦ inr (Memᴰ.head ((best_rate-cons b x xs).0 e same))
      | no other ↦
          rw ((best_rate-cons b x xs).1 e other) (elim (best_rate-Mem x xs) [
            | inl top ↦ inr (Memᴰ.head top)
            | inr m ↦ inr (Memᴰ.tail m)
          ])
    ]
    | inr e ↦
        rw ((best_rate-cons b x xs).2 e)
          (elim (best_rate-Mem b xs) [ inl top ↦ inl top | inr m ↦ inr (Memᴰ.tail m) ])
  ]

-- A request for a rate other than 0 is answered, and changes nothing: the answer is one of the
-- rates that the cluster lists, or 0 where it lists none above 0, and no listed rate is a better
-- answer. The listed rates must not read as error codes.
pub determine_rate-NoWorse :
    (k : Cluster) (rate : ℕ) (w : World)
    → 0 < rate
    → All IsRate (clock k w).rate_max
    → (best : ℕ) × (clk_osm_determine_rate k rate w ≡ (ok best, w))
      × All (NoWorse rate best) (clock k w).rate_max
      × ((best ≡ 0) ⊎ Memᴰ best (clock k w).rate_max)
unfolding clk_osm_determine_rate
determine_rate-NoWorse k rate w pos rates =
    let rates_listed = (clock k w).rate_max in
    (
      best_rate rate 0 rates_listed,
      ground arith,
      (best_rate-NoWorse rate 0 rates_listed rates).1,
      best_rate-Mem rate 0 rates_listed,
    )

NoWorse-exact :
    (rate best : ℕ) (xs : List ℕ) → Memᴰ rate xs → All (NoWorse rate best) xs → best ≡ rate
NoWorse-exact rate best [] m h = elim m [ ]
NoWorse-exact rate best (x ∷ xs) (Memᴰ.head e) h = ground arith
NoWorse-exact rate best (x ∷ xs) (Memᴰ.tail m) h = NoWorse-exact rate best xs m h.1

-- A listed rate is answered by itself.
pub best_rate-exact :
    (rate : ℕ) (xs : List ℕ) → All IsRate xs → Memᴰ rate xs → best_rate rate 0 xs ≡ rate
best_rate-exact rate xs rates m =
    NoWorse-exact rate (best_rate rate 0 xs) xs m (best_rate-NoWorse rate 0 xs rates).1

-- A request above 0 that is answered by itself is for a listed rate.
pub best_rate-exact_inv :
    (rate : ℕ) (xs : List ℕ) → 0 < rate → best_rate rate 0 xs ≡ rate → Memᴰ rate xs
best_rate-exact_inv rate xs pos e = elim (best_rate-Mem rate 0 xs) [
  | inl none_listed ↦ absurd (omega arith)
  | inr m ↦ rw e at m
]
