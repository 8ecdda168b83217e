-- ===== src/MemAcc/Levels.antt =====
-- The level map of `clk_osm_program_mem_acc_regs`: what it holds, and when it has no room.
use mathlib.Core.Path.{subst}
use xiaomi_pad4_ubuntu_touch.Base.{
  ℕ, zero, suc, ◌+◌, ◌≤◌, ◌<◌, ◌≡◌, refl, sym, ◌⊎◌, inl, inr, List, [], ◌∷◌, set, get_or, sub32,
  length, true, false, arith, ◌==◌, if◌then◌else◌, Bool-cases, leb,
}
use xiaomi_pad4_ubuntu_touch.Osm.{OsmEntry, Result, ok, fault}
use xiaomi_pad4_ubuntu_touch.Osm.Regs.{max_mem_acc_levels}
use xiaomi_pad4_ubuntu_touch.MemAcc.{level_map}

-- The corners below the rows that change the level, for the rows that the loop comes to: it stops
-- at the highest level.
abbrev pub boundaries : ℕ → ℕ → List OsmEntry → List ℕ
boundaries zero curr rows = []
boundaries (suc n) curr [] = []
boundaries (suc n) curr (e ∷ rows) =
    if curr == max_mem_acc_levels
    then []
    else if e.spare_data == curr
    then boundaries n e.spare_data rows
    else sub32 e.virtual_corner 1 ∷ boundaries n e.spare_data rows

-- A list written into an array from index `j` on.
abbrev pub written : List ℕ → ℕ → List ℕ → List ℕ
written levels j [] = levels
written levels j (b ∷ bs) = written (set levels j b) (j + 1) bs

-- The loop's step, and the boundaries' step, in each case.
level_map-cons :
    (n curr j : ℕ) (levels : List ℕ) (e : OsmEntry) (rows : List OsmEntry)
    → let r = level_map (suc n) curr j levels (e ∷ rows) in
      (curr == max_mem_acc_levels ≡ true → r ≡ ok levels)
      × (curr == max_mem_acc_levels ≡ false
          → e.spare_data == curr ≡ true
          → r ≡ level_map n e.spare_data j levels rows)
      × (curr == max_mem_acc_levels ≡ false
          → e.spare_data == curr ≡ false
          → leb max_mem_acc_levels j ≡ true
          → r ≡ fault)
      × (curr == max_mem_acc_levels ≡ false
          → e.spare_data == curr ≡ false
          → leb max_mem_acc_levels j ≡ false
          → r ≡ level_map n e.spare_data (j + 1) (set levels j (sub32 e.virtual_corner 1)) rows)
unfolding level_map
level_map-cons n curr j levels e rows =
    (λ a. rw a refl, λ a b. rw (a, b) refl, λ a b c. rw (a, b, c) refl, λ a b c. rw (a, b, c) refl)

level_map-stop :
    (n curr j : ℕ) (levels : List ℕ)
    → curr == max_mem_acc_levels ≡ true
    → level_map (suc n) curr j levels [] ≡ ok levels
unfolding level_map
level_map-stop n curr j levels top = rw top refl

-- The boundaries' step.
boundaries-cons :
    (n curr : ℕ) (e : OsmEntry) (rows : List OsmEntry)
    → let r = boundaries (suc n) curr (e ∷ rows) in
      (curr == max_mem_acc_levels ≡ true → r ≡ [])
      × (curr == max_mem_acc_levels ≡ false
          → e.spare_data == curr ≡ true
          → r ≡ boundaries n e.spare_data rows)
      × (curr == max_mem_acc_levels ≡ false
          → e.spare_data == curr ≡ false
          → r ≡ sub32 e.virtual_corner 1 ∷ boundaries n e.spare_data rows)
boundaries-cons n curr e rows = (λ a. rw a refl, λ a b. rw (a, b) refl, λ a b. rw (a, b) refl)

room :
    (j : ℕ)
    → (leb max_mem_acc_levels j ≡ true) × (3 ≤ j) ⊎ (leb max_mem_acc_levels j ≡ false) × (j < 3)
room j = ground arith

-- What the loop makes of the rows: it writes the boundaries, if they fit.
abbrev Fits : ℕ → ℕ → ℕ → List ℕ → List OsmEntry → List ℕ → Type 0
Fits n curr j levels rows bs =
    (j + length bs ≤ 3) × (level_map n curr j levels rows ≡ ok (written levels j bs))
    ⊎ (3 < j + length bs) × (level_map n curr j levels rows ≡ fault)

level_map-boundaries :
    (n curr j : ℕ) (levels : List ℕ) (rows : List OsmEntry)
    → n ≤ length rows
    → j ≤ 3
    → Fits n curr j levels rows (boundaries n curr rows)
level_map-boundaries zero curr j levels rows len small = unfold level_map in inl (omega arith, refl)
level_map-boundaries (suc n) curr j levels [] len small = absurd (omega arith)
level_map-boundaries (suc n) curr j levels (e ∷ rows) len small =
    let (stop, keeps, overflow, changes) = level_map-cons n curr j levels e rows in
    let (stop', keeps', changes') = boundaries-cons n curr e rows in
    elim (Bool-cases (curr == max_mem_acc_levels)) [
      | inl top ↦
          subst (Fits (suc n) curr j levels (e ∷ rows)) (sym (stop' top))
            (inl (omega arith, stop top))
      | inr more ↦ elim (Bool-cases (e.spare_data == curr)) [
        | inl same ↦ subst (Fits (suc n) curr j levels (e ∷ rows)) (sym (keeps' more same)) (
            rw (keeps more same)
              (level_map-boundaries n e.spare_data j levels rows (omega arith) small))
        | inr other ↦
            subst (Fits (suc n) curr j levels (e ∷ rows)) (sym (changes' more other))
              (elim (room j) [
                | inl (full, high) ↦ inr (omega arith, overflow more other full)
                | inr (free, low) ↦
                    let b = sub32 e.virtual_corner 1 in
                    rw (changes more other free) (
                      moved j levels b _ _ (
                        level_map-boundaries n e.spare_data (j + 1) (set levels j b) rows
                          (omega arith) (omega arith)))
              ])
      ]
    ]
  where
    moved :
        (j : ℕ) (levels : List ℕ) (b : ℕ) (bs : List ℕ) (r : Result (List ℕ))
        → (j + 1 + length bs ≤ 3) × (r ≡ ok (written (set levels j b) (j + 1) bs))
          ⊎ (3 < j + 1 + length bs) × (r ≡ fault)
        → (j + length (b ∷ bs) ≤ 3) × (r ≡ ok (written levels j (b ∷ bs)))
          ⊎ (3 < j + length (b ∷ bs)) × (r ≡ fault)
    moved j levels b bs r (inl (fits, e)) = inl (omega arith, e)
    moved j levels b bs r (inr (over, e)) = inr (omega arith, e)

-- Three cells that hold a list of up to three, and 0 past it.
abbrev pub three : List ℕ → List ℕ
three bs = get_or bs 0 0 ∷ get_or bs 1 0 ∷ get_or bs 2 0 ∷ []

-- The map of the rows in use holds the corner below each row that changes the level, up to the
-- highest level, where these are at most three; a fourth is written past the end of the map.
pub level_map-three :
    (n curr : ℕ) (rows : List OsmEntry)
    → n ≤ length rows
    → let bs = boundaries n curr rows in
      let r = level_map n curr 0 (0 ∷ 0 ∷ 0 ∷ []) rows in
      (length bs ≤ 3) × (r ≡ ok (three bs)) ⊎ (3 < length bs) × (r ≡ fault)
level_map-three n curr rows len = start _ _ (level_map-boundaries n curr 0 _ rows len (omega arith))
  where
    start :
        (bs : List ℕ) (r : Result (List ℕ))
        → (0 + length bs ≤ 3) × (r ≡ ok (written (0 ∷ 0 ∷ 0 ∷ []) 0 bs))
          ⊎ (3 < 0 + length bs) × (r ≡ fault)
        → (length bs ≤ 3) × (r ≡ ok (three bs)) ⊎ (3 < length bs) × (r ≡ fault)
    start [] r (inl (fits, e)) = inl (omega arith, e)
    start (a ∷ []) r (inl (fits, e)) = inl (omega arith, e)
    start (a ∷ b ∷ []) r (inl (fits, e)) = inl (omega arith, e)
    start (a ∷ b ∷ c ∷ []) r (inl (fits, e)) = inl (omega arith, e)
    start (a ∷ b ∷ c ∷ d ∷ bs) r (inl (fits, e)) = absurd (omega arith)
    start bs r (inr (over, e)) = inr (omega arith, e)
