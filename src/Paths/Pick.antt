-- ===== src/Paths/Pick.antt =====
-- The scan for the next vertex to settle finds an open vertex of least cost.
use cmu_mixnet.Prelude.{
  ℕ, zero, suc, ◌+◌, ◌≤◌, ◌<◌, ◌≡◌, refl, subst, ◌≢◌, ◌⊎◌, inl, inr, true, false, Option, none,
  some, List, [], ◌∷◌, arith, length,
}
use cmu_mixnet.Paths.{SpVertex, infinite_cost, sp_at, path_is_better, choose, pick}

-- A vertex that some path has reached and that is not settled.
abbrev pub IsOpen : SpVertex → Type 0
IsOpen x = (x.settled ≡ false) × (x.cost ≢ infinite_cost)

abbrev pub best_cost : Option (ℕ × SpVertex) → ℕ
best_cost none = infinite_cost
best_cost (some (u, x)) = x.cost

pub path_is_better-le :
    (c : ℕ) (p : List ℕ) (d : ℕ) (q : List ℕ) → path_is_better c p d q ≡ true → c ≤ d
unfolding path_is_better
path_is_better-le c p d q h = ground arith

pub path_is_better-false :
    (c : ℕ) (p : List ℕ) (d : ℕ) (q : List ℕ) → path_is_better c p d q ≡ false → d ≤ c
unfolding path_is_better
path_is_better-false c p d q h = ground arith

choose-le-best :
    (i : ℕ) (x : SpVertex) (best : Option (ℕ × SpVertex))
    → x.cost ≤ infinite_cost
    → best_cost (choose i x best) ≤ best_cost best
unfolding choose
choose-le-best i x none h = ground arith
choose-le-best i x (some (u, y)) h = ground (arith, path_is_better-le x.cost x.path y.cost y.path)

choose-le :
    (i : ℕ) (x : SpVertex) (best : Option (ℕ × SpVertex))
    → IsOpen x
    → best_cost (choose i x best) ≤ x.cost
unfolding choose
choose-le i x none h = ground arith
choose-le i x (some (u, y)) h = ground (arith, path_is_better-false x.cost x.path y.cost y.path)

choose_cases :
    (i : ℕ) (x : SpVertex) (best : Option (ℕ × SpVertex))
    → (choose i x best ≡ best) ⊎ (IsOpen x × (choose i x best ≡ some (i, x)))
unfolding choose
choose_cases i x none = ground arith
choose_cases i x (some (u, y)) = ground arith

pick-le-best :
    (xs : List SpVertex) (i : ℕ) (best : Option (ℕ × SpVertex))
    → ((j : ℕ) → (sp_at xs j).cost ≤ infinite_cost)
    → best_cost (pick xs i best) ≤ best_cost best
unfolding pick
pick-le-best [] i best capped = omega arith
pick-le-best (x ∷ xs) i best capped = omega (
  arith,
  pick-le-best xs (i + 1) (choose i x best) (λ j. capped (suc j)),
  choose-le-best i x best (capped zero),
)

pub pick-le :
    (xs : List SpVertex) (i : ℕ) (best : Option (ℕ × SpVertex)) (j : ℕ)
    → ((k : ℕ) → (sp_at xs k).cost ≤ infinite_cost)
    → IsOpen (sp_at xs j)
    → best_cost (pick xs i best) ≤ (sp_at xs j).cost
unfolding pick
pick-le [] i best j capped h = absurd (h.1 refl)
pick-le (x ∷ xs) i best zero capped h =
    omega
      (arith, pick-le-best xs (i + 1) (choose i x best) (λ j. capped (suc j)), choose-le i x best h)
pick-le (x ∷ xs) i best (suc j) capped h =
    pick-le xs (i + 1) (choose i x best) j (λ k. capped (suc k)) h

-- Where the result of the scan comes from.
pick_cases :
    (xs : List SpVertex) (i : ℕ) (best : Option (ℕ × SpVertex)) (u : ℕ) (x : SpVertex)
    → pick xs i best ≡ some (u, x)
    → (best ≡ some (u, x)) ⊎ ((j : ℕ) × (u ≡ i + j) × (j < length xs) × (sp_at xs j ≡ x) × IsOpen x)
unfolding pick
pick_cases [] i best u x h = inl h
pick_cases (y ∷ xs) i best u x h = elim (pick_cases xs (i + 1) (choose i y best) u x h) [
  | inl now ↦ elim (choose_cases i y best) [
    | inl kept ↦ inl (ground arith)
    | inr (o, new) ↦
        let e : y ≡ x = ground arith in inr (0, ground arith, omega arith, e, subst IsOpen e o)
  ]
  | inr (j, eu, lt, at, o) ↦ inr (suc j, omega arith, omega arith, at, o)
]

-- The vertex that the scan finds is open.
pub pick-IsOpen :
    (sp : List SpVertex) (u : ℕ) (x : SpVertex)
    → pick sp 0 none ≡ some (u, x)
    → (u < length sp) × (sp_at sp u ≡ x) × IsOpen x
pick-IsOpen sp u x h = elim (pick_cases sp 0 none u x h) [
  | inl never ↦ cc
  | inr (j, eu, lt, at, o) ↦ let e : u ≡ j = omega arith in rw e (lt, at, o)
]
