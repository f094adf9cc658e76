-- ===== src/Paths/Relax.antt =====
-- What the relaxation of one vertex's links does to the rows.
use mathlib.Core.List.Memᴰ
use cmu_mixnet.Prelude.{
  ℕ, ◌+◌, ◌≤◌, ◌<◌, ◌≡◌, refl, sym, ap, subst, ◌∙◌, ◌⊎◌, inl, inr, true, false, some, List, [], ◌∷◌,
  ◌++◌, Memᴰ, arith, ◌==◌, Option-cases, length, if◌then◌else◌, length-set, get_or-set, u32,
}
use cmu_mixnet.Packet.{LinkParams}
use cmu_mixnet.Topology.{Graph, id_find}
use cmu_mixnet.Paths.{SpVertex, infinite_cost, unreached, sp_at, relax_link, relax, settle}
use cmu_mixnet.Paths.Pick.{path_is_better-le, path_is_better-false}

-- A row after the link `l` of the row `from` improved it.
abbrev pub improved : SpVertex → LinkParams → SpVertex → SpVertex
improved from l to = record to {
  cost = u32 (from.cost + l.cost);
  path = from.path ++ l.neighbor_mixaddr ∷ [];
}

-- Row `i` is as it was, or one of the links leads to it and improved it.
abbrev pub Relaxed : Graph → SpVertex → List LinkParams → ℕ → SpVertex → SpVertex → Type 0
Relaxed g from ls i row row' =
    (row' ≡ row)
    ⊎ ((l : LinkParams) × Memᴰ l ls
        × (id_find g l.neighbor_mixaddr ≡ some i)
        × (row.settled ≡ false)
        × (row' ≡ improved from l row))

module _ (g : Graph) (u : ℕ) where
  pub length-relax_link :
      (l : LinkParams) (sp : List SpVertex) → length (relax_link g u l sp) ≡ length sp
  unfolding relax_link
  length-relax_link l sp = elim (Option-cases (id_find g l.neighbor_mixaddr)) [
    | inl e ↦ ground arith
    | inr (w, e) ↦ ground (arith, length-set sp w (improved (sp_at sp u) l (sp_at sp w)))
  ]

  pub length-relax :
      (ls : List LinkParams) (sp : List SpVertex) → length (relax g u ls sp) ≡ length sp
  unfolding relax
  length-relax [] sp = refl
  length-relax (l ∷ ls) sp = length-relax ls (relax_link g u l sp) ∙ length-relax_link l sp

  -- One link improves at most the row that it leads to, and never raises a cost.
  relax_link_row :
      (l : LinkParams) (sp : List SpVertex) (i : ℕ)
      → ((sp_at (relax_link g u l sp) i ≡ sp_at sp i)
          ⊎ ((id_find g l.neighbor_mixaddr ≡ some i)
              × ((sp_at sp i).settled ≡ false)
              × (sp_at (relax_link g u l sp) i ≡ improved (sp_at sp u) l (sp_at sp i))))
        × ((sp_at (relax_link g u l sp) i).cost ≤ (sp_at sp i).cost)
  unfolding relax_link
  relax_link_row l sp i = elim (Option-cases (id_find g l.neighbor_mixaddr)) [
    | inl e ↦ ground arith
    | inr (w, e) ↦
        let new = improved (sp_at sp u) l (sp_at sp w) in
        ground (
          arith,
          get_or-set sp w i new unreached,
          path_is_better-le new.cost new.path (sp_at sp w).cost (sp_at sp w).path,
        )
  ]

  -- The row that a link leads to is no dearer than the link allows.
  relax_link_covers :
      (l : LinkParams) (sp : List SpVertex) (w : ℕ)
      → id_find g l.neighbor_mixaddr ≡ some w
      → w < length sp
      → ((sp_at sp w).settled ≡ true → (sp_at sp w).cost ≤ (sp_at sp u).cost)
      → (sp_at sp u).cost + l.cost < infinite_cost
      → (sp_at (relax_link g u l sp) w).cost ≤ (sp_at sp u).cost + l.cost
  unfolding relax_link
  relax_link_covers l sp w e lt settled small =
      let new = improved (sp_at sp u) l (sp_at sp w) in
      ground (
        arith,
        get_or-set sp w w new unreached,
        path_is_better-false new.cost new.path (sp_at sp w).cost (sp_at sp w).path,
      )

  -- A settled row stays as it is.
  relax_link_settled :
      (l : LinkParams) (sp : List SpVertex) (i : ℕ)
      → (sp_at sp i).settled ≡ true
      → sp_at (relax_link g u l sp) i ≡ sp_at sp i
  relax_link_settled l sp i h = elim (relax_link_row l sp i).0 [
    | inl same ↦ same
    | inr (_, open_row, _) ↦ cc
  ]

  relax_link_flag :
      (l : LinkParams) (sp : List SpVertex) (i : ℕ)
      → (sp_at (relax_link g u l sp) i).settled ≡ (sp_at sp i).settled
  relax_link_flag l sp i = elim (relax_link_row l sp i).0 [
    | inl same ↦ ap SpVertex.settled same
    | inr (_, _, new) ↦ ap SpVertex.settled new
  ]

  -- One link, then the others.
  Relaxed-cons :
      (from : SpVertex) (l : LinkParams) (ls : List LinkParams) (i : ℕ) (a b c : SpVertex)
      → (b ≡ a)
        ⊎ ((id_find g l.neighbor_mixaddr ≡ some i) × (a.settled ≡ false) × (b ≡ improved from l a))
      → Relaxed g from ls i b c
      → Relaxed g from (l ∷ ls) i a c
  Relaxed-cons from l ls i a b c (inl same) (inl still) = inl (still ∙ same)
  Relaxed-cons from l ls i a b c (inl same) (inr (k, m, found, o, new)) =
      inr (k, Memᴰ.tail m, found, ground arith, ground arith)
  Relaxed-cons from l ls i a b c (inr (found, o, new)) (inl still) =
      inr (l, Memᴰ.head refl, found, o, still ∙ new)
  Relaxed-cons from l ls i a b c (inr (_, o, changed)) (inr (k, m, found, _, new)) =
      inr (k, Memᴰ.tail m, found, o, new ∙ ap (improved from k) changed)

  pub relax_row :
      (ls : List LinkParams) (sp : List SpVertex) (i : ℕ)
      → (sp_at sp u).settled ≡ true
      → Relaxed g (sp_at sp u) ls i (sp_at sp i) (sp_at (relax g u ls sp) i)
  unfolding relax
  relax_row [] sp i h = inl refl
  relax_row (l ∷ ls) sp i h =
      let sp' = relax_link g u l sp in
      let from : sp_at sp' u ≡ sp_at sp u = relax_link_settled l sp u h in
      Relaxed-cons (sp_at sp u) l ls i (sp_at sp i) (sp_at sp' i) (sp_at (relax g u ls sp') i)
        (relax_link_row l sp i).0
        (subst (λ x. Relaxed g x ls i (sp_at sp' i) (sp_at (relax g u ls sp') i)) from
          (relax_row ls sp' i (ap SpVertex.settled from ∙ h)))

  pub relax_flag :
      (ls : List LinkParams) (sp : List SpVertex) (i : ℕ)
      → (sp_at (relax g u ls sp) i).settled ≡ (sp_at sp i).settled
  unfolding relax
  relax_flag [] sp i = refl
  relax_flag (l ∷ ls) sp i = relax_flag ls (relax_link g u l sp) i ∙ relax_link_flag l sp i

  pub relax_le :
      (ls : List LinkParams) (sp : List SpVertex) (i : ℕ)
      → (sp_at (relax g u ls sp) i).cost ≤ (sp_at sp i).cost
  unfolding relax
  relax_le [] sp i = omega arith
  relax_le (l ∷ ls) sp i =
      omega (arith, relax_le ls (relax_link g u l sp) i, (relax_link_row l sp i).1)

  pub relax_covers :
      (ls : List LinkParams) (sp : List SpVertex) (l : LinkParams) (w : ℕ)
      → (sp_at sp u).settled ≡ true
      → Memᴰ l ls
      → id_find g l.neighbor_mixaddr ≡ some w
      → w < length sp
      → ((sp_at sp w).settled ≡ true → (sp_at sp w).cost ≤ (sp_at sp u).cost)
      → (sp_at sp u).cost + l.cost < infinite_cost
      → (sp_at (relax g u ls sp) w).cost ≤ (sp_at sp u).cost + l.cost
  unfolding relax
  relax_covers [] sp l w h m e lt st small = absurd (Memᴰ.not-nil m)
  relax_covers (k ∷ ls) sp l w h m e lt st small =
      let sp' = relax_link g u k sp in
      let from : sp_at sp' u ≡ sp_at sp u = relax_link_settled k sp u h in
      let from_cost : (sp_at sp' u).cost ≡ (sp_at sp u).cost = ap SpVertex.cost from in
      elim (Memᴰ.cases_cons m) [
        | inl here ↦
            let now : (sp_at sp' w).cost ≤ (sp_at sp u).cost + l.cost =
              subst
                (λ (x : LinkParams).
                  (sp_at (relax_link g u x sp) w).cost ≤ (sp_at sp u).cost + l.cost)
                here (relax_link_covers l sp w e lt st small) in
            omega (arith, relax_le ls sp' w, now)
        | inr later ↦
            let rest =
              relax_covers ls sp' l w (ap SpVertex.settled from ∙ h) later e
                (subst (λ n. w < n) (sym (length-relax_link k sp)) lt)
                (λ s.
                  omega (arith, st (sym (relax_link_flag k sp w) ∙ s), (relax_link_row k sp w).1))
                (omega arith) in
            omega (arith, rest)
      ]

-- The rows after `u` is settled.
pub settle_row :
    (sp : List SpVertex) (u i : ℕ)
    → u < length sp
    → sp_at (settle sp u) i
      ≡ (if u == i then record (sp_at sp i) { settled = true } else sp_at sp i)
unfolding settle
settle_row sp u i lt =
    ground (arith, get_or-set sp u i (record (sp_at sp u) { settled = true }) unreached)

pub length-settle : (sp : List SpVertex) (u : ℕ) → length (settle sp u) ≡ length sp
unfolding settle
length-settle sp u = length-set sp u (record (sp_at sp u) { settled = true })
