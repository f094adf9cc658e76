-- ===== src/Paths/Invariant.antt =====
-- The invariant of Dijkstra's loop, and that one round keeps it.
use mathlib.Core.Path.{subst₂}
use cmu_mixnet.Prelude.{
  ℕ, suc, ◌+◌, ◌*◌, ◌≤◌, ◌<◌, ◌≡◌, refl, sym, ap, subst, ◌∙◌, ◌⊎◌, inl, inr, true, false, some,
  List, [], ◌∷◌, ◌++◌, Memᴰ, arith, length, length-append,
}
use cmu_mixnet.Packet.{LinkParams}
use cmu_mixnet.Topology.{Graph, vertex_at, id_find}
use cmu_mixnet.Topology.Find.{id_find_lem}
use cmu_mixnet.Paths.{SpVertex, infinite_cost, sp_at, relax, settle}
use cmu_mixnet.Paths.Walk.{Walk, step, IsSized}
use cmu_mixnet.Paths.Pick.{IsOpen}
use cmu_mixnet.Paths.Count.{count_settled, count_settled-set, count_settled_ext, count_settled-lt}
use cmu_mixnet.Paths.Relax.{
  relax_row, relax_flag, relax_le, relax_covers, length-relax, length-settle, settle_row,
}

module _ (g : Graph) (self : ℕ) where
  pub record Inv (sp : List SpVertex) : Type 0 where
    pub size : length sp ≡ length g.v
    pub source : (sp_at sp self).cost ≡ 0
    pub capped : (i : ℕ) → (sp_at sp i).cost ≤ infinite_cost
    pub finite : (i : ℕ) → (sp_at sp i).settled ≡ true → (sp_at sp i).cost < infinite_cost
    pub bound :
        (i : ℕ)
        → (sp_at sp i).cost < infinite_cost
        → (sp_at sp i).cost ≤ 65535 * length (sp_at sp i).path
    pub short : (i : ℕ) → length (sp_at sp i).path ≤ count_settled sp
    pub ordered :
        (x y : ℕ)
        → (sp_at sp x).settled ≡ true
        → (sp_at sp y).settled ≡ false
        → (sp_at sp x).cost ≤ (sp_at sp y).cost
    pub relaxed :
        (x : ℕ) (l : LinkParams) (w : ℕ)
        → (sp_at sp x).settled ≡ true
        → Memᴰ l (vertex_at g x).links
        → id_find g l.neighbor_mixaddr ≡ some w
        → (sp_at sp w).cost ≤ (sp_at sp x).cost + l.cost
    pub walks :
        (i : ℕ)
        → (sp_at sp i).cost < infinite_cost
        → Walk g self i (sp_at sp i).cost (sp_at sp i).path

  -- One round: vertex `u` is open and no open vertex is cheaper.
  module _ (sized : IsSized g) (sp : List SpVertex) (inv : Inv sp) (u : ℕ) (lt : u < length sp)
      (is_open : IsOpen (sp_at sp u))
      (least : (i : ℕ) → (sp_at sp i).settled ≡ false → (sp_at sp u).cost ≤ (sp_at sp i).cost) where
    abbrev pub links : List LinkParams
    links = (vertex_at g u).links

    abbrev pub settled_rows : List SpVertex
    settled_rows = settle sp u

    abbrev pub next_rows : List SpVertex
    next_rows = relax g u links settled_rows

    u_finite : (sp_at sp u).cost < infinite_cost
    u_finite = omega (arith, inv.capped u, is_open.1)

    settle_keeps :
        (i : ℕ)
        → ((sp_at settled_rows i).cost ≡ (sp_at sp i).cost)
          × ((sp_at settled_rows i).path ≡ (sp_at sp i).path)
    settle_keeps i = ground (arith, settle_row sp u i lt)

    settle_settled :
        (i : ℕ) → (sp_at settled_rows i).settled ≡ true → (u ≡ i) ⊎ ((sp_at sp i).settled ≡ true)
    settle_settled i h = ground (arith, settle_row sp u i lt)

    settle_unsettled :
        (i : ℕ) → (sp_at settled_rows i).settled ≡ false → (sp_at sp i).settled ≡ false
    settle_unsettled i h = ground (arith, settle_row sp u i lt)

    settle_self : (sp_at settled_rows u).settled ≡ true
    settle_self = ground (arith, settle_row sp u u lt)

    -- The cost of a settled vertex is at most that of `u`.
    settled-le-u :
        (i : ℕ) → (sp_at settled_rows i).settled ≡ true → (sp_at sp i).cost ≤ (sp_at sp u).cost
    settled-le-u i h = elim (settle_settled i h) [
      | inl e ↦ subst (λ k. (sp_at sp k).cost ≤ (sp_at sp u).cost) e (omega arith)
      | inr s ↦ inv.ordered i u s is_open.0
    ]

    pub count_next : count_settled next_rows ≡ suc (count_settled sp)
    unfolding settle
    count_next =
        count_settled_ext settled_rows next_rows (length-relax g u links settled_rows)
          (relax_flag g u links settled_rows)
        ∙ count_settled-set sp u (record (sp_at sp u) { settled = true }) lt is_open.0 refl

    -- The uint32_t sum does not wrap.
    no_wrap : (l : LinkParams) → Memᴰ l links → (sp_at sp u).cost + l.cost < infinite_cost
    no_wrap l m = omega (
      arith,
      sized.count,
      sized.costs u l m,
      inv.bound u u_finite,
      inv.short u,
      inv.size,
      count_settled-lt sp u lt is_open.0,
    )

    -- A row after the round: as it was but for its flag, or improved over a link of `u`.
    row_cases :
        (i : ℕ)
        → (((sp_at next_rows i).cost ≡ (sp_at sp i).cost)
            × ((sp_at next_rows i).path ≡ (sp_at sp i).path))
          ⊎ ((l : LinkParams) × Memᴰ l links
              × (id_find g l.neighbor_mixaddr ≡ some i)
              × ((sp_at next_rows i).cost ≡ (sp_at sp u).cost + l.cost)
              × ((sp_at next_rows i).path ≡ (sp_at sp u).path ++ l.neighbor_mixaddr ∷ []))
    row_cases i = elim (relax_row g u links settled_rows i settle_self) [
      | inl same ↦
          inl
            (ap SpVertex.cost same ∙ (settle_keeps i).0, ap SpVertex.path same ∙ (settle_keeps i).1)
      | inr (l, m, found, o, new) ↦ inr (
        l,
        m,
        found,
        omega (arith, ap SpVertex.cost new, (settle_keeps u).0, no_wrap l m),
        ap SpVertex.path new ∙ ap (λ (p : List ℕ). p ++ l.neighbor_mixaddr ∷ []) (settle_keeps u).1,
      )
    ]

    cost-le : (i : ℕ) → (sp_at next_rows i).cost ≤ (sp_at sp i).cost
    cost-le i = omega (arith, relax_le g u links settled_rows i, (settle_keeps i).0)

    flag_next : (i : ℕ) → (sp_at next_rows i).settled ≡ (sp_at settled_rows i).settled
    flag_next i = relax_flag g u links settled_rows i

    -- Nothing gets cheaper than `u`.
    u-le-next :
        (i : ℕ)
        → (sp_at settled_rows i).settled ≡ false
        → (sp_at sp u).cost ≤ (sp_at next_rows i).cost
    u-le-next i h = elim (row_cases i) [
      | inl (same, _) ↦ omega (arith, least i (settle_unsettled i h))
      | inr (l, _, _, new, _) ↦ omega arith
    ]

    settled_cost :
        (i : ℕ)
        → (sp_at settled_rows i).settled ≡ true
        → (sp_at next_rows i).cost ≡ (sp_at sp i).cost
    settled_cost i h = elim (relax_row g u links settled_rows i settle_self) [
      | inl same ↦ ap SpVertex.cost same ∙ (settle_keeps i).0
      | inr (l, m, found, o, new) ↦ cc
    ]

    next-relaxed :
        (x : ℕ) (l : LinkParams) (w : ℕ)
        → (sp_at next_rows x).settled ≡ true
        → Memᴰ l (vertex_at g x).links
        → id_find g l.neighbor_mixaddr ≡ some w
        → (sp_at next_rows w).cost ≤ (sp_at next_rows x).cost + l.cost
    next-relaxed x l w s m found =
        let s1 : (sp_at settled_rows x).settled ≡ true = sym (flag_next x) ∙ s in
        let in_range = (id_find_lem g l.neighbor_mixaddr w found).0 in
        elim (settle_settled x s1) [
          | inl e ↦
              let m' : Memᴰ l links = subst (λ k. Memᴰ l (vertex_at g k).links) (sym e) m in
              let covered =
                relax_covers g u links settled_rows l w settle_self m' found
                  (omega (arith, length-settle sp u, inv.size))
                  (λ h. omega (arith, settled-le-u w h, (settle_keeps w).0, (settle_keeps u).0))
                  (omega (arith, no_wrap l m', (settle_keeps u).0)) in
              omega (
                arith,
                covered,
                settled_cost x s1,
                (settle_keeps u).0,
                ap (λ k. (sp_at sp k).cost) e,
              )
          | inr old ↦ omega (arith, inv.relaxed x l w old m found, cost-le w, settled_cost x s1)
        ]

    next-walks :
        (i : ℕ)
        → (sp_at next_rows i).cost < infinite_cost
        → Walk g self i (sp_at next_rows i).cost (sp_at next_rows i).path
    next-walks i h = elim (row_cases i) [
      | inl (c, p) ↦ subst₂ (λ x y. Walk g self i x y) (sym c) (sym p) (inv.walks i (omega arith))
      | inr (l, m, found, c, p) ↦
          subst₂ (λ x y. Walk g self i x y) (sym c) (sym p)
            (step l i (inv.walks u u_finite) m found)
    ]

    next-bound :
        (i : ℕ)
        → (sp_at next_rows i).cost < infinite_cost
        → (sp_at next_rows i).cost ≤ 65535 * length (sp_at next_rows i).path
    next-bound i h = elim (row_cases i) [
      | inl (c, p) ↦ omega (arith, inv.bound i, ap length p)
      | inr (l, m, found, c, p) ↦ omega (
        arith,
        inv.bound u u_finite,
        sized.costs u l m,
        ap length p,
        length-append (sp_at sp u).path (l.neighbor_mixaddr ∷ []),
      )
    ]

    next-short : (i : ℕ) → length (sp_at next_rows i).path ≤ count_settled next_rows
    next-short i = elim (row_cases i) [
      | inl (c, p) ↦ omega (arith, inv.short i, ap length p, count_next)
      | inr (l, m, found, c, p) ↦ omega (
        arith,
        inv.short u,
        count_next,
        ap length p,
        length-append (sp_at sp u).path (l.neighbor_mixaddr ∷ []),
      )
    ]

    pub next-Inv : Inv next_rows
    next-Inv = record {
      size = length-relax g u links settled_rows ∙ length-settle sp u ∙ inv.size;
      source = omega (arith, cost-le self, inv.source);
      capped = λ i. omega (arith, cost-le i, inv.capped i);
      finite = λ i h. omega (arith, cost-le i, settled-le-u i (sym (flag_next i) ∙ h), u_finite);
      bound = next-bound;
      short = next-short;
      ordered = λ x y hx hy.
          let sx = sym (flag_next x) ∙ hx in
          omega (arith, settled_cost x sx, settled-le-u x sx, u-le-next y (sym (flag_next y) ∙ hy));
      relaxed = next-relaxed;
      walks = next-walks;
    }
