-- ===== src/Routing/Reply.antt =====
-- The reply to a PING goes back the way the request came.
use mathlib.Core.List.{reverse-reverse}
use mathlib.Core.Path.{ap₂}
use cmu_mixnet.Prelude.{
  ℕ, zero, suc, ◌+◌, ◌-◌, ◌*◌, ◌/◌, ◌^◌, ◌≤◌, ◌<◌, ◌≡◌, refl, sym, ap, ◌∙◌, inl, inr, Bool, true,
  ◌&&◌, ◌||◌, some, List, reverse, arith, ◌==◌, ltb, leb, Bool-cases, if◌then◌else◌, length,
  length-set, length-reverse, get_or, set, get_or-set, get_or_ext, get_or-reverse, u16,
}
use cmu_mixnet.Packet.{Body, user_bytes, ping_body, Routed}
use cmu_mixnet.Config.{Alloc, reply_copy}
use cmu_mixnet.Routing.{swap_hops, answered, make_ping_reply}

-- Position `j` belongs to a pair that the rounds from `i` on swap.
abbrev swapped : ℕ → ℕ → ℕ → ℕ → Bool
swapped n i len j = (leb i j && ltb j (i + n)) || (leb (len - i - n) j && ltb j (len - i))

-- One round of the loop, for the pair at `i`.
abbrev swap_pair : ℕ → ℕ → List ℕ → List ℕ
swap_pair i len route =
    set (set route i (get_or route (len - 1 - i) 0)) (len - 1 - i) (get_or route i 0)

swap_pair_at :
    (i len : ℕ) (route : List ℕ) (j : ℕ)
    → length route ≡ len
    → 2 * (i + 1) ≤ len
    → j < len
    → get_or (swap_pair i len route) j 0
      ≡ (if (j == i) || (j == len - 1 - i) then get_or route (len - 1 - j) 0 else get_or route j 0)
swap_pair_at i len route j e fits lt =
    let first = get_or-set route i j (get_or route (len - 1 - i) 0) 0 in
    let second =
      get_or-set (set route i (get_or route (len - 1 - i) 0)) (len - 1 - i) j (get_or route i 0)
        0 in
    let n = length-set route i (get_or route (len - 1 - i) 0) in
    elim (Bool-cases (j == i)) [
      | inl y ↦
          let q : j ≡ i = ground arith in
          ground (arith, first, second, n, ap (λ (k : ℕ). get_or route (len - 1 - k) 0) q)
      | inr y ↦ elim (Bool-cases (j == len - 1 - i)) [
        | inl z ↦
            let q : len - 1 - j ≡ i = ground arith in
            ground (arith, first, second, n, ap (λ (k : ℕ). get_or route k 0) q)
        | inr z ↦ ground (arith, first, second, n)
      ]
    ]

length-swap_pair : (i len : ℕ) (route : List ℕ) → length (swap_pair i len route) ≡ length route
length-swap_pair i len route = length-set _ _ _ ∙ length-set _ _ _

swapped_step :
    (n i len j x y : ℕ)
    → 2 * (i + suc n) ≤ len
    → j < len
    → (if swapped n (i + 1) len j
        then (if (len - 1 - j == i) || (len - 1 - j == len - 1 - i) then x else y)
        else (if (j == i) || (j == len - 1 - i) then y else x))
      ≡ (if swapped (suc n) i len j then y else x)
swapped_step n i len j x y fits lt = ground arith

swap_hops_at :
    (n i len : ℕ) (route : List ℕ) (j : ℕ)
    → length route ≡ len
    → len ≤ 65535
    → 2 * (i + n) ≤ len
    → j < len
    → get_or (swap_hops n i len route) j 0
      ≡ (if swapped n i len j then get_or route (len - 1 - j) 0 else get_or route j 0)
unfolding swap_hops
swap_hops_at zero i len route j e small fits lt = ground arith
swap_hops_at (suc n) i len route j e small fits lt =
    let k : u16 (len + 2 ^ 16 - 1 - i) ≡ len - 1 - i = omega arith in
    let same_length = length-swap_pair i len route ∙ e in
    let rest =
      swap_hops_at n (i + 1) len (swap_pair i len route) j same_length small (omega arith) lt in
    let back : len - 1 - (len - 1 - j) ≡ j = omega arith in
    let at_j = swap_pair_at i len route j e (omega arith) lt in
    let at_mirror = swap_pair_at i len route (len - 1 - j) e (omega arith) (omega arith) in
    rw (k, rest, at_j, at_mirror, back) (swapped_step n i len j _ _ fits lt)

middle :
    (route : List ℕ) (j : ℕ)
    → j + j + 1 ≡ length route
    → get_or route (length route - 1 - j) 0 ≡ get_or route j 0
middle route j e =
    let k : length route - 1 - j ≡ j = omega arith in ap (λ (i : ℕ). get_or route i 0) k

length-swap_hops : (n i len : ℕ) (route : List ℕ) → length (swap_hops n i len route) ≡ length route
unfolding swap_hops
length-swap_hops zero i len route = refl
length-swap_hops (suc n) i len route =
    length-swap_hops n (i + 1) len _ ∙ length-set _ _ _ ∙ length-set _ _ _

-- Half as many swaps as there are hops reverse a route.
pub swap_hops-reverse :
    (route : List ℕ)
    → length route ≤ 65535
    → swap_hops (length route / 2) 0 (length route) route ≡ reverse route
swap_hops-reverse route small =
    let n = length route in
    let same = length-swap_hops (n / 2) 0 n route in
    get_or_ext 0 _ _ (same ∙ sym (length-reverse route)) (λ j lt.
      let lt' : j < n = omega (arith, same) in
      swap_hops_at (n / 2) 0 n route j refl small (omega arith) lt'
      ∙ ground (arith, middle route j)
      ∙ sym (get_or-reverse route j 0 lt'))

-- A routed packet whose header holds exactly the hops it announces.
unfoldable pub IsRouted : Routed → Type 0
IsRouted r = (length r.header.route ≡ r.header.route_length) × (r.header.route_length ≤ 65535)

-- The reply that `request` calls for.
pub reply_to : Routed → Routed
reply_to request = record request {
  header = record {
    src_address = request.header.dst_address;
    dst_address = request.header.src_address;
    route_length = request.header.route_length;
    hop_index = 0;
    route = reverse request.header.route;
  };
  body = answered request.body;
}

-- When the copy of a request whose header holds the hops it announces is granted, the reply has
-- the ends swapped, the hops in reverse order, the hop index at 0, the same declared size, and
-- the same payload with the request flag cleared.
pub make_ping_reply_lem :
    (m : Alloc) (request : Routed)
    → IsRouted request
    → m reply_copy 0 ≡ true
    → make_ping_reply m request ≡ some (reply_to request)
unfolding make_ping_reply IsRouted reply_to
make_ping_reply_lem m request (e, small) granted =
    let turned =
      ap (λ (n : ℕ). swap_hops (n / 2) 0 n request.header.route) (sym e)
      ∙ swap_hops-reverse request.header.route (omega (arith, e)) in
    rw (granted, turned) refl

-- The request, back at its start, with these hops and this payload.
abbrev pub replied : Routed → List ℕ → Body → Routed
replied request hops b = record request {
  header = record request.header { hop_index = 0; route = hops };
  body = b;
}

answered_twice : (b : Body) → answered (answered b) ≡ answered b
answered_twice (user_bytes b) = refl
answered_twice (ping_body p) = refl

-- The reply to a reply runs along the original route: under the conditions of
-- `make_ping_reply_lem`, both replies are made, and the second one has the request's ends and
-- its route.
pub make_ping_reply_twice :
    (m : Alloc) (request : Routed)
    → IsRouted request
    → m reply_copy 0 ≡ true
    → (make_ping_reply m request ≡ some (reply_to request))
      × (make_ping_reply m (reply_to request)
          ≡ some (replied request request.header.route (answered request.body)))
unfolding IsRouted reply_to
make_ping_reply_twice m request (e, small) granted = (
  make_ping_reply_lem m request (e, small) granted,
  make_ping_reply_lem m (reply_to request) (length-reverse request.header.route ∙ e, small) granted
      ∙ ap some (
          ap₂ (λ (hops : List ℕ) (b : Body). replied request hops b)
            (reverse-reverse request.header.route) (answered_twice request.body)),
)
