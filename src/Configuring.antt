-- ===== src/Configuring.antt =====
-- A node's configuration on its way from the test's graph through the TOPOLOGY request into the
-- fragment (run_state_create_topology of framework/orchestrator.cpp and init_node_context of
-- framework/fragment.cpp).
use mathlib.Core.Path.{ap₂}
use cmu_mixnet.Prelude.{
  ℕ, zero, suc, ◌+◌, ◌*◌, ◌≤◌, ◌<◌, ◌≡◌, refl, sym, ap, ◌∙◌, Bool, true, false, not, none, some,
  List, [], ◌∷◌, arith, ◌==◌, if◌then◌else◌, length, get_or,
}
use cmu_mixnet.Config.{Config}
use cmu_mixnet.Message.{topology, Buffer, get16, put8, put16, set_fragment_id}
use cmu_mixnet.Message.Canary.{payload_size}
use cmu_mixnet.Headers.{Says, unchanged-Says, sent-Says, accepted_request}
use cmu_mixnet.Control.States.{get32, words_from, init_node_context}
use cmu_mixnet.Control
use cmu_mixnet.TestGraph.{TestNode, TestGraph, node_at, neighbors_of}
use cmu_mixnet.Orchestrator.Foreach.{request_for}
use cmu_mixnet.Orchestrator.Asking.{readdressed-Says}
use cmu_mixnet.Orchestrator.Payloads.{put32, put_costs, fill_topology}

put_costs_before :
    (n nid : ℕ) (costs : List ℕ) (b : Buffer) (j : ℕ)
    → j < 24 + 2 * nid
    → put_costs n nid costs b j ≡ b j
unfolding put_costs
put_costs_before zero nid costs b j lt = refl
put_costs_before (suc n) nid costs b j lt =
    put_costs_before n (nid + 1) costs (put16 (24 + 2 * nid) (get_or costs nid 0) b) j (omega arith)
    ∙ ground arith

-- The costs from `nid` on.
costs_from : ℕ → ℕ → List ℕ → List ℕ
costs_from zero nid costs = []
costs_from (suc n) nid costs = get_or costs nid 0 ∷ costs_from n (nid + 1) costs

costs_from_cons :
    (n nid x : ℕ) (xs : List ℕ) → costs_from n (nid + 1) (x ∷ xs) ≡ costs_from n nid xs
unfolding costs_from
costs_from_cons zero nid x xs = refl
costs_from_cons (suc n) nid x xs =
    ap₂ (λ (y : ℕ) (ys : List ℕ). y ∷ ys) (ground arith) (costs_from_cons n (nid + 1) x xs)

costs_from_all : (costs : List ℕ) → costs_from (length costs) 0 costs ≡ costs
unfolding costs_from
costs_from_all [] = refl
costs_from_all (x ∷ xs) =
    ap (λ (ys : List ℕ). x ∷ ys) (costs_from_cons (length xs) 0 x xs ∙ costs_from_all xs)

words_from_same :
    (b b' : Buffer) (i n : ℕ)
    → ((j : ℕ) → i ≤ j → j < i + 2 * n → b' j ≡ b j)
    → words_from b' i n ≡ words_from b i n
words_from_same b b' i zero same = refl
words_from_same b b' i (suc n) same =
    let first = same i (omega arith) (omega arith) in
    let second = same (i + 1) (omega arith) (omega arith) in
    ap₂ (λ (y : ℕ) (ys : List ℕ). y ∷ ys) (omega (arith, first, second))
      (words_from_same b b' (i + 2) n (λ j lo hi. same j (omega arith) (omega arith)))

words_from-put_costs :
    (n nid : ℕ) (costs : List ℕ) (b : Buffer)
    → ((p : ℕ) → get_or costs p 0 ≤ 65535)
    → words_from (put_costs n nid costs b) (24 + 2 * nid) n ≡ costs_from n nid costs
unfolding put_costs costs_from
words_from-put_costs zero nid costs b small = refl
words_from-put_costs (suc n) nid costs b small =
    let b1 = put16 (24 + 2 * nid) (get_or costs nid 0) b in
    let low = put_costs_before n (nid + 1) costs b1 (24 + 2 * nid) (omega arith) in
    let high = put_costs_before n (nid + 1) costs b1 (24 + 2 * nid + 1) (omega arith) in
    let fits = small nid in
    ap₂ (λ (y : ℕ) (ys : List ℕ). y ∷ ys) (ground (arith, low, high))
      (ap (λ (i : ℕ). words_from (put_costs n (nid + 1) costs b1) i n) (omega arith)
        ∙ words_from-put_costs n (nid + 1) costs b1 small)

config_ext :
    (a b : Config)
    → a.node_addr ≡ b.node_addr
    → a.num_neighbors ≡ b.num_neighbors
    → a.root_hello_interval_ms ≡ b.root_hello_interval_ms
    → a.reelection_interval_ms ≡ b.reelection_interval_ms
    → a.do_random_routing ≡ b.do_random_routing
    → a.mixing_factor ≡ b.mixing_factor
    → a.link_costs ≡ b.link_costs
    → a ≡ b
config_ext a b h1 h2 h3 h4 h5 h6 h7 = cc

-- What a node of the test's graph is configured with.
abbrev pub test_config : TestGraph → (reelection_ms root_hello_ms : ℕ) → ℕ → Config
test_config g reelection_ms root_hello_ms idx = record {
  node_addr = (node_at g idx).mixaddr;
  num_neighbors = length (neighbors_of g idx);
  root_hello_interval_ms = root_hello_ms;
  reelection_interval_ms = reelection_ms;
  do_random_routing = (node_at g idx).do_random_routing;
  mixing_factor = (node_at g idx).mixing_factor;
  link_costs = (node_at g idx).link_costs;
}

-- The fields are within their types, and there is a cost for each of not too many neighbors.
pub record IsEncodable (g : TestGraph) (reelection_ms root_hello_ms idx : ℕ) : Type 0 where
  pub id : idx < 65536
  pub mixaddr : (node_at g idx).mixaddr < 65536
  pub mixing : (node_at g idx).mixing_factor < 65536
  pub reelection : reelection_ms < 4294967296
  pub root_hello : root_hello_ms < 4294967296
  pub costs : (p : ℕ) → get_or (node_at g idx).link_costs p 0 ≤ 65535
  pub beside : length (node_at g idx).link_costs ≡ length (neighbors_of g idx)
  pub room : 16 + length (neighbors_of g idx) * 2 ≤ 65523

-- The seven fields before the costs.
abbrev briefed : ℕ → ℕ → ℕ → Bool → ℕ → ℕ → Buffer → Buffer
briefed mixaddr n mixing random reelection_ms root_hello_ms b = put32 16 root_hello_ms (
    put32 20 reelection_ms
      (put8 12 (if random then 1 else 0) (put16 14 mixing (put16 10 n (put16 8 mixaddr b)))))

briefed_fields :
    (mixaddr n mixing : ℕ) (random : Bool) (reelection_ms root_hello_ms : ℕ) (b : Buffer)
    → mixaddr < 65536
    → n < 65536
    → mixing < 65536
    → reelection_ms < 4294967296
    → root_hello_ms < 4294967296
    → (let b' = briefed mixaddr n mixing random reelection_ms root_hello_ms b in
        (get16 b' 8 ≡ mixaddr)
        × (get16 b' 10 ≡ n)
        × (not (b' 12 == 0) ≡ random)
        × (get16 b' 14 ≡ mixing)
        × (get32 b' 16 ≡ root_hello_ms)
        × (get32 b' 20 ≡ reelection_ms))
briefed_fields mixaddr n mixing true reelection_ms root_hello_ms b h1 h2 h3 h4 h5 =
    (ground arith, ground arith, refl, ground arith, ground arith, ground arith)
briefed_fields mixaddr n mixing false reelection_ms root_hello_ms b h1 h2 h3 h4 h5 =
    (ground arith, ground arith, refl, ground arith, ground arith, ground arith)

-- Equal bytes make equal configurations.
init_same :
    (b b' : Buffer) (n : ℕ)
    → get16 b 10 ≡ n
    → ((j : ℕ) → 8 ≤ j → j < 24 + 2 * n → b' j ≡ b j)
    → (init_node_context b').0 ≡ (init_node_context b).0
unfolding init_node_context
init_same b b' n count same =
    let at : (j : ℕ) → 8 ≤ j → j < 24 → b' j ≡ b j = λ j lo hi. same j lo (omega arith) in
    let word : (i : ℕ) → 8 ≤ i → i < 23 → get16 b' i ≡ get16 b i = λ i lo hi.
      ap₂ (λ (x y : ℕ). x + 256 * y) (at i lo (omega arith))
        (at (i + 1) (omega arith) (omega arith)) in
    let w10 = word 10 (omega arith) (omega arith) in
    let costs : words_from b' 24 (get16 b' 10) ≡ words_from b 24 (get16 b 10) =
      ap (words_from b' 24) w10
      ∙ words_from_same b b' 24 (get16 b 10) (λ j lo hi. same j (omega arith) (omega arith)) in
    rw
      (
        word 8 (omega arith) (omega arith),
        costs,
        w10,
        word 14 (omega arith) (omega arith),
        word 16 (omega arith) (omega arith),
        word 18 (omega arith) (omega arith),
        word 20 (omega arith) (omega arith),
        word 22 (omega arith) (omega arith),
        at 12 (omega arith) (omega arith),
      )
      refl

module _ (g : TestGraph) (reelection_ms root_hello_ms idx : ℕ) (b : Buffer)
    (e : IsEncodable g reelection_ms root_hello_ms idx) where
  abbrev node : TestNode
  node = node_at g idx

  abbrev count : ℕ
  count = length (neighbors_of g idx)

  abbrev base : Buffer
  base =
      briefed node.mixaddr count node.mixing_factor node.do_random_routing reelection_ms
        root_hello_ms b

  abbrev payload : Buffer
  payload = put_costs count 0 node.link_costs base

  payload_config : (init_node_context payload).0 ≡ test_config g reelection_ms root_hello_ms idx
  unfolding init_node_context
  payload_config =
      let few : count < 65536 = omega (arith, e.room) in
      let (f8, f10, f12, f14, f16, f20) =
        briefed_fields node.mixaddr count node.mixing_factor node.do_random_routing reelection_ms
          root_hello_ms b e.mixaddr few e.mixing e.reelection e.root_hello in
      let at : (j : ℕ) → j < 24 → payload j ≡ base j =
        λ j lt. put_costs_before count 0 node.link_costs base j lt in
      let word : (i : ℕ) → i < 23 → get16 payload i ≡ get16 base i =
        λ i lt. ap₂ (λ (x y : ℕ). x + 256 * y) (at i (omega arith)) (at (i + 1) (omega arith)) in
      let long : (i : ℕ) → i < 21 → get32 payload i ≡ get32 base i = λ i lt.
        ap₂ (λ (x y : ℕ). x + 65536 * y) (word i (omega arith)) (word (i + 2) (omega arith)) in
      let w10 = word 10 (omega arith) ∙ f10 in
      let costs : words_from payload 24 (get16 payload 10) ≡ node.link_costs =
        ap (words_from payload 24) w10
        ∙ words_from-put_costs count 0 node.link_costs base e.costs
        ∙ ap (λ (n : ℕ). costs_from n 0 node.link_costs) (sym e.beside)
        ∙ costs_from_all node.link_costs in
      config_ext (init_node_context payload).0 (test_config g reelection_ms root_hello_ms idx)
        (word 8 (omega arith) ∙ f8) w10 (long 16 (omega arith) ∙ f16) (long 20 (omega arith) ∙ f20)
        (ap (λ (x : ℕ). not (x == 0)) (at 12 (omega arith)) ∙ f12) (word 14 (omega arith) ∙ f14)
        costs

  payload_header : (j : ℕ) → j < 8 → payload j ≡ b j
  payload_header j lt = put_costs_before count 0 node.link_costs base j (omega arith) ∙ ground arith

-- A TOPOLOGY request for a node of the test's graph, whatever the buffer held before, can be
-- finalized, the fragment accepts it, and the configuration that the fragment makes of it is the
-- node's own: its address, its neighbors' number, the intervals, the flags and the cost of each
-- link. The fields are within their types and there are at most 32753 neighbors with a cost each.
pub configured_lem :
    (addr_size : ℕ) (g : TestGraph) (reelection_ms root_hello_ms idx fid : ℕ) (b : Buffer)
    (check_id check_type : Bool)
    → IsEncodable g reelection_ms root_hello_ms idx
    → Says true topology fid none b
    → (b' : Buffer) × (request_for addr_size (fill_topology g reelection_ms root_hello_ms) idx b
        ≡ some b')
      × (Control.check_header addr_size idx check_id check_type topology b' ≡ some none)
      × ((init_node_context b').0 ≡ test_config g reelection_ms root_hello_ms idx)
unfolding request_for fill_topology payload_size init_node_context
configured_lem addr_size g reelection_ms root_hello_ms idx fid b check_id check_type e told =
    let b0 = set_fragment_id idx b in
    let p = payload g reelection_ms root_hello_ms idx b0 e in
    let n = length (neighbors_of g idx) in
    let config = payload_config g reelection_ms root_hello_ms idx b0 e in
    let counted : get16 p 10 ≡ n = ap Config.num_neighbors config in
    let says =
      unchanged-Says true topology idx none b0 p (readdressed-Says topology fid idx b e.id told)
        (λ j lo hi. payload_header g reelection_ms root_hello_ms idx b0 e j hi) in
    let (b', made, valid, said, same) =
      sent-Says addr_size true topology idx none p says
        (λ q. cc, omega (arith, counted, e.room), λ q. cc) in
    (
      b',
      made,
      accepted_request addr_size idx topology b' check_id check_type valid said,
      init_same p b' n counted (λ j lo hi. same j (omega arith) (omega (arith, counted))) ∙ config,
    )
