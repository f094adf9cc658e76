-- ===== src/Tree/Blocking.antt =====
-- The blocked flags after an STP packet.
use cmu_mixnet.Prelude.{
  ℕ, ◌+◌, ◌≤◌, ◌<◌, ◌≡◌, refl, ap, ◌∙◌, ◌≢◌, ◌⊎◌, inl, inr, Bool, true, false, ◌&&◌, not, some,
  arith, ◌==◌, ltb, leb, if◌then◌else◌, length, set, get_or-set, length-set, u16, Option-cases,
  Bool-cases,
}
use cmu_mixnet.Packet.{StpPayload}
use cmu_mixnet.Config.{Config, Alloc}
use cmu_mixnet.State.{NodeState, blocked_at, unblock_all, port_of}
use cmu_mixnet.State.Ports.{unblock_all_lem, length-unblock_all}
use cmu_mixnet.Tree.{
  adopt_root, follow_parent, switch_parent, block_sibling, stp_branch, child_rule, alive_rule,
  handle_stp, is_better_path,
}

-- The state once the sender's address is noted.
abbrev pub noted : NodeState → ℕ → StpPayload → NodeState
noted s port p = record s { neighbor_addr = set s.neighbor_addr port p.node_address }

-- What the port of an STP packet is after it: the flag by the relation of the sender to the node's
-- new root, distance and parent, with the flag from before where no rule speaks.
abbrev pub port_flag : NodeState → NodeState → StpPayload → Bool → Bool
port_flag s s' p before =
    if not (p.root_address == s'.root)
    then before
    else if p.path_length == s'.path_len + 1
    then false
    else if p.node_address == s'.next_hop
    then (if (s.root == s'.root) && (s.next_hop == s'.next_hop) then before else false)
    else if leb p.path_length s'.path_len
    then true
    else before

adopt_flag :
    (c : Config) (s : NodeState) (p : StpPayload) (q : ℕ)
    → q < c.num_neighbors
    → blocked_at (adopt_root c s p) q ≡ false
unfolding adopt_root
adopt_flag c s p q lt = ground (
  arith,
  unblock_all_lem c
      (record s {
        root = p.root_address;
        path_len = u16 (p.path_length + 1);
        next_hop = p.node_address;
      })
      q,
)

adopt_view :
    (c : Config) (s : NodeState) (p : StpPayload)
    → ((adopt_root c s p).root ≡ p.root_address)
      × ((adopt_root c s p).path_len ≡ u16 (p.path_length + 1))
      × ((adopt_root c s p).next_hop ≡ p.node_address)
      × (length (adopt_root c s p).blocked ≡ length s.blocked)
unfolding adopt_root unblock_all
adopt_view c s p = (
  refl,
  refl,
  refl,
  length-unblock_all c (record s {
    root = p.root_address;
    path_len = u16 (p.path_length + 1);
    next_hop = p.node_address;
  }),
)

switch_flag :
    (c : Config) (s : NodeState) (port : ℕ) (p : StpPayload)
    → port < length s.blocked
    → blocked_at (switch_parent c s port p) port ≡ false
unfolding switch_parent
switch_flag c s port p lt = elim (Option-cases (port_of c s s.next_hop)) [
  | inl e ↦ ground (arith, get_or-set s.blocked port port false false)
  | inr (r, e) ↦
      ground (
        arith,
        get_or-set (set s.blocked r true) port port false false,
        length-set s.blocked r true,
      )
]

switch_view :
    (c : Config) (s : NodeState) (port : ℕ) (p : StpPayload)
    → ((switch_parent c s port p).root ≡ s.root)
      × ((switch_parent c s port p).path_len ≡ u16 (p.path_length + 1))
      × ((switch_parent c s port p).next_hop ≡ p.node_address)
unfolding switch_parent
switch_view c s port p = (refl, refl, refl)

switch_flag_old :
    (c : Config) (s : NodeState) (port : ℕ) (p : StpPayload) (q : ℕ)
    → q ≢ port
    → q < length s.blocked
    → port_of c s s.next_hop ≡ some q
    → blocked_at (switch_parent c s port p) q ≡ true
unfolding switch_parent
switch_flag_old c s port p q other lt e = ground (
  arith,
  get_or-set (set s.blocked q true) port q false false,
  get_or-set s.blocked q q true false,
)

switch_flag_other :
    (c : Config) (s : NodeState) (port : ℕ) (p : StpPayload) (q : ℕ)
    → q ≢ port
    → port_of c s s.next_hop ≢ some q
    → blocked_at (switch_parent c s port p) q ≡ blocked_at s q
unfolding switch_parent
switch_flag_other c s port p q other no_parent = elim (Option-cases (port_of c s s.next_hop)) [
  | inl e ↦ ground (arith, get_or-set s.blocked port q false false)
  | inr (r, e) ↦
      let apart : r ≢ q = λ same. no_parent (e ∙ ap some same) in
      ground (
        arith,
        get_or-set (set s.blocked r true) port q false false,
        get_or-set s.blocked r q true false,
      )
]

-- The branch that an STP packet takes, with what it tells.
pub data Branch (c : Config) (s : NodeState) (port : ℕ) (p : StpPayload) (s' : NodeState)
    : Type 0 where
  adopts : p.root_address < s.root → s' ≡ adopt_root c s p → Branch c s port p s'
  follows :
      p.root_address ≡ s.root
      → p.node_address ≡ s.next_hop
      → s' ≡ follow_parent s p
      → Branch c s port p s'
  switches :
      p.root_address ≡ s.root
      → p.node_address ≢ s.next_hop
      → p.path_length < s.path_len
      → s' ≡ switch_parent c s port p
      → Branch c s port p s'
  blocks :
      p.root_address ≡ s.root
      → p.node_address ≢ s.next_hop
      → p.path_length ≤ s.path_len
      → s' ≡ block_sibling s port
      → Branch c s port p s'
  ignores :
      ((s.root < p.root_address) ⊎ (s.path_len < p.path_length)) → s' ≡ s → Branch c s port p s'

-- What another port `q` is after an STP packet from `port` that led from `s` to `s'`.
pub record OtherFlag (c : Config) (s : NodeState) (port : ℕ) (p : StpPayload) (s' : NodeState)
    (q : ℕ) : Type 0 where
  pub new_root : s'.root ≢ s.root → blocked_at s' q ≡ false
  pub old_parent :
      s'.root ≡ s.root
      → s'.next_hop ≢ s.next_hop
      → port_of c (noted s port p) s.next_hop ≡ some q
      → q < length s.blocked
      → blocked_at s' q ≡ true
  pub same_parent : s'.root ≡ s.root → s'.next_hop ≡ s.next_hop → blocked_at s' q ≡ blocked_at s q
  pub unrelated :
      s'.root ≡ s.root
      → port_of c (noted s port p) s.next_hop ≢ some q
      → blocked_at s' q ≡ blocked_at s q

module _ (m : Alloc) (c : Config) (s : NodeState) (port : ℕ) (p : StpPayload) (now : ℕ) where
  abbrev after : NodeState
  after = (handle_stp m c s port p now).0

  Branch-of : Branch c (noted s port p) port p (stp_branch m c (noted s port p) port p).0
  unfolding stp_branch
  Branch-of = elim (Bool-cases (ltb p.root_address s.root)) [
    | inl smaller ↦ rw (smaller, stp_branch) (adopts (ground arith) refl)
    | inr not_smaller ↦
        elim (Bool-cases ((p.root_address == s.root) && (p.node_address == s.next_hop))) [
          | inl parent ↦
              rw (not_smaller, parent, stp_branch) (follows (ground arith) (ground arith) refl)
          | inr no_parent ↦ elim (Bool-cases ((p.root_address == s.root) && is_better_path s p)) [
            | inl better ↦
                rw (not_smaller, no_parent, better, stp_branch)
                  (switches (ground arith) (ground arith) (ground arith) refl)
            | inr no_better ↦
                elim (Bool-cases ((p.root_address == s.root) && leb p.path_length s.path_len)) [
                  | inl sibling ↦
                      rw (not_smaller, no_parent, no_better, sibling, stp_branch)
                        (blocks (ground arith) (ground arith) (ground arith) refl)
                  | inr far ↦
                      rw (not_smaller, no_parent, no_better, far, stp_branch)
                        (ignores (ground arith) refl)
                ]
          ]
        ]
  ]

  abbrev finished : NodeState → NodeState
  finished s' = alive_rule (child_rule s' port p) p now

  port_after :
      (s' : NodeState)
      → Branch c (noted s port p) port p s'
      → port < length s.blocked
      → port < c.num_neighbors
      → p.path_length < 65535
      → blocked_at (finished s') port ≡ port_flag s (finished s') p (blocked_at s port)
  unfolding child_rule alive_rule
  port_after s' (adopts better e) lt lt' small =
      let s0 = noted s port p in rw e (ground (arith, adopt_view c s0 p, adopt_flag c s0 p port))
  port_after s' (follows same parent e) lt lt' small = rw e (unfold follow_parent in ground arith)
  port_after s' (switches same no_parent closer e) lt lt' small =
      let s0 = noted s port p in
      rw e (ground (arith, switch_view c s0 port p, switch_flag c s0 port p lt))
  port_after s' (blocks same no_parent near e) lt lt' small = rw e (
      unfold block_sibling in
      ground (
        arith,
        get_or-set s.blocked port port true false,
        get_or-set (set s.blocked port true) port port false false,
        length-set s.blocked port true,
      ))
  port_after s' (ignores far e) lt lt' small =
      rw e (ground (arith, get_or-set s.blocked port port false false))

  others_after :
      (s' : NodeState)
      → Branch c (noted s port p) port p s'
      → (q : ℕ) → q ≢ port
      → q < c.num_neighbors
      → OtherFlag c s port p (finished s') q
  unfolding child_rule alive_rule
  others_after s' (adopts better e) q other lt =
      let s0 = noted s port p in
      rw e (
        ground (
          arith,
          adopt_view c s0 p,
          adopt_flag c s0 p q,
          get_or-set (adopt_root c s0 p).blocked port q false false,
        ))
  others_after s' (follows same parent e) q other lt =
      rw e (unfold follow_parent in ground (arith, get_or-set s.blocked port q false false))
  others_after s' (switches same no_parent closer e) q other lt =
      let s0 = noted s port p in
      rw e (
        ground (
          arith,
          switch_view c s0 port p,
          switch_flag_old c s0 port p q other,
          switch_flag_other c s0 port p q other,
          get_or-set (switch_parent c s0 port p).blocked port q false false,
        ))
  others_after s' (blocks same no_parent near e) q other lt = rw e (
      unfold block_sibling in
      ground (
        arith,
        get_or-set s.blocked port q true false,
        get_or-set (set s.blocked port true) port q false false,
      ))
  others_after s' (ignores far e) q other lt =
      rw e (ground (arith, get_or-set s.blocked port q false false))

  -- After an STP packet from a port of the node, the port is open if the sender is now a child or
  -- the new parent, blocked if it is another node of the same tree that is at least as close to the
  -- root, and as it was in every other case.
  pub handle_stp_port :
      port < length s.blocked
      → port < c.num_neighbors
      → p.path_length < 65535
      → blocked_at after port ≡ port_flag s after p (blocked_at s port)
  unfolding handle_stp
  handle_stp_port lt lt' small = port_after _ Branch-of lt lt' small

  -- Every other port is open after the root changed, is blocked if it led to a parent that was
  -- replaced, and is as it was otherwise.
  pub handle_stp_others : (q : ℕ) → q ≢ port → q < c.num_neighbors → OtherFlag c s port p after q
  unfolding handle_stp
  handle_stp_others q other lt = others_after _ Branch-of q other lt
