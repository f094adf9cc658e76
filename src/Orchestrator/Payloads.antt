-- ===== src/Orchestrator/Payloads.antt =====
-- What the orchestrator writes to the payloads of its setup requests and takes from the responses:
-- the lambdas of the run_state methods of framework/orchestrator.cpp. The fields of a sockaddr_in
-- are laid out by the system, so its bytes are parameters.
use cmu_mixnet.Prelude.{
  ℕ, zero, suc, ◌+◌, ◌*◌, ◌/◌, Bool, true, false, not, ◌||◌, Option, none, some, List, [], ◌∷◌,
  ◌++◌, if◌then◌else◌, ◌==◌, ltb, length, get_or, set,
}
use cmu_mixnet.ErrorCode.{
  ErrorCode, fragment_exception, bad_fragment_id, fragment_invalid_saddr, fragment_invalid_caddr,
  socket_options_failed, fragment_bad_neighbor_count,
}
use cmu_mixnet.Message.{Buffer, header_size, get16, put8, put16, get_fragment_id}
use cmu_mixnet.Control.States.{get32}
use cmu_mixnet.Networking.Accepting.{NetAddr}
use cmu_mixnet.TestGraph.{TestGraph, node_at, neighbors_of}
use cmu_mixnet.Orchestrator.{neighbor_place}
use cmu_mixnet.Orchestrator.Foreach.{Fd}

-- The system's sockaddr_in: its size, AF_INET, and how one is read from and written to a place.
pub record SockaddrIn : Type 0 where
  pub size : ℕ
  pub af_inet : ℕ
  pub address_at : Buffer → ℕ → NetAddr
  pub put_address : ℕ → NetAddr → Buffer → Buffer

-- A pid or a descriptor of -1 is `none`.
pub record FragmentMetadata : Type 0 where
  pub pid : Option ℕ
  pub fd_ctrl : Fd
  pub fd_pcap : Fd
  pub is_pcap_subscribed : Bool
  pub mixnet_server_netaddr : NetAddr
  pub mixnet_client_netaddrs : List NetAddr

abbrev pub no_address : NetAddr
no_address = record { sin_family = 0; sin_port = 0; s_addr = 0 }

abbrev pub new_fragment : FragmentMetadata
new_fragment = record {
  pid = none;
  fd_ctrl = none;
  fd_pcap = none;
  is_pcap_subscribed = false;
  mixnet_server_netaddr = no_address;
  mixnet_client_netaddrs = [];
}

-- fragments_[fid], for an index in range.
abbrev pub fragment_at : List FragmentMetadata → ℕ → FragmentMetadata
fragment_at fragments fid = get_or fragments fid new_fragment

abbrev pub put32 : ℕ → ℕ → Buffer → Buffer
put32 i v b = put16 (i + 2) (v / 65536) (put16 i v b)

-- The first fragment with a pid, from `fid` on.
pub find_pid : List FragmentMetadata → ℕ → ℕ → Option ℕ
find_pid [] fid pid = none
find_pid (x ∷ xs) fid pid =
    let rest = find_pid xs (fid + 1) pid in
    elim x.pid [ none ↦ rest | some p ↦ if p == pid then some fid else rest ]

abbrev pub is_unset : Fd → Bool
is_unset none = true
is_unset (some fd) = false

-- The two ways of mapping a connection to a fragment, `idx` being its place among the connections.
abbrev pub map_ctrl :
    List Fd → ℕ → ℕ → List FragmentMetadata → Option ErrorCode × List FragmentMetadata
map_ctrl fds idx fid fragments =
    if is_unset (fragment_at fragments fid).fd_ctrl
    then (
      none,
      set fragments fid (record (fragment_at fragments fid) { fd_ctrl = get_or fds idx none }),
    )
    else (some fragment_exception, fragments)

-- The response of SETUP_CTRL.
pub take_ctrl :
    (autotest : Bool)
    → List Fd
    → ℕ
    → Buffer
    → List FragmentMetadata
    → Option ErrorCode × List FragmentMetadata
unfolding find_pid
take_ctrl autotest fds idx b fragments =
    if autotest
    then elim (find_pid fragments 0 (get32 b header_size)) [
      | none ↦ (some fragment_exception, fragments)
      | some fid ↦ map_ctrl fds idx fid fragments
    ]
    else map_ctrl fds idx idx fragments

-- The message on the pcap plane.
unfoldable pub take_pcap :
    List Fd → ℕ → Buffer → List FragmentMetadata → Option ErrorCode × List FragmentMetadata
unfolding get_fragment_id
take_pcap fds idx b fragments =
    let fid = get_fragment_id b in
    if not (ltb fid (length fragments))
    then (some bad_fragment_id, fragments)
    else if not (is_unset (fragment_at fragments fid).fd_pcap)
    then (some bad_fragment_id, fragments)
    else (
      none,
      set fragments fid (record (fragment_at fragments fid) { fd_pcap = get_or fds idx none }),
    )

-- A response without a payload.
abbrev pub take_nothing :
    ℕ → Buffer → List FragmentMetadata → Option ErrorCode × List FragmentMetadata
take_nothing idx b fragments = (none, fragments)

-- SHUTDOWN.
pub take_shutdown : ℕ → Buffer → List FragmentMetadata → Option ErrorCode × List FragmentMetadata
take_shutdown idx b fragments =
    (none, set fragments idx (record (fragment_at fragments idx) { pid = none }))

abbrev pub fill_nothing : ℕ → Buffer → Option Buffer
fill_nothing idx b = some b

pub fill_setup_ctrl : Bool → ℕ → Buffer → Option Buffer
fill_setup_ctrl autotest idx b = some (put8 header_size (if autotest then 1 else 0) b)

-- The link costs of the neighbors from `nid` on, `n` of them.
unfoldable pub put_costs : ℕ → ℕ → List ℕ → Buffer → Buffer
put_costs zero nid costs b = b
put_costs (suc n) nid costs b =
    put_costs n (nid + 1) costs (put16 (header_size + 16 + 2 * nid) (get_or costs nid 0) b)

unfoldable pub fill_topology :
    TestGraph → (reelection_ms root_hello_ms : ℕ) → ℕ → Buffer → Option Buffer
unfolding put_costs
fill_topology g reelection_ms root_hello_ms idx b =
    let x = node_at g idx in
    let n = length (neighbors_of g idx) in
    some (
      put_costs n 0 x.link_costs (
        put32 (header_size + 8) root_hello_ms (
          put32 (header_size + 12) reelection_ms (
            put8 (header_size + 4) (if x.do_random_routing then 1 else 0) (
              put16 (header_size + 6) x.mixing_factor
                (put16 (header_size + 2) n (put16 header_size x.mixaddr b)))))))

module _ (S : SockaddrIn) where
  pub fill_setup_pcap : NetAddr → ℕ → Buffer → Option Buffer
  fill_setup_pcap pcap_netaddr idx b = some (S.put_address header_size pcap_netaddr b)

  -- The place of an address in a payload that counts its neighbors first.
  abbrev pub slot : ℕ → ℕ
  slot nid = header_size + 8 + nid * S.size

  abbrev pub is_invalid : NetAddr → Bool
  is_invalid a = not (a.sin_family == S.af_inet) || ((a.s_addr == 0) || (a.sin_port == 0))

  -- `peer` is the address that getpeername() tells of the fragment's connection.
  pub take_server :
      TestGraph
      → (ℕ → Option NetAddr)
      → ℕ
      → Buffer
      → List FragmentMetadata
      → Option ErrorCode × List FragmentMetadata
  take_server g peer idx b fragments =
      let told = S.address_at b header_size in
      if length (neighbors_of g idx) == 0
      then (none, fragments)
      else if is_invalid told
      then (some fragment_invalid_saddr, fragments)
      else elim (peer idx) [
        | none ↦ (some socket_options_failed, fragments)
        | some base ↦ (
          none,
          set fragments idx (record (fragment_at fragments idx) {
            mixnet_server_netaddr = record told { s_addr = base.s_addr };
          }),
        )
      ]

  -- The server addresses of the neighbors from `nid` on.
  pub put_servers : List FragmentMetadata → List ℕ → ℕ → Buffer → Buffer
  put_servers fragments [] nid b = b
  put_servers fragments (other ∷ others) nid b =
      put_servers fragments others (nid + 1)
        (S.put_address (slot nid) (fragment_at fragments other).mixnet_server_netaddr b)

  pub fill_clients : TestGraph → List FragmentMetadata → ℕ → Buffer → Option Buffer
  unfolding put_servers
  fill_clients g fragments idx b =
      let row = neighbors_of g idx in
      some (put_servers fragments row 0 (put16 header_size (length row) b))

  -- The loop over the client addresses of a response, which stops at an invalid one.
  pub take_addresses : ℕ → ℕ → Buffer → List NetAddr → Option ErrorCode × List NetAddr
  take_addresses zero nid b known = (none, known)
  take_addresses (suc n) nid b known =
      let address = S.address_at b (slot nid) in
      let rest = take_addresses n (nid + 1) b (known ++ address ∷ []) in
      if is_invalid address then (some fragment_invalid_caddr, known) else rest

  pub take_clients :
      TestGraph → ℕ → Buffer → List FragmentMetadata → Option ErrorCode × List FragmentMetadata
  unfolding take_addresses
  take_clients g idx b fragments =
      let n = length (neighbors_of g idx) in
      if not (get16 b header_size == n)
      then (some fragment_bad_neighbor_count, fragments)
      else (let (e, known) =
            take_addresses n 0 b (fragment_at fragments idx).mixnet_client_netaddrs in
          (
            e,
            set fragments idx
                (record (fragment_at fragments idx) { mixnet_client_netaddrs = known }),
          ))

  -- The client addresses that the neighbors of node `idx` use for it, from neighbor `nid` on.
  unfoldable pub put_clients :
      TestGraph → List FragmentMetadata → ℕ → List ℕ → ℕ → Buffer → Option Buffer
  unfolding neighbor_place
  put_clients g fragments idx [] nid b = some b
  put_clients g fragments idx (other ∷ others) nid b =
      elim (neighbor_place (neighbors_of g other) idx) [
        | none ↦ none
        | some j ↦ put_clients g fragments idx others (nid + 1) (
            S.put_address (slot nid)
              (get_or (fragment_at fragments other).mixnet_client_netaddrs j no_address) b)
      ]

  unfoldable pub fill_resolve : TestGraph → List FragmentMetadata → ℕ → Buffer → Option Buffer
  unfolding put_clients
  fill_resolve g fragments idx b =
      let row = neighbors_of g idx in
      put_clients g fragments idx row 0 (put16 header_size (length row) b)
