-- ===== src/Lib.antt =====
-- Mixnet: a node of an overlay network that builds a spanning tree, learns the topology over it,
-- and routes packets along source routes, with mixing and random detours.
--
-- The program is one loop per node. A round of the loop takes at most one packet from the node's
-- ports, dispatches it on its type, and then checks three timers. STP packets keep the spanning
-- tree; FLOOD packets and link-state advertisements travel on it; an advertisement changes the
-- topology, which is turned into a forwarding table; DATA and PING packets use that table at their
-- source and the route in their header from then on.
--
-- A node runs inside a fragment, a process that the orchestrator drives by requests on a control
-- plane. A fragment goes through the states of its setup, runs one testcase, in which it injects
-- packets into its node and switches links off and on, and shuts down; it answers each request.
--
-- Files, and the code each one models:
--   Packet, Config    mixnet/packet.h, mixnet/address.h and mixnet/config.h.
--   Topology          struct graph, id_find, id_lookup and graph_update of mixnet/node.c.
--   Paths             path_is_better and run_dijkstra of mixnet/node.c. Paths/Walk says what a walk
--                     and a cheapest walk are.
--   State             struct node_state, state_init, state_free, port_of, unblock_all, become_root.
--   Fib               fib_reset, install_route, update_shortest_path and fib_lookup.
--   Tree              make_stp_packet, broadcast_stp, broadcast_on_tree, handle_stp, handle_flood.
--   LinkState         make_lsa_packet, originate_lsa and handle_lsa.
--   Mixing            send_to_next_hop and the mixing buffer.
--   Routing           random_route, source_route, make_ping_reply and handle_routed. Routing/Along
--                     follows a packet over the nodes of its route.
--   Node              check_timers and run_node. Node/Invariant says what holds of a node between
--                     any two rounds; Node/Kept, Node/Remixed and Node/Reached follow the handlers.
--   Fragment          node_send and node_recv of framework/fragment.cpp, which stand behind
--                     mixnet_send and mixnet_recv; Fragment/Sizes, Fragment/Sends and
--                     Fragment/Rounds follow what a node sends up to the checks of node_send.
--   ErrorCode         framework/error.h.
--   Message           framework/message.h and message.cpp, byte by byte.
--   Networking        send_generic and recv_generic of framework/networking.cpp;
--                     Networking/Accepting server_accept.
--   Control           the rest of framework/fragment.cpp: its headers, requests and responses;
--                     Control/Tasks and Control/Testcase its testcase, Control/States its states
--                     and run(), Control/Capture its pcap thread.
--   TestGraph         class graph of testing/common/graph.h and graph.cpp; TestGraph/Shapes is
--                     generate_topology, with half edges of the default cost.
--   Orchestrator      the requests of framework/orchestrator.cpp and, in Orchestrator/Run, its
--                     state machine; Orchestrator/Foreach its loops over all fragments,
--                     Orchestrator/Payloads the lambdas of its setup and Orchestrator/Setup the
--                     run_state methods, Orchestrator/Pcap its pcap thread. Asking, Heard,
--                     Gathering and Returning follow the loops, Mapping and Resolving the setup.
--   Headers           what Control and Orchestrator accept of each other's messages.
--   Injection         a packet on its way from the orchestrator into a node.
--   Switching         change_link_state, from the orchestrator to the two fragments.
--   Configuring       a node's configuration, from the test's graph into the fragment.
--   Capturing         a captured packet, from a fragment to the test.
--   Prelude           lists as arrays, Boolean tests, machine words. Tests has concrete inputs.
--
-- State is passed explicitly: a handler takes the node's state and returns the new one with the
-- packets that it hands to mixnet_send, in order. The struct fields keep their names; an array
-- with its count is a list, a pointer that may be NULL is an option. A function that returns NULL
-- or -1 returns none.
--
-- What the node takes from its environment is an argument. Alloc says which requests for memory a
-- call is granted, by the place of the request (Site) and a number; the theorems hold for every
-- such answer unless they say that memory is granted. The clock and rand() are numbers. A Round
-- holds all of these for one turn of the loop. The sockets and queues under node_send and
-- node_recv are what they answer in the call.
--
-- Words: an address, a count and a length are 16 bits, a path's cost 32 bits, a time 64 bits; each
-- place that narrows or adds is written with its wrap-around (Prelude/Words). The indices of the
-- loops over ports stay below the 16-bit count that bounds them. The main loop of run_dijkstra runs
-- on fuel, one more than the number of vertices, since every turn settles another one. The loop of
-- node_recv runs for num_neighbors + 1 ports, after which it is back at its start.
--
-- The loops of the framework that wait for the outside run on a list of what they meet, one entry
-- a turn, and are still running at its end: the answers of send(), the readings of the clock in
-- recv_generic, the turns of a testcase, the answers of accept() and poll(). A control plane holds
-- the messages that it will receive; after the last one the peer has closed the connection. A
-- failed assertion is none, or a result of its own. The state machines run for as many turns as
-- they have states on their longest way.
--
-- A sockaddr_in is laid out by the system: SockaddrIn holds its size, AF_INET and how one is read
-- and written, and IsLawful that these copy bytes.
--
-- Not modelled: the debug output; the seeding of rand(); freeing, since a value that is not used
-- any more leaves no trace; the packets' reserved field; the interleaving of the threads of a
-- fragment and of the orchestrator, of which each loop sees the values that it reads; the calls of
-- the operating system that make and take connections and processes; the copied libraries
-- (external/), and the test programs (testing/).
mod Prelude
mod Tests
pub mod Packet
pub mod Config
pub mod Topology
pub mod Paths
pub mod State
pub mod Fib
pub mod Tree
pub mod LinkState
pub mod Mixing
pub mod Routing
pub mod Node
pub mod ErrorCode
pub mod Message
pub mod Networking
pub mod Fragment
pub mod Control
pub mod Orchestrator
pub mod Headers
pub mod Injection
pub mod Switching
pub mod TestGraph
pub mod Configuring
pub mod Capturing
