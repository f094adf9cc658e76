-- ===== src/Tests.antt =====
-- The theorems at concrete inputs, on a network of three nodes.
mod Network
mod Routes
mod Delivery
mod Election
mod Traffic
mod Wires
mod Framework
mod Lifetime
mod Nodes
mod Fleet
mod Graphs
