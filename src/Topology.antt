-- ===== src/Topology.antt =====
-- The tree of nodes that drivers/firewire/core-topology.c builds from the self-IDs.
pub mod Build
pub mod Hops
pub mod Longest
pub mod Wiring
