-- ===== src/Topology.antt =====
-- Who may reach whom (internal/topology).
pub mod Reachability
