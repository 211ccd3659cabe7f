-- ===== src/Simulate.antt =====
-- The scheduling simulation (internal/simulate): packing the pods of a quota's headroom.
pub mod Packing
pub mod Fill
pub mod Snapshot
pub mod Impact
