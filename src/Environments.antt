-- ===== src/Environments.antt =====
-- Ephemeral environments (internal/environments): the lease of a preview and the reconciler that
-- provisions and reclaims its namespace.
pub mod Lease
pub mod Reconcile
