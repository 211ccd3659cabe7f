-- ===== src/Tenancy.antt =====
-- internal/tenancy: what a division's grants give in its namespaces.
pub mod Access
