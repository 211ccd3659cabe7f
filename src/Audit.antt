-- ===== src/Audit.antt =====
-- The audit trail (internal/audit): events, the table that stores them, the hash chain that links
-- them, and its verification.
pub mod Event
pub mod Table
pub mod Chain
pub mod Verify
pub mod Integrity
pub mod Linking
pub mod Preservation
pub mod Tamper
pub mod Storing
pub mod Delivery
pub mod Acceptance
pub mod Duplicates
pub mod Service
pub mod Webhook
