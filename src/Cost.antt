-- ===== src/Cost.antt =====
-- internal/cost: money, pricing policies, bills, invoices and the biller.
pub mod Money
pub mod Pricing
pub mod Charging
pub mod Invoice
pub mod Biller
