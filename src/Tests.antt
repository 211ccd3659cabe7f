-- ===== src/Tests.antt =====
-- The theorems at concrete inputs, one module for each part of the program.
mod Audit
mod Simulate
mod Environments
mod Requests
mod Streams
mod Admission
mod Supplychain
mod AuditService
mod Review
mod Cost
mod Access
mod Database
