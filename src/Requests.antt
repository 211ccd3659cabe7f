-- ===== src/Requests.antt =====
-- Quota requests (internal/requests, api/v1alpha1): the proposed numbers, the preflight against the
-- cluster's capacity, the reconcilers of requests and of decisions, and the decision service.
pub mod Quota
pub mod Recommend
pub mod Preflight
pub mod Decision
pub mod Review
pub mod Deciding
