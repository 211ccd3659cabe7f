-- ===== src/Lib.antt =====
-- Verification of marstack-govern, a control plane that governs who may use how much of a Kubernetes
-- cluster. Divisions have quotas; a request for more is examined (a recommendation, a preflight, a
-- simulation) and decided on; previews of changes get namespaces on a lease; everything that is
-- done is recorded in an audit trail; clients follow the changes on an event stream.
--
-- The files, and the code they model:
--   Prelude    what the modules share: Boolean tests, lists with native lengths, integers over the
--              native numbers, int64 with its wrap-around (add64, sub64), texts and bytes, Go's
--              stable sort, maps as association lists, decimal formats.
--   Kube       the objects of Kubernetes that the program reads; they are parameters of the model.
--   Audit      internal/audit/event.go, chain.go, store.go, archive.go and the table, its checks and
--              its trigger in internal/db/migrations/0005_audit.sql. Event and Libs (SHA-256 and the
--              JSON codec, parameters), Table (Store.Append, Store.Tip), Chain (Chain.Append: the
--              mutex makes a call one step from a World to the next; Faults say what fails), Verify.
--              Integrity, Linking, Storing, Preservation, Tamper, Delivery, Acceptance and Duplicates
--              prove.
--              Service is internal/audit/service.go (VerifyChain), Webhook is webhook.go with the
--              events that it records; Service/Exact, Service/Truncation and Webhook/Recording prove.
--   Simulate   internal/simulate: Packing (Place, bestFit), Fill (fill), Snapshot (snapshot,
--              typicalPod, pendingNow), Impact (Simulator.Impact). Packing/BestFit,
--              Packing/Capacity, Packing/Placed, Packing/Counts, Fill/Bounds and Impact/Verdict prove.
--   Environments  internal/environments/lease.go (Lease) and reconciler.go (Reconcile: the answers
--              of the API server are the record Api, and a pass gives the list of what it does).
--              Lease/Grant, Reconcile/Safety and Reconcile/Readiness prove.
--   Requests   internal/requests/recommender.go (Recommend: the proposal), preflight.go (Preflight)
--              and the DecisionReconciler of controller.go (Decision: a pass is a function of the
--              decision, the request and the quota it reads, and of what fails). Recommend/Bounds,
--              Preflight/Capacity, Preflight/Admission, Preflight/Explanation,
--              Decision/Safety, Decision/Stages and Decision/Retry prove. Review is the
--              RequestReconciler of controller.go, which collects the evidence (Review/Reconcile is the
--              pass; Review/Conditions, Shown, Outcome and Overwritten prove). Deciding is
--              decisions.go (Decide and Revoke; Deciding/Guards and Deciding/Revoked prove).
--   Topology   internal/topology/reachability.go (Reachability). Reachability/Policies proves.
--   Api        internal/api/hub.go (Hub), with the cursors that strconv writes and reads (Cursor).
--              Hub/History and Hub/Replay prove.
--   Admission  internal/admission: who an object is attributed to (Attribution). Attribution/Stamped,
--              Attribution/Answer and Attribution/History prove.
--   Supplychain  internal/supplychain: the references of images (Reference). Reference/Scan and
--              Reference/RoundTrip prove.
--   Cost       internal/cost: Money, Pricing (which policy holds on a day), Charging, Invoice and
--              Biller. Pricing/Latest and Invoice/Total prove.
--   Tenancy    the role bindings of internal/tenancy/reconciler.go (Access). Access/Granted and
--              Access/Ensured prove.
--   Identity   internal/identity: the authorizer with its cache (Authorizer). Authorizer/Uncached
--              and Authorizer/Stale prove.
--   Database   internal/db/migrate.go (Migrate). Migrate/Steps, Migrate/Loop and Migrate/Retry prove.
--   Tests      every theorem that has a hypothesis or a parameter, at a concrete input.
--
-- How the parts meet: the simulator and the preflight give the evidence of a request; the decision
-- reconciler applies what was decided to a division's quota; a division's quota is what the
-- preflight adds up. The review's pass writes the evidence that Decide compares with what the
-- reviewer has read, and Decide creates the decision that the decision reconciler applies.
-- Admission stamps who made each of these objects.
--
-- The JSON codec of a preview is a parameter that gives back its owner and its renewals but for
-- their times: `metav1.Time` writes whole seconds, and a stamp has the clock's nanoseconds.
--
-- Times are integers of nanoseconds, and durations and quantities are int64, whose sums and
-- differences wrap around as in Go. The loops of the source run over lists and are structural
-- recursion, so that no fuel is needed; only the decimal formats use fuel, one more than the number,
-- which has fewer digits.
--
-- Not modelled: floating-point numbers (the ratios of the simulator, the headroom and the
-- percentages are parameters), what the namespaces, quotas and policies that the reconcilers write
-- contain, the queries over SQL and metrics, the RPC and HTTP transport, sessions and tokens, the
-- reports of the cost service, the phases of a division, delivery, diagnostics, the policy engine, the
-- store of the invoices (so that `InvoiceStore` is an interface without laws), the catalog's
-- watchers, the registry and the signatures of images, the web client and generated code.
-- A pass of a reconciler and a call of the hub is one step: the interleaving of passes with each
-- other is not modelled.
mod Prelude
pub mod Audit
pub mod Kube
pub mod Simulate
pub mod Environments
pub mod Requests
pub mod Topology
pub mod Api
pub mod Supplychain
pub mod Admission
pub mod Cost
pub mod Tenancy
pub mod Identity
pub mod Database
mod Tests
