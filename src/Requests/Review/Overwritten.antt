-- ===== src/Requests/Review/Overwritten.antt =====
-- A request that was sent back for changes, under both reconcilers of
-- internal/requests/controller.go.
use marstack_govern.Prelude.{ℤ, String, false, Option, none, some, ok, ◌≡◌, refl, ap, not, arith}
use marstack_govern.Requests.Quota.{Compute, changes_requested, is_open}
use marstack_govern.Requests.Decision.{
  Decision, outcome_changes, phase_text, is_set_to, with_phase, decide, set_request_phase,
  write_status, reconcile_read,
}
use marstack_govern.Requests.Decision
use marstack_govern.Requests.Decision.Safety.{no_faults}
use marstack_govern.Requests.Review.{QuotaRequest, Home, found, Sources}
use marstack_govern.Requests.Review.Reconcile.{evidence_for, reconcile}
use marstack_govern.Requests.Review.Outcome.{done, reconcile-IsReviewed}

-- The request as the decision's pass leaves it.
abbrev pub sent_back : ℤ → Decision → QuotaRequest → QuotaRequest
sent_back clock d r = record r { base = with_phase clock changes_requested d.name r.base }

-- A decision that asks for changes puts its request in the phase ChangesRequested, and the next pass
-- over that request, which the change of its status brings about, puts it back to AwaitingDecision:
-- the request for changes stays in no phase, only as the request's decision reference.
pub sent_back-awaits :
    {F : Type 0} (src : Sources F) (now clock : ℤ) (d : Decision) (q : Option Compute) (home : Home)
    (r : QuotaRequest) (digest : String)
    → d.outcome ≡ outcome_changes
    → r.deleting ≡ false
    → r.base.withdrawn ≡ false
    → is_set_to r.base changes_requested d.name ≡ false
    → src.read_request ≡ none
    → src.division ≡ found home
    → src.encode (evidence_for src home (sent_back clock d r)) ≡ ok digest
    → src.update_request ≡ none
    → let changed = sent_back clock d r in
      ((Decision.reconcile no_faults now clock
          (record { decision = some d; request = some r.base; quota = q })).world.request
        ≡ some changed.base)
      × (changed.base.phase ≡ changes_requested)
      × ((o : QuotaRequest) × (reconcile src (some changed) ≡ done src o)
          × (phase_text o.base.phase ≡ "AwaitingDecision")
          × (o.base.decision_ref ≡ d.name))
unfolding with_phase Decision.reconcile reconcile_read decide set_request_phase write_status is_open
sent_back-awaits src now clock d q home r digest eo ed ew e a f c u =
    let (o, passed, is) =
      reconcile-IsReviewed src home (sent_back clock d r) digest a ed ew (ap not ew) f c u in
    (ground (arith, eo, e), refl, (o, passed, is.awaits, is.decision_kept))
