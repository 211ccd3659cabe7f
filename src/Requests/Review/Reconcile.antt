-- ===== src/Requests/Review/Reconcile.antt =====
-- internal/requests/controller.go, `RequestReconciler.Reconcile` and `writeStatus`.
use marstack_govern.Prelude.{
  ℤ, pos, eqb_ℤ, String, concat, str_eq, Bool, true, false, not, ◌&&◌, List, [], ◌∷◌, Option, none,
  some, ok, err, if◌then◌else◌,
}
use marstack_govern.Kube.{condition_false}
use marstack_govern.Requests.Quota.{pending, awaiting_decision, withdrawn, is_open}
use marstack_govern.Requests.Decision.{Condition, phase_text, status_text, set_condition}
use marstack_govern.Requests.Review.{
  Evidence, QuotaRequest, Home, Lookup, found, missing, unread, Sources, Pass, Collected, recommend,
  preflight, simulate, ApiRecommendation, Simulation,
}
use marstack_govern.Requests.Preflight.{PreflightResult}

unfoldable pub same_condition : Condition → Condition → Bool
unfolding status_text
same_condition a b =
    str_eq a.kind b.kind
    && (str_eq (status_text a.status) (status_text b.status)
        && (str_eq a.reason b.reason && str_eq a.message b.message))

-- The comparison of the conditions, which are as many.
unfoldable pub same_conditions : List Condition → List Condition → Bool
unfolding same_condition
same_conditions [] [] = true
same_conditions [] (b ∷ bs) = false
same_conditions (a ∷ rest) [] = false
same_conditions (a ∷ rest) (b ∷ bs) = same_condition a b && same_conditions rest bs

-- `equalRequestStatus`
unfoldable pub equal_status : QuotaRequest → QuotaRequest → Bool
unfolding phase_text same_conditions
equal_status current next =
    str_eq (phase_text current.base.phase) (phase_text next.base.phase)
    && (str_eq current.evidence_digest next.evidence_digest
        && (str_eq current.base.decision_ref next.base.decision_ref
            && (eqb_ℤ current.observed_generation next.observed_generation
                && same_conditions current.base.conditions next.base.conditions)))

-- Ten minutes.
abbrev pub recheck : ℤ
recheck = pos 600000000000

module _ {F : Type 0} (src : Sources F) where
  -- `writeStatus`: the request that is stored then, and the error.
  unfoldable pub write_status : QuotaRequest → QuotaRequest → ℤ → Pass
  unfolding equal_status
  write_status current next requeue =
      if equal_status current next
      then record { request = some current; requeue_after = requeue; error = none }
      else elim src.update_request [
        | none ↦ record { request = some next; requeue_after = requeue; error = none }
        | some e ↦ record {
          request = some current;
          requeue_after = requeue;
          error =
              some (concat "update status of request " (concat current.base.key (concat ": " e)));
        }
      ]

  abbrev pub observed : QuotaRequest → QuotaRequest
  observed r = record r { observed_generation = r.generation }

  -- The status of a request whose division is missing.
  unfoldable pub homeless : QuotaRequest → QuotaRequest
  unfolding set_condition
  homeless r = record (observed r) {
    base = record (r.base) {
      phase = pending;
      conditions =
          set_condition (src.clock 0) "Recommended" condition_false "DivisionMissing"
            (concat "division " (concat r.base.division " does not exist")) r.base.conditions;
    };
  }

  -- The three pieces of evidence, each with the conditions of the one before.
  unfoldable pub recommended_for : Home → QuotaRequest → Collected ApiRecommendation
  unfolding recommend
  recommended_for home r = recommend src home r.base.conditions

  unfoldable pub checked_for : Home → QuotaRequest → Collected PreflightResult
  unfolding recommended_for preflight
  checked_for home r = preflight src r.base (recommended_for home r).conditions

  unfoldable pub simulated_for : Home → QuotaRequest → Collected Simulation
  unfolding checked_for simulate
  simulated_for home r = simulate src r.base home (checked_for home r).conditions

  unfoldable pub evidence_for : Home → QuotaRequest → Evidence
  unfolding recommended_for checked_for simulated_for
  evidence_for home r = record {
    recommendation = (recommended_for home r).piece;
    preflight = (checked_for home r).piece;
    simulation = (simulated_for home r).piece;
  }

  -- The status of a request with its evidence and the digest of that.
  unfoldable pub reviewed : Home → QuotaRequest → String → QuotaRequest
  unfolding evidence_for simulated_for
  reviewed home r digest = record (observed r) {
    base = record (r.base) {
      phase = awaiting_decision;
      conditions = (simulated_for home r).conditions;
    };
    evidence = evidence_for home r;
    evidence_digest = digest;
  }

  abbrev pub stopped : QuotaRequest → Option String → Pass
  stopped r error = record { request = some r; requeue_after = pos 0; error = error }

  -- From the division's quota on.
  unfoldable pub review : Home → QuotaRequest → Pass
  unfolding reviewed evidence_for write_status
  review home r = elim (src.encode (evidence_for home r)) [
    | err e ↦ stopped r (some e)
    | ok digest ↦ write_status r (reviewed home r digest) recheck
  ]

  -- The guards of `Reconcile`: whether the request is being deleted, is withdrawn, is open, and what
  -- the read of its division gives.
  unfoldable pub guarded : Bool → Bool → Bool → Lookup → QuotaRequest → Pass
  unfolding write_status homeless review
  guarded deleting is_withdrawn opened division r =
      if deleting
      then stopped r none
      else if is_withdrawn
      then write_status r (record (observed r) { base = record (r.base) { phase = withdrawn } })
          (pos 0)
      else if not opened
      then stopped r none
      else elim division [
        | unread e ↦ stopped r (some e)
        | missing ↦ write_status r (homeless r) (pos 0)
        | found home ↦ review home r
      ]

  -- The rest of `Reconcile`, for a request that is stored.
  unfoldable pub reconcile_stored : QuotaRequest → Pass
  unfolding guarded
  reconcile_stored r =
      guarded r.deleting r.base.withdrawn (is_open r.base.phase r.base.withdrawn) src.division r

  -- `RequestReconciler.Reconcile`
  unfoldable pub reconcile : Option QuotaRequest → Pass
  unfolding reconcile_stored
  reconcile stored = elim src.read_request [
    | some e ↦ record { request = stored; requeue_after = pos 0; error = some e }
    | none ↦ elim stored [
      | none ↦ record { request = none; requeue_after = pos 0; error = none }
      | some r ↦ reconcile_stored r
    ]
  ]
