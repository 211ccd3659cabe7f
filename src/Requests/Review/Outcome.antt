-- ===== src/Requests/Review/Outcome.antt =====
-- What a pass over an open request leaves (internal/requests/controller.go).
use marstack_govern.Prelude.{
  and_parts, eqb_ℤ→eq, pos, String, str_eq_iff, true, false, Bool-cases, none, some, ok, err, ◌≡◌,
  refl, sym, ap, ◌∙◌, inl, inr,
}
use marstack_govern.Requests.Quota.{is_open}
use marstack_govern.Requests.Decision.{phase_text}
use marstack_govern.Requests.Review.{QuotaRequest, Home, found, Sources, Pass}
use marstack_govern.Requests.Review.Reconcile.{
  equal_status, recheck, write_status, guarded, stopped, recommended_for, checked_for,
  simulated_for, evidence_for, reviewed, review, reconcile_stored, reconcile,
}
use marstack_govern.Requests.Review.Conditions.{status_of, status_of-same}
use marstack_govern.Requests.Review.Shown.{
  shown, is_recommended, is_admitted, is_schedulable, recommend-Shows, preflight-Shows,
  simulate-Shows,
}

module _ {F : Type 0} (src : Sources F) where
  -- What the pass leaves of an open request: it awaits a decision, the digest is that of the evidence
  -- that was collected, and each condition says what its piece of evidence does.
  pub record IsReviewed (home : Home) (r o : QuotaRequest) : Type 0 where
    pub awaits : phase_text o.base.phase ≡ "AwaitingDecision"
    pub decision_kept : o.base.decision_ref ≡ r.base.decision_ref
    pub generation_observed : o.observed_generation ≡ r.generation
    pub digest_of : src.encode (evidence_for src home r) ≡ ok o.evidence_digest
    pub recommended_shown :
        status_of "Recommended" o.base.conditions
        ≡ shown (is_recommended (evidence_for src home r).recommendation)
    pub preflight_shown :
        status_of "Preflight" o.base.conditions
        ≡ shown (is_admitted (evidence_for src home r).preflight)
    pub simulated_shown :
        status_of "Simulated" o.base.conditions
        ≡ shown (is_schedulable (evidence_for src home r).simulation)

  reviewed-IsReviewed :
      (home : Home) (r : QuotaRequest) (digest : String)
      → src.encode (evidence_for src home r) ≡ ok digest
      → IsReviewed home r (reviewed src home r digest)
  unfolding reviewed evidence_for recommended_for checked_for simulated_for phase_text
  reviewed-IsReviewed home r digest e =
      let a = recommend-Shows src home r.base.conditions in
      let b = preflight-Shows src r.base (recommended_for src home r).conditions in
      let c = simulate-Shows src r.base home (checked_for src home r).conditions in
      record {
        awaits = refl;
        decision_kept = refl;
        generation_observed = refl;
        digest_of = e;
        recommended_shown = c.1 "Recommended" refl ∙ b.1 "Recommended" refl ∙ a.0;
        preflight_shown = c.1 "Preflight" refl ∙ b.0;
        simulated_shown = c.0;
      }

  -- A request whose stored status is not told apart from the new one stays as it was.
  unwritten :
      (home : Home) (r next : QuotaRequest)
      → IsReviewed home r next
      → equal_status r next ≡ true
      → IsReviewed home r r
  unfolding equal_status
  unwritten home r next n h =
      let (phase, more) = and_parts _ _ h in
      let (digest, more) = and_parts _ _ more in
      let (decision, more) = and_parts _ _ more in
      let (generation, conditions) = and_parts _ _ more in
      let same : (k : String) → status_of k r.base.conditions ≡ status_of k next.base.conditions =
        λ k. status_of-same k r.base.conditions next.base.conditions conditions in
      record {
        awaits = (str_eq_iff _ _).0 phase ∙ n.awaits;
        decision_kept = refl;
        generation_observed = eqb_ℤ→eq _ _ generation ∙ n.generation_observed;
        digest_of = n.digest_of ∙ ap ok (sym ((str_eq_iff _ _).0 digest));
        recommended_shown = same "Recommended" ∙ n.recommended_shown;
        preflight_shown = same "Preflight" ∙ n.preflight_shown;
        simulated_shown = same "Simulated" ∙ n.simulated_shown;
      }

  abbrev pub done : QuotaRequest → Pass
  done o = record { request = some o; requeue_after = recheck; error = none }

  write_status-IsReviewed :
      (home : Home) (r next : QuotaRequest)
      → src.update_request ≡ none
      → IsReviewed home r next
      → (o : QuotaRequest) × (write_status src r next recheck ≡ done o) × IsReviewed home r o
  unfolding write_status
  write_status-IsReviewed home r next u n = elim (Bool-cases (equal_status r next)) [
    | inl e ↦ (r, rw (write_status, e) refl, unwritten home r next n e)
    | inr e ↦ (next, rw (write_status, e, u) refl, n)
  ]

  reconcile_stored-open :
      (home : Home) (r : QuotaRequest)
      → r.deleting ≡ false
      → r.base.withdrawn ≡ false
      → is_open r.base.phase r.base.withdrawn ≡ true
      → src.division ≡ found home
      → reconcile_stored src r ≡ review src home r
  unfolding reconcile_stored
  reconcile_stored-open home r d w o f = λ i. guarded src (d i) (w i) (o i) (f i) r

  -- A pass over an open request that is not being deleted, where its division is there, the evidence
  -- can be encoded and the status can be written: the request awaits a decision, keeps its decision
  -- reference, carries the digest of the evidence that was collected, and each condition is true
  -- exactly when its piece of evidence is there and speaks for the request.
  pub reconcile-IsReviewed :
      (home : Home) (r : QuotaRequest) (digest : String)
      → src.read_request ≡ none
      → r.deleting ≡ false
      → r.base.withdrawn ≡ false
      → is_open r.base.phase r.base.withdrawn ≡ true
      → src.division ≡ found home
      → src.encode (evidence_for src home r) ≡ ok digest
      → src.update_request ≡ none
      → (o : QuotaRequest) × (reconcile src (some r) ≡ done o) × IsReviewed home r o
  unfolding reconcile review
  reconcile-IsReviewed home r digest a d w o f e u =
      let (out, written, is) =
        write_status-IsReviewed home r (reviewed src home r digest) u
          (reviewed-IsReviewed home r digest e) in
      (
        out,
        ap
              (λ t. elim t [
                | some m ↦ record { request = some r; requeue_after = pos 0; error = some m }
                | none ↦ reconcile_stored src r
              ])
              a
            ∙ reconcile_stored-open home r d w o f
            ∙ ap
                (λ t. elim t [
                  | err m ↦ stopped src r (some m)
                  | ok d ↦ write_status src r (reviewed src home r d) recheck
                ])
                e
            ∙ written,
        is,
      )
