-- ===== src/Requests/Decision/Retry.antt =====
-- A pass over a decision that failed part-way, and the pass that follows it
-- (internal/requests/controller.go, `DecisionReconciler.Reconcile`).
use marstack_govern.Prelude.{
  ◌≡◌, ◌≢◌, refl, sym, ap, subst, ◌∙◌, ◌⊎◌, inl, inr, ℤ, String, concat, true, false, Option, none,
  some, arith, Bool-cases, Option-cases,
}
use marstack_govern.Requests.Quota.{
  Compute, RequestPhase, rejected, changes_requested, applied, expired,
}
use marstack_govern.Requests.Decision.{
  Request, DecisionOutcome, outcome_unset, outcome_approved, outcome_rejected, outcome_changes,
  DecisionStatus, Decision, World, Faults, Decided, has_lapsed, next_check, with_phase,
  set_request_phase, apply_quota, approve, decide, reconcile_read, reconcile,
}
use marstack_govern.Requests.Decision.Safety.{no_faults, reconcile-reads}
use marstack_govern.Requests.Decision.Stages.{
  holding, finish, settled, with_status, observed, Ends, concluded, read-concluded,
  read-finish_from, start, world-ended, goal, Resumes, resume-stages, resume-settled,
  resume-written, retry-Ends,
}

-- The status that each branch writes.
abbrev rejection : Decision → DecisionStatus
rejection d = record (observed d) { message = "the request was rejected" }

abbrev change : Decision → DecisionStatus
change d = record (observed d) { message = "the requester was asked for changes" }

abbrev lapse : Decision → DecisionStatus
lapse d = record (observed d) { lapsed = true; message = "the grant lapsed and is due for review" }

abbrev granted : ℤ → Decision → Request → DecisionStatus
granted now d r = record (observed d) {
  was_applied = true;
  applied_at = some now;
  message = concat "the quota of " (concat r.division " now matches the request");
}

module _ (now clock : ℤ) (d : Decision) where
  Ends-rejection : d.outcome ≡ outcome_rejected → Ends now clock d rejected (rejection d)
  unfolding decide
  Ends-rejection e f r q = ground (arith, e)

  Ends-change : d.outcome ≡ outcome_changes → Ends now clock d changes_requested (change d)
  unfolding decide
  Ends-change e f r q = ground (arith, e)

  Ends-lapse :
      d.outcome ≡ outcome_approved → has_lapsed d now ≡ true → Ends now clock d expired (lapse d)
  unfolding decide approve
  Ends-lapse e l f r q = ground (arith, e, l)

  Ends-applied :
      d.outcome ≡ outcome_approved
      → has_lapsed d now ≡ false
      → d.status.was_applied ≡ true
      → Ends now clock d applied (observed d)
  unfolding decide approve
  Ends-applied e l a f r q = ground (arith, e, l, a)

  abbrev failure : Request → Option Compute → String → Decided
  failure r q m = record {
    written = record { world = holding d r q; error = some m };
    status = observed d;
  }

  grant-fails :
      (f : Faults) (r : Request) (q : Option Compute) (m : String)
      → decide f now clock d (observed d) r (holding d r q) ≡ failure r q m
      → (reconcile_read f now clock d r (holding d r q)).world ≡ holding d r q
  grant-fails f r q m e =
      ap (λ p. p.world)
        (read-concluded f now clock d r (holding d r q) ∙ ap (concluded f (next_check d now) d) e)

  grant-unread :
      (f : Faults) (r : Request) (q : Option Compute) (m : String)
      → d.outcome ≡ outcome_approved
      → has_lapsed d now ≡ false
      → d.status.was_applied ≡ false
      → f.read_division ≡ some m
      → decide f now clock d (observed d) r (holding d r q)
        ≡ failure r q (concat (concat "read division " (concat r.division ": ")) m)
  unfolding decide approve apply_quota
  grant-unread f r q m e l a x = ground (arith, e, l, a, x)

  grant-missing :
      (f : Faults) (r : Request) (q : Option Compute)
      → d.outcome ≡ outcome_approved
      → has_lapsed d now ≡ false
      → d.status.was_applied ≡ false
      → f.read_division ≡ none
      → q ≡ none
      → decide f now clock d (observed d) r (holding d r q)
        ≡ failure r q (concat (concat "read division " (concat r.division ": ")) f.not_found)
  unfolding decide approve apply_quota
  grant-missing f r q e l a x y = ground (arith, e, l, a, x, y)

  grant-unpatched :
      (f : Faults) (r : Request) (q : Option Compute) (q₀ : Compute) (m : String)
      → d.outcome ≡ outcome_approved
      → has_lapsed d now ≡ false
      → d.status.was_applied ≡ false
      → f.read_division ≡ none
      → q ≡ some q₀
      → f.patch_division ≡ some m
      → decide f now clock d (observed d) r (holding d r q)
        ≡ failure r q (concat "apply the approved quota to " (concat r.division (concat ": " m)))
  unfolding decide approve apply_quota
  grant-unpatched f r q q₀ m e l a x y z = ground (arith, e, l, a, x, y, z)

  grant-patched :
      (f : Faults) (r : Request) (q : Option Compute) (q₀ : Compute)
      → d.outcome ≡ outcome_approved
      → has_lapsed d now ≡ false
      → d.status.was_applied ≡ false
      → f.read_division ≡ none
      → q ≡ some q₀
      → f.patch_division ≡ none
      → decide f now clock d (observed d) r (holding d r q) ≡ record {
        written = set_request_phase f clock applied d.name r (holding d r (some r.target));
        status = granted now d r;
      }
  unfolding decide approve apply_quota
  grant-patched f r q q₀ e l a x y z = ground (arith, e, l, a, x, y, z)

  -- A grant either changes nothing, or sets the quota and goes on to set the phase.
  grant-cases :
      (f : Faults) (r : Request) (q : Option Compute)
      → d.outcome ≡ outcome_approved
      → has_lapsed d now ≡ false
      → d.status.was_applied ≡ false
      → ((reconcile_read f now clock d r (holding d r q)).world ≡ holding d r q)
        ⊎ ((decide f now clock d (observed d) r (holding d r q) ≡ record {
          written = set_request_phase f clock applied d.name r (holding d r (some r.target));
          status = granted now d r;
        })
            × ((q₀ : Compute) × (q ≡ some q₀)))
  grant-cases f r q e l a = elim (Option-cases f.read_division) [
    | inr (m, x) ↦ inl (
        grant-fails f r q (concat (concat "read division " (concat r.division ": ")) m)
          (grant-unread f r q m e l a x))
    | inl x ↦ elim (Option-cases q) [
      | inl y ↦ inl (
          grant-fails f r q (concat (concat "read division " (concat r.division ": ")) f.not_found)
            (grant-missing f r q e l a x y))
      | inr (q₀, y) ↦ elim (Option-cases f.patch_division) [
        | inr (m, z) ↦ inl (
            grant-fails f r q
              (concat "apply the approved quota to " (concat r.division (concat ": " m)))
              (grant-unpatched f r q q₀ m e l a x y z))
        | inl z ↦ inr (grant-patched f r q q₀ e l a x y z, (q₀, y))
      ]
    ]
  ]

  grant-again :
      (r : Request) (q : Compute)
      → d.outcome ≡ outcome_approved
      → has_lapsed d now ≡ false
      → d.status.was_applied ≡ false
      → decide no_faults now clock d (observed d) r (holding d r (some q)) ≡ record {
        written = set_request_phase no_faults clock applied d.name r (holding d r (some r.target));
        status = granted now d r;
      }
  unfolding decide approve apply_quota
  grant-again r q e l a = ground (arith, e, l, a)

settled-keeps :
    (clock : ℤ) (phase : RequestPhase) (d : Decision) (r : Request)
    → ((settled clock phase d r).target ≡ r.target)
      × ((settled clock phase d r).division ≡ r.division)
unfolding with_phase
settled-keeps clock phase d r = ground arith

has_lapsed-with_status :
    (now : ℤ) (s : DecisionStatus) (d : Decision)
    → has_lapsed (with_status s d) now ≡ has_lapsed d now
unfolding has_lapsed
has_lapsed-with_status now s d = refl

outcomes :
    (o : DecisionOutcome)
    → (o ≡ outcome_unset)
      ⊎ ((o ≡ outcome_rejected) ⊎ ((o ≡ outcome_changes) ⊎ (o ≡ outcome_approved)))
outcomes outcome_unset = inl refl
outcomes outcome_rejected = inr (inl refl)
outcomes outcome_changes = inr (inr (inl refl))
outcomes outcome_approved = inr (inr (inr refl))

module _ (f : Faults) (now clock : ℤ) (d : Decision) (r : Request) where
  retry-patched :
      (q : Compute)
      → d.outcome ≡ outcome_approved
      → has_lapsed d now ≡ false
      → d.status.was_applied ≡ false
      → decide f now clock d (observed d) r (holding d r (some q)) ≡ record {
        written = set_request_phase f clock applied d.name r (holding d r (some r.target));
        status = granted now d r;
      }
      → reconcile no_faults now clock (reconcile_read f now clock d r (holding d r (some q))).world
        ≡ reconcile no_faults now clock (holding d r (some q))
  retry-patched q e l a p =
      let s = granted now d r in
      let r' = settled clock applied d r in
      let same = settled-keeps clock applied d r in
      let from : (c : Compute)
          → reconcile no_faults now clock (holding d r (some c))
            ≡ goal now clock applied s d r (some r.target) =
        λ c.
          start now clock d r (some c)
          ∙ read-finish_from no_faults now clock d applied s r (holding d r (some c))
              (some r.target) (grant-again now clock d r c e l a) in
      let at : (reconcile_read f now clock d r (holding d r (some q))).world
          ≡ (finish f clock applied s d r (some r.target)).world =
        ap (λ x. x.world)
          (read-finish_from f now clock d applied s r (holding d r (some q)) (some r.target) p)
        ∙ world-ended (next_check d now) (finish f clock applied s d r (some r.target)) in
      let again =
        grant-again now clock d r' r.target e l a
        ∙ (ap
              (λ t. record {
                written =
                    set_request_phase no_faults clock applied d.name r' (holding d r' (some t));
                status = granted now d r';
              })
              same.0
            ∙ ap
                (λ t. record {
                  written =
                      set_request_phase no_faults clock applied d.name r'
                        (holding d r' (some r.target));
                  status = record (observed d) {
                    was_applied = true;
                    applied_at = some now;
                    message = concat "the quota of " (concat t " now matches the request");
                  };
                })
                same.1) in
      subst (Resumes now clock applied s d r (some r.target)) (sym at) (
        resume-stages now clock applied s d r (some r.target) f (from r.target)
          (resume-settled now clock applied s d r (some r.target) again)
          (resume-written now clock applied s d r (some r.target)
            (Ends-applied now clock (with_status s d) e (has_lapsed-with_status now s d ∙ l) refl)))
      ∙ sym (from q)

  retry-grant :
      (q : Option Compute)
      → d.outcome ≡ outcome_approved
      → has_lapsed d now ≡ false
      → d.status.was_applied ≡ false
      → reconcile no_faults now clock (reconcile_read f now clock d r (holding d r q)).world
        ≡ reconcile no_faults now clock (holding d r q)
  retry-grant none e l a = elim (grant-cases now clock d f r none e l a) [
    | inl same ↦ ap (reconcile no_faults now clock) same
    | inr (_, (q₀, absent)) ↦ ground (arith, absent)
  ]
  retry-grant (some q) e l a = elim (grant-cases now clock d f r (some q) e l a) [
    | inl same ↦ ap (reconcile no_faults now clock) same
    | inr (p, _) ↦ retry-patched q e l a p
  ]

  retry-read :
      (q : Option Compute)
      → d.outcome ≢ outcome_unset
      → reconcile no_faults now clock (reconcile_read f now clock d r (holding d r q)).world
        ≡ reconcile no_faults now clock (holding d r q)
  retry-read q known = elim (outcomes d.outcome) [
    | inl e ↦ absurd (known e)
    | inr (inl e) ↦
        retry-Ends now clock rejected (rejection d) d r q f (Ends-rejection now clock d e)
          (Ends-rejection now clock (with_status (rejection d) d) e)
    | inr (inr (inl e)) ↦
        retry-Ends now clock changes_requested (change d) d r q f (Ends-change now clock d e)
          (Ends-change now clock (with_status (change d) d) e)
    | inr (inr (inr e)) ↦ elim (Bool-cases (has_lapsed d now)) [
      | inl l ↦ retry-Ends now clock expired (lapse d) d r q f (Ends-lapse now clock d e l) (
          Ends-lapse now clock (with_status (lapse d) d) e
            (has_lapsed-with_status now (lapse d) d ∙ l))
      | inr l ↦ elim (Bool-cases d.status.was_applied) [
        | inl a ↦
            retry-Ends now clock applied (observed d) d r q f (Ends-applied now clock d e l a) (
              Ends-applied now clock (with_status (observed d) d) e
                (has_lapsed-with_status now (observed d) d ∙ l) a)
        | inr a ↦ retry-grant q e l a
      ]
    ]
  ]

-- A pass that fails at whatever read or write, followed by a pass without faults at the same time,
-- ends as one pass without faults would have: in the same world, with the same error and the same
-- next check. The outcome of the decision is one of the three that the API allows.
pub reconcile-retry :
    (f : Faults) (now clock : ℤ) (d : Decision) (r : Request) (q : Option Compute)
    → d.outcome ≢ outcome_unset
    → let w : World = record { decision = some d; request = some r; quota = q } in
      reconcile no_faults now clock (reconcile f now clock w).world
      ≡ reconcile no_faults now clock w
reconcile-retry f now clock d r q known =
    elim (reconcile-reads f now clock d r (holding d r q) refl refl) [
      | inl e ↦
          ap (λ p. reconcile no_faults now clock p.world) e ∙ retry-read f now clock d r q known
      | inr e ↦ ap (reconcile no_faults now clock) e
    ]
