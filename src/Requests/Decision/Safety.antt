-- ===== src/Requests/Decision/Safety.antt =====
-- What a pass over a decision does to the quota, to the request and to the decision
-- (internal/requests/controller.go, `DecisionReconciler.Reconcile`).
use marstack_govern.Prelude.{
  ◌≡◌, refl, concat, ap, ◌∙◌, ◌↔◌, ◌⊎◌, inl, inr, ℤ, pos, ◌≤ℤ◌, ◌<ℤ◌, ◌-ℤ◌, -ℤ_parts, String,
  str_eq, str_eq_iff, true, false, Option, none, some, arith, Bool-cases, Option-cases,
  parts_exclusive,
}
use marstack_govern.Requests.Quota.{
  Compute, RequestPhase, is_open, rejected, changes_requested, applied, expired,
}
use marstack_govern.Requests.Decision.{
  Request, outcome_approved, outcome_changes, DecisionStatus, Decision, World, Faults, phase_text,
  has_lapsed, hour, next_check, is_set_to, with_phase, set_request_phase, apply_quota, same_status,
  write_status, approve, decide, reconcile_read, reconcile,
}

-- The world holds a decision that grants the target now: approved, not lapsed, not applied before.
abbrev pub Grants : ℤ → World → Compute → Type 0
Grants now w target =
    (d : Decision) × (r : Request) × (w.decision ≡ some d)
    × (w.request ≡ some r)
    × (d.outcome ≡ outcome_approved)
    × (has_lapsed d now ≡ false)
    × (d.status.was_applied ≡ false)
    × (r.target ≡ target)

quota-set_request_phase :
    (f : Faults) (clock : ℤ) (phase : RequestPhase) (name : String) (r : Request) (w : World)
    → (set_request_phase f clock phase name r w).world.quota ≡ w.quota
unfolding set_request_phase
quota-set_request_phase f clock phase name r w = ground arith

quota-write_status :
    (f : Faults) (d : Decision) (s : DecisionStatus) (w : World)
    → (write_status f d s w).world.quota ≡ w.quota
unfolding write_status
quota-write_status f d s w = ground arith

quota-apply_quota :
    (f : Faults) (r : Request) (w : World)
    → ((apply_quota f r w).world.quota ≡ w.quota)
      ⊎ ((apply_quota f r w).world.quota ≡ some r.target)
unfolding apply_quota
quota-apply_quota f r w = ground arith

-- The change that a pass makes to the quota.
abbrev Change : ℤ → Decision → Request → Option Compute → Option Compute → Type 0
Change now d r before after =
    (after ≡ before)
    ⊎ ((d.outcome ≡ outcome_approved)
        × (has_lapsed d now ≡ false)
        × (d.status.was_applied ≡ false)
        × (after ≡ some r.target))

module _ (f : Faults) (now clock : ℤ) (d : Decision) (r : Request) (w : World) where
  quota-approve :
      (s : DecisionStatus)
      → s.was_applied ≡ d.status.was_applied
      → d.outcome ≡ outcome_approved
      → Change now d r w.quota (approve f now clock d s r w).written.world.quota
  unfolding approve
  quota-approve s e o = ground (
    arith,
    quota-apply_quota f r w,
    quota-set_request_phase f clock expired d.name r w,
    quota-set_request_phase f clock applied d.name r w,
    quota-set_request_phase f clock applied d.name r (apply_quota f r w).world,
  )

  quota-decide :
      (s : DecisionStatus)
      → s.was_applied ≡ d.status.was_applied
      → Change now d r w.quota (decide f now clock d s r w).written.world.quota
  unfolding decide
  quota-decide s e = ground (
    arith,
    quota-approve s e,
    quota-set_request_phase f clock rejected d.name r w,
    quota-set_request_phase f clock changes_requested d.name r w,
  )

  quota-reconcile_read : Change now d r w.quota (reconcile_read f now clock d r w).world.quota
  unfolding reconcile_read
  quota-reconcile_read =
      let s = record (d.status) { observed_generation = d.generation } in
      let decided = decide f now clock d s r w in
      ground
        (arith, quota-decide s refl, quota-write_status f d decided.status decided.written.world)

  pub reconcile-reads :
      w.decision ≡ some d
      → w.request ≡ some r
      → (reconcile f now clock w ≡ reconcile_read f now clock d r w)
        ⊎ ((reconcile f now clock w).world ≡ w)
  unfolding reconcile
  reconcile-reads ed er = ground (arith, ed, er)

-- Whatever fails, a pass leaves the division's quota as it is, unless the decision it reads is an
-- approval that has not lapsed and was not applied before: then the quota may become the target of
-- the request, and nothing else.
pub quota-reconcile :
    (f : Faults) (now clock : ℤ) (w : World)
    → ((reconcile f now clock w).world.quota ≡ w.quota)
      ⊎ ((target : Compute) × Grants now w target
          × ((reconcile f now clock w).world.quota ≡ some target))
unfolding reconcile
quota-reconcile f now clock w = elim (Option-cases w.decision) [
  | inl e ↦ inl (ground (arith, e))
  | inr (d, ed) ↦ elim (Option-cases w.request) [
    | inl e ↦ inl (ground (arith, e, ed))
    | inr (r, er) ↦ elim (reconcile-reads f now clock d r w ed er) [
      | inr e ↦ inl (ap (λ v. v.quota) e)
      | inl e ↦ elim (quota-reconcile_read f now clock d r w) [
        | inl k ↦ inl (ap (λ p. p.world.quota) e ∙ k)
        | inr (o, l, a, k) ↦
            inr (r.target, (d, r, ed, er, o, l, a, refl), ap (λ p. p.world.quota) e ∙ k)
      ]
    ]
  ]
]

phase_of_text : (p : RequestPhase) → str_eq (phase_text p) "Applied" ≡ true → p ≡ applied
unfolding phase_text
phase_of_text applied e = refl
phase_of_text p e = ground arith

-- No fault.
abbrev pub no_faults : Faults
no_faults = record {
  read_decision = none;
  read_request = none;
  read_division = none;
  patch_division = none;
  update_request = none;
  update_decision = none;
  not_found = "";
}

set-Applied :
    (r : Request) (name : String)
    → is_set_to r applied name ≡ true
    → (r.phase ≡ applied) × (r.decision_ref ≡ name)
unfolding is_set_to
set-Applied r name e = (
  phase_of_text r.phase (ground (arith, e)),
  (str_eq_iff r.decision_ref name).0 (ground (arith, e)),
)

-- The request after `setRequestPhase`.
set_request_phase-sets :
    (clock : ℤ) (name : String) (r : Request) (w : World)
    → w.request ≡ some r
    → let after = set_request_phase no_faults clock applied name r w in
      (after.error ≡ none)
      × (after.world.decision ≡ w.decision)
      × (after.world.quota ≡ w.quota)
      × ((r' : Request) × (after.world.request ≡ some r')
          × (r'.phase ≡ applied)
          × (r'.decision_ref ≡ name)
          × (r'.target ≡ r.target))
unfolding set_request_phase with_phase
set_request_phase-sets clock name r w er = elim (Bool-cases (is_set_to r applied name)) [
  | inl e ↦
      rw e (refl, refl, refl, (r, er, (set-Applied r name e).0, (set-Applied r name e).1, refl))
  | inr e ↦ rw e (refl, refl, refl, (with_phase clock applied name r, refl, refl, refl, refl))
]

-- A pass without faults over an approval that has not lapsed and was not applied, with a division
-- that exists, ends without an error: the quota is the target of the request, the request is in the
-- phase Applied and names the decision, and the decision is recorded as applied at that time.
pub approval_applies :
    (now clock : ℤ) (d : Decision) (r : Request) (q : Compute)
    → d.outcome ≡ outcome_approved
    → has_lapsed d now ≡ false
    → d.status.was_applied ≡ false
    → let after =
        reconcile no_faults now clock
          (record { decision = some d; request = some r; quota = some q }) in
      (after.error ≡ none)
      × (after.world.quota ≡ some r.target)
      × ((r' : Request) × (after.world.request ≡ some r')
          × (r'.phase ≡ applied)
          × (r'.decision_ref ≡ d.name)
          × (r'.target ≡ r.target))
      × ((d' : Decision) × (after.world.decision ≡ some d')
          × (d'.status.was_applied ≡ true)
          × (d'.status.applied_at ≡ some now)
          × (d'.outcome ≡ d.outcome))
unfolding reconcile reconcile_read decide approve apply_quota write_status same_status
approval_applies now clock d r q eo el ea =
    let granted : World = record { decision = some d; request = some r; quota = some r.target } in
    let k = set_request_phase-sets clock d.name r granted refl in
    (
      ground (arith, k),
      ground (arith, k),
      (k.3.0, ground (arith, k), k.3.2, k.3.3, k.3.4),
      (
        record d {
          status = record (d.status) {
            observed_generation = d.generation;
            was_applied = true;
            applied_at = some now;
            message = concat "the quota of " (concat r.division " now matches the request");
          };
        },
        ground (arith, k),
        refl,
        refl,
        refl,
      ),
    )

-- The next check of an approval with an end is never after an hour and never after the end; it is
-- 0 (no check) exactly when the end is reached, while a grant has lapsed only after it.
pub next_check-bounds :
    (d : Decision) (now until : ℤ)
    → d.outcome ≡ outcome_approved
    → d.granted_until ≡ some until
    → (pos 0 ≤ℤ next_check d now)
      × (next_check d now ≤ℤ hour)
      × ((pos 0 <ℤ next_check d now) → next_check d now ≤ℤ until -ℤ now)
      × ((next_check d now ≡ pos 0) ↔ (until ≤ℤ now))
      × ((has_lapsed d now ≡ true) ↔ (until <ℤ now))
unfolding next_check has_lapsed
next_check-bounds d now until eo eu =
    ground (arith, -ℤ_parts until now, parts_exclusive (until -ℤ now))

-- A request that a decision asks to change is open again, in whatever phase it was, unless it is
-- withdrawn: after a pass without faults it is in the phase ChangesRequested.
pub changes_reopen :
    (now clock : ℤ) (d : Decision) (r : Request) (q : Option Compute)
    → d.outcome ≡ outcome_changes
    → r.withdrawn ≡ false
    → is_set_to r changes_requested d.name ≡ false
    → let after =
        reconcile no_faults now clock (record { decision = some d; request = some r; quota = q }) in
      (after.error ≡ none)
      × (after.world.quota ≡ q)
      × ((r' : Request) × (after.world.request ≡ some r') × (is_open r'.phase r'.withdrawn ≡ true))
unfolding reconcile reconcile_read decide set_request_phase with_phase is_open write_status
changes_reopen now clock d r q eo ew e = (
  ground (arith, e),
  ground (arith, e),
  (with_phase clock changes_requested d.name r, ground (arith, e), ground (arith, ew)),
)
