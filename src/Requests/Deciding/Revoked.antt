-- ===== src/Requests/Deciding/Revoked.antt =====
-- A revocation, and the pass of the reconciler that follows it (internal/requests/decisions.go,
-- internal/requests/controller.go).
use marstack_govern.Prelude.{
  ℤ, ◌<ℤ◌, String, str_eq, str_eq_iff, true, false, Bool-cases, Option, none, some, Option-cases,
  ◌≡◌, ◌≢◌, refl, sym, ap, ◌∙◌, ◌⊎◌, inl, inr, arith,
}
use marstack_govern.Requests.Quota.{Compute, expired}
use marstack_govern.Requests.Decision
use marstack_govern.Requests.Decision.{
  Decision, Request, outcome_approved, has_lapsed, approve, decide, set_request_phase, with_phase,
  is_set_to, write_status, reconcile_read, World,
}
use marstack_govern.Requests.Decision.Safety.{no_faults}
use marstack_govern.Requests.Deciding.{
  Actor, accepted, Granted, RevokeMeets, caller, as_caller, find_decision, revoked, patch_revoked,
  revoke,
}
use marstack_govern.Requests.Deciding.Guards.{then_do-accepted, not_refused, accepted_inj}

false-true : false ≡ true → ⊥
false-true h = cc

patched :
    (m : RevokeMeets) (reason : String) (actor : Actor) (old : Granted) {g : Granted}
    → patch_revoked m reason actor old ≡ accepted g
    → g ≡ revoked m.now reason old
unfolding patch_revoked
patched m reason actor old h = elim (Option-cases m.patch) [
  | inr (e, p) ↦ absurd (not_refused (rw (patch_revoked, p) at h))
  | inl p ↦ sym (accepted_inj (rw (patch_revoked, p) at h))
]

found_decision :
    (uid : String) (d : Option Granted) {g : Granted}
    → find_decision uid d ≡ accepted g
    → d ≡ some g
unfolding find_decision
found_decision uid none h = absurd (not_refused h)
found_decision uid (some g) h = ap some (accepted_inj h)

-- The decision that `Revoke` stores.
revoke-accepted :
    (m : RevokeMeets) (uid reason : String) {g : Granted}
    → revoke m uid reason ≡ accepted g
    → (reason ≢ "") × ((old : Granted) × (m.decision ≡ some old) × (g ≡ revoked m.now reason old))
unfolding revoke patch_revoked
revoke-accepted m uid reason h =
    let (actor, _, h1) = then_do-accepted (caller m.actor) _ h in
    elim (Bool-cases (str_eq reason "")) [
      | inl e ↦ absurd (not_refused (rw e at h1))
      | inr e ↦
          let (_, _, h2) = then_do-accepted (as_caller m.writer) _ (rw e at h1) in
          let (old, read, h3) = then_do-accepted (find_decision uid m.decision) _ h2 in
          (
            λ same. false-true (sym e ∙ (str_eq_iff reason "").1 same),
            (old, found_decision uid m.decision read, patched m reason actor old h3),
          )
    ]

lapsed_until :
    (d : Decision) (at now : ℤ)
    → d.outcome ≡ outcome_approved
    → at <ℤ now
    → d.granted_until ≡ some at
    → has_lapsed d now ≡ true
unfolding has_lapsed
lapsed_until d at now o lt e = ground (arith, o, lt, e)

lapsed_pass :
    (d : Decision) (r : Request) (q : Option Compute) (now clock : ℤ)
    → d.outcome ≡ outcome_approved
    → has_lapsed d now ≡ true
    → let after =
        Decision.reconcile no_faults now clock
          (record { decision = some d; request = some r; quota = q }) in
      (after.error ≡ none)
      × (after.world.quota ≡ q)
      × ((r' : Request) × (after.world.request ≡ some r')
          × ((r'.phase ≡ expired) ⊎ (is_set_to r expired d.name ≡ true)))
unfolding Decision.reconcile reconcile_read decide approve set_request_phase with_phase write_status
lapsed_pass d r q now clock o l = elim (Bool-cases (is_set_to r expired d.name)) [
  | inl e ↦ (ground (arith, o, l, e), ground (arith, o, l, e), (r, ground (arith, o, l, e), inr e))
  | inr e ↦ (
    ground (arith, o, l, e),
    ground (arith, o, l, e),
    (with_phase clock expired d.name r, ground (arith, o, l, e), inl refl),
  )
]

-- After `Revoke` of an approval, any later pass without faults over the decision that it stored puts
-- the request in the phase Expired, unless that already stands, and leaves the division's quota as
-- it is: a revocation takes no capacity back.
pub revoke-keeps_quota :
    (m : RevokeMeets) (uid reason : String) (g : Granted)
    → revoke m uid reason ≡ accepted g
    → g.decision.outcome ≡ outcome_approved
    → (r : Request) (q : Option Compute) (now clock : ℤ) → m.now <ℤ now
    → let after =
        Decision.reconcile no_faults now clock
          (record { decision = some g.decision; request = some r; quota = q }) in
      (after.error ≡ none)
      × (after.world.quota ≡ q)
      × ((r' : Request) × (after.world.request ≡ some r')
          × ((r'.phase ≡ expired) ⊎ (is_set_to r expired g.decision.name ≡ true)))
revoke-keeps_quota m uid reason g h o r q now clock lt =
    let (_, (old, _, same)) = revoke-accepted m uid reason h in
    lapsed_pass g.decision r q now clock o
      (lapsed_until g.decision m.now now o lt (ap (λ x. x.decision.granted_until) same))
