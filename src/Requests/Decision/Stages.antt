-- ===== src/Requests/Decision/Stages.antt =====
-- Where a pass over a decision may stop, and how the next one goes on
-- (internal/requests/controller.go, `DecisionReconciler.Reconcile`).
use marstack_govern.Prelude.{
  ◌≡◌, refl, sym, ap, subst, ◌∙◌, ◌⊎◌, inl, inr, ℤ, String, str_eq, str_eq_iff, true, false, Option,
  none, some, if◌then◌else◌, arith, Option-cases, pos,
}
use marstack_govern.Requests.Quota.{Compute, RequestPhase}
use marstack_govern.Requests.Decision.{
  Request, DecisionStatus, Decision, World, Faults, Written, Pass, Decided, phase_text, next_check,
  is_set_to, with_phase, set_request_phase, same_status, write_status, decide, reconcile_read,
  reconcile,
}
use marstack_govern.Requests.Decision.Safety.{no_faults}

same_text : (s : String) → str_eq s s ≡ true
same_text s = (str_eq_iff s s).1 refl

with_phase-is_set_to :
    (clock : ℤ) (phase : RequestPhase) (name : String) (r : Request)
    → is_set_to (with_phase clock phase name r) phase name ≡ true
unfolding is_set_to with_phase
with_phase-is_set_to clock phase name r =
    ground (arith, same_text (phase_text phase), same_text name)

same_status_refl : (s : DecisionStatus) → same_status s s ≡ true
unfolding same_status
same_status_refl s = ground (arith, same_text s.message)

-- The world's objects.
abbrev pub holding : Decision → Request → Option Compute → World
holding d r q = record { decision = some d; request = some r; quota = q }

-- The phase is set and then the status is written: what every branch ends with.
abbrev pub finish :
    Faults → ℤ → RequestPhase → DecisionStatus → Decision → Request → Option Compute → Written
finish f clock phase s d r q =
    let set = set_request_phase f clock phase d.name r (holding d r q) in
    elim set.error [ some e ↦ set | none ↦ write_status f d s set.world ]

abbrev pub settled : ℤ → RequestPhase → Decision → Request → Request
settled clock phase d r = if is_set_to r phase d.name then r else with_phase clock phase d.name r

abbrev pub with_status : DecisionStatus → Decision → Decision
with_status s d = record d { status = s }

-- Where a finish stops: before or after the phase is set, or at its end.
finish-stages :
    (f : Faults) (clock : ℤ) (phase : RequestPhase) (s : DecisionStatus) (d : Decision)
    (r : Request) (q : Option Compute)
    → let after = (finish f clock phase s d r q).world in
      (after ≡ holding d r q)
      ⊎ ((after ≡ holding d (settled clock phase d r) q)
          ⊎ ((same_status d.status s ≡ false)
              × (after ≡ holding (with_status s d) (settled clock phase d r) q)))
unfolding set_request_phase write_status
finish-stages f clock phase s d r q = ground arith

finish-ok :
    (clock : ℤ) (phase : RequestPhase) (s : DecisionStatus) (d : Decision) (r : Request)
    (q : Option Compute)
    → finish no_faults clock phase s d r q ≡ record {
      world =
          holding
            (if same_status d.status s then d else with_status s d)
            (settled clock phase d r)
            q;
      error = none;
    }
unfolding set_request_phase write_status
finish-ok clock phase s d r q = ground arith

settled-settled :
    (clock : ℤ) (phase : RequestPhase) (d : Decision) (r : Request)
    → settled clock phase d (settled clock phase d r) ≡ settled clock phase d r
settled-settled clock phase d r = ground (arith, with_phase-is_set_to clock phase d.name r)

abbrev ended : ℤ → Written → Pass
ended requeue w = elim w.error [
  | some e ↦ record { world = w.world; requeue_after = pos 0; error = some e }
  | none ↦ record { world = w.world; requeue_after = requeue; error = none }
]

abbrev pub observed : Decision → DecisionStatus
observed d = record (d.status) { observed_generation = d.generation }

-- The pass over `d` sets the phase and then writes the status, and does nothing else.
abbrev pub Ends : ℤ → ℤ → Decision → RequestPhase → DecisionStatus → Type 0
Ends now clock d phase s =
    (f : Faults) (r : Request) (q : Option Compute)
    → decide f now clock d (observed d) r (holding d r q)
      ≡ record { written = set_request_phase f clock phase d.name r (holding d r q); status = s }

-- The end of a pass, from what the branch for the outcome left.
abbrev pub concluded : Faults → ℤ → Decision → Decided → Pass
concluded f requeue d decided = elim decided.written.error [
  | some e ↦ record { world = decided.written.world; requeue_after = pos 0; error = some e }
  | none ↦ ended requeue (write_status f d decided.status decided.written.world)
]

concluded-ended :
    (f : Faults) (requeue : ℤ) (d : Decision) (s : DecisionStatus) (set : Written)
    → concluded f requeue d (record { written = set; status = s })
      ≡ ended requeue (elim set.error [ some e ↦ set | none ↦ write_status f d s set.world ])
concluded-ended f requeue d s set = elim (Option-cases set.error) [
  | inl e ↦ rw e refl
  | inr (m, e) ↦ ground (arith, e)
]

pub read-concluded :
    (f : Faults) (now clock : ℤ) (d : Decision) (r : Request) (w : World)
    → reconcile_read f now clock d r w
      ≡ concluded f (next_check d now) d (decide f now clock d (observed d) r w)
unfolding reconcile_read
read-concluded f now clock d r w = refl

pub read-finish_from :
    (f : Faults) (now clock : ℤ) (d : Decision) (phase : RequestPhase) (s : DecisionStatus)
    (r : Request) (w : World) (q : Option Compute)
    → decide f now clock d (observed d) r w
      ≡ record { written = set_request_phase f clock phase d.name r (holding d r q); status = s }
    → reconcile_read f now clock d r w ≡ ended (next_check d now) (finish f clock phase s d r q)
read-finish_from f now clock d phase s r w q e =
    read-concluded f now clock d r w
    ∙ (ap (concluded f (next_check d now) d) e
        ∙ concluded-ended f (next_check d now) d s
            (set_request_phase f clock phase d.name r (holding d r q)))

read-finish :
    (f : Faults) (now clock : ℤ) (d : Decision) (phase : RequestPhase) (s : DecisionStatus)
    (r : Request) (q : Option Compute)
    → decide f now clock d (observed d) r (holding d r q)
      ≡ record { written = set_request_phase f clock phase d.name r (holding d r q); status = s }
    → reconcile_read f now clock d r (holding d r q)
      ≡ ended (next_check d now) (finish f clock phase s d r q)
read-finish f now clock d phase s r q e =
    read-finish_from f now clock d phase s r (holding d r q) q e

finish-again :
    (clock : ℤ) (phase : RequestPhase) (s : DecisionStatus) (d : Decision) (r : Request)
    (q : Option Compute)
    → finish no_faults clock phase s d (settled clock phase d r) q
      ≡ finish no_faults clock phase s d r q
finish-again clock phase s d r q =
    finish-ok clock phase s d (settled clock phase d r) q
    ∙ (ap
          (λ x. record {
            world = holding (if same_status d.status s then d else with_status s d) x q;
            error = none;
          })
          (settled-settled clock phase d r)
        ∙ sym (finish-ok clock phase s d r q))

finish-twice :
    (clock : ℤ) (phase : RequestPhase) (s : DecisionStatus) (d : Decision) (r : Request)
    (q : Option Compute)
    → same_status d.status s ≡ false
    → finish no_faults clock phase s (with_status s d) (settled clock phase d r) q
      ≡ finish no_faults clock phase s d r q
finish-twice clock phase s d r q e =
    let end : DecisionStatus → Decision → Written = λ t x. record {
      world = holding (if same_status t s then x else with_status s x) (settled clock phase d r) q;
      error = none;
    } in
    let same_end : end s (with_status s d) ≡ end (d.status) d = rw (same_status_refl s, e) refl in
    finish-ok clock phase s (with_status s d) (settled clock phase d r) q
    ∙ (ap
          (λ x. record {
            world =
                holding
                  (if same_status s s then with_status s d else with_status s (with_status s d)) x
                  q;
            error = none;
          })
          (settled-settled clock phase d r)
        ∙ (same_end ∙ sym (finish-ok clock phase s d r q)))

pub start :
    (now clock : ℤ) (d : Decision) (r : Request) (q : Option Compute)
    → reconcile no_faults now clock (holding d r q)
      ≡ reconcile_read no_faults now clock d r (holding d r q)
unfolding reconcile
start now clock d r q = refl

pub world-ended : (requeue : ℤ) (w : Written) → (ended requeue w).world ≡ w.world
world-ended requeue w = ground arith

next_check-with_status :
    (now : ℤ) (s : DecisionStatus) (d : Decision)
    → next_check (with_status s d) now ≡ next_check d now
unfolding next_check
next_check-with_status now s d = refl

module _ (now clock : ℤ) (phase : RequestPhase) (s : DecisionStatus) (d : Decision) (r : Request)
    (q : Option Compute) where
  -- What a pass without faults leaves, where it sets the phase and writes the status.
  abbrev pub goal : Pass
  goal = ended (next_check d now) (finish no_faults clock phase s d r q)

  -- A pass over a world in which the finish stopped ends as one over the world before it.
  abbrev pub Resumes : World → Type 0
  Resumes w = reconcile no_faults now clock w ≡ goal

  pub resume-stages :
      (f : Faults)
      → Resumes (holding d r q)
      → Resumes (holding d (settled clock phase d r) q)
      → (same_status d.status s ≡ false
          → Resumes (holding (with_status s d) (settled clock phase d r) q))
      → Resumes (finish f clock phase s d r q).world
  resume-stages f one two three = elim (finish-stages f clock phase s d r q) [
    | inl e ↦ subst Resumes (sym e) one
    | inr (inl e) ↦ subst Resumes (sym e) two
    | inr (inr (c, e)) ↦ subst Resumes (sym e) (three c)
  ]

  pub resume-settled :
      decide no_faults now clock d
          (observed d)
          (settled clock phase d r)
          (holding d (settled clock phase d r) q)
        ≡ record {
          written =
              set_request_phase no_faults clock phase d.name
                (settled clock phase d r)
                (holding d (settled clock phase d r) q);
          status = s;
        }
      → Resumes (holding d (settled clock phase d r) q)
  resume-settled e =
      start now clock d (settled clock phase d r) q
      ∙ (read-finish no_faults now clock d phase s (settled clock phase d r) q e
          ∙ ap (ended (next_check d now)) (finish-again clock phase s d r q))

  pub resume-written :
      Ends now clock (with_status s d) phase s
      → same_status d.status s ≡ false
      → Resumes (holding (with_status s d) (settled clock phase d r) q)
  resume-written e c =
      start now clock (with_status s d) (settled clock phase d r) q
      ∙ (read-finish no_faults now clock (with_status s d) phase s (settled clock phase d r) q
            (e no_faults (settled clock phase d r) q)
          ∙ (ap
                (λ x.
                  ended x
                    (finish no_faults clock phase s (with_status s d) (settled clock phase d r) q))
                (next_check-with_status now s d)
              ∙ ap (ended (next_check d now)) (finish-twice clock phase s d r q c)))

  pub retry-Ends :
      (f : Faults)
      → Ends now clock d phase s
      → Ends now clock (with_status s d) phase s
      → reconcile no_faults now clock (reconcile_read f now clock d r (holding d r q)).world
        ≡ reconcile no_faults now clock (holding d r q)
  retry-Ends f e e' =
      let one : Resumes (holding d r q) =
        start now clock d r q ∙ read-finish no_faults now clock d phase s r q (e no_faults r q) in
      let at : (reconcile_read f now clock d r (holding d r q)).world
          ≡ (finish f clock phase s d r q).world =
        ap (λ p. p.world) (read-finish f now clock d phase s r q (e f r q))
        ∙ world-ended (next_check d now) (finish f clock phase s d r q) in
      subst Resumes (sym at) (
        resume-stages f one (resume-settled (e no_faults (settled clock phase d r) q))
          (resume-written e'))
      ∙ sym one
