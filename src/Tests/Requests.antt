-- ===== src/Tests/Requests.antt =====
-- The theorems on quota requests at concrete inputs (internal/requests).
use marstack_govern.Prelude.{
  ℕ, pos, true, false, List, [], ◌∷◌, ◌≡◌, ◌≢◌, ◌↔◌, ◌⊎◌, refl, none, some, ok, arith,
}
use marstack_govern.Requests.Quota.{Compute, no_compute, awaiting_decision, applied}
use marstack_govern.Requests.Recommend.{propose}
use marstack_govern.Requests.Recommend.Bounds.{IsProposal, propose-IsProposal}
use marstack_govern.Requests.Preflight.{Division, Node, PreflightResult, allocatable, evaluate}
use marstack_govern.Requests.Preflight.Capacity.{here, there, grant, sum_cpu, sum_memory}
use marstack_govern.Requests.Preflight.Admission.{Holds, evaluate_iff}
use marstack_govern.Requests.Preflight.Explanation.{has_block, evaluate-has_block}
use marstack_govern.Requests.Decision.{
  Request, Faults, outcome_unset, outcome_approved, DecisionOutcome, Decision, World, has_lapsed,
  reconcile,
}
use marstack_govern.Requests.Decision.Retry.{reconcile-retry}
use marstack_govern.Requests.Decision.Safety.{Grants, no_faults, quota-reconcile, approval_applies}

abbrev pub quota : ℕ → ℕ → Compute
quota cpu memory = record no_compute { cpu_millicores = pos cpu; memory_bytes = pos memory }

propose-IsProposal_example :
    let p = propose (λ x. x) (pos 1234) (pos 7) (quota 1000 600000000) in
    IsProposal (pos 1234) 500 (pos 1000) p.cpu_millicores
    × IsProposal (pos 7) 536870912 (pos 600000000) p.memory_bytes
    × (p.storage_bytes ≡ pos 0)
    × (p.pods ≡ pos 0)
propose-IsProposal_example =
    propose-IsProposal (λ x. x) (pos 1234) (pos 7) (quota 1000 600000000) (omega arith)
      (omega arith)

abbrev shop : Division
shop = record { name = "shop"; quota = quota 1000 4096 }

abbrev search_team : Division
search_team = record { name = "search"; quota = quota 2000 4096 }

abbrev divisions : List Division
divisions = search_team ∷ shop ∷ []

abbrev nodes : List Node
nodes = (record { unschedulable = false; cpu = pos 4000; memory = pos 16384 }) ∷ []

evaluate_iff_example :
    (r : PreflightResult) × (evaluate
        (λ part whole. pos 100)
        (ok nodes)
        (ok divisions)
        "shop"
        (quota 2000 8192)
        (pos 0)
      ≡ ok r)
    × ((r.admitted ≡ true) ↔ (
        Holds
          (allocatable nodes no_compute).cpu_millicores
          (sum_cpu (grant "shop" (quota 2000 8192) divisions))
        × Holds
            (allocatable nodes no_compute).memory_bytes
            (sum_memory (grant "shop" (quota 2000 8192) divisions))))
evaluate_iff_example =
    evaluate_iff (λ part whole. pos 100) nodes divisions "shop" (quota 2000 8192) (pos 0)
      (there refl (here refl tt)) ((omega arith, omega arith), ((omega arith, omega arith), tt))
      (omega arith, omega arith) (omega arith) (omega arith)

evaluate-has_block_example :
    (r : PreflightResult) × (evaluate
        (λ part whole. pos 100)
        (ok nodes)
        (ok divisions)
        "shop"
        (quota 8000 8192)
        (pos 0)
      ≡ ok r)
    × ((r.admitted ≡ false) ↔ (has_block r.findings ≡ true))
evaluate-has_block_example =
    evaluate-has_block (λ part whole. pos 100) nodes divisions "shop" (quota 8000 8192) (pos 0)

abbrev pub request : Request
request = record {
  key = "shop-dev/more";
  division = "shop";
  target = quota 2000 8192;
  withdrawn = false;
  phase = awaiting_decision;
  decision_ref = "";
  conditions = [];
}

abbrev pub decision : DecisionOutcome → Decision
decision outcome = record {
  name = "d1";
  outcome = outcome;
  granted_until = some (pos 5000);
  generation = pos 1;
  status = record {
    was_applied = false;
    applied_at = none;
    lapsed = false;
    message = "";
    observed_generation = pos 0;
  };
}

abbrev world : World
world = record {
  decision = some (decision outcome_approved);
  request = some request;
  quota = some (quota 1000 4096);
}

quota-reconcile_example :
    ((reconcile no_faults (pos 100) (pos 101) world).world.quota ≡ world.quota)
    ⊎ ((target : Compute) × Grants (pos 100) world target
        × ((reconcile no_faults (pos 100) (pos 101) world).world.quota ≡ some target))
quota-reconcile_example = quota-reconcile no_faults (pos 100) (pos 101) world

approval_applies_example :
    let after = reconcile no_faults (pos 100) (pos 101) world in
    (after.error ≡ none)
    × (after.world.quota ≡ some (quota 2000 8192))
    × ((r : Request) × (after.world.request ≡ some r)
        × (r.phase ≡ applied)
        × (r.decision_ref ≡ "d1")
        × (r.target ≡ quota 2000 8192))
    × ((d : Decision) × (after.world.decision ≡ some d)
        × (d.status.was_applied ≡ true)
        × (d.status.applied_at ≡ some (pos 100))
        × (d.outcome ≡ outcome_approved))
unfolding has_lapsed
approval_applies_example =
    approval_applies (pos 100) (pos 101) (decision outcome_approved) request (quota 1000 4096) refl
      refl refl

abbrev applied_request : Request
applied_request = record request { phase = applied; decision_ref = "d2" }

-- The quota is patched, and the request cannot be written.
abbrev half_way : Faults
half_way = record no_faults { update_request = some "the server is unavailable" }

approved_is_set : outcome_approved ≢ outcome_unset
approved_is_set e = cc

reconcile-retry_example :
    reconcile no_faults (pos 100) (pos 101) (reconcile half_way (pos 100) (pos 101) world).world
    ≡ reconcile no_faults (pos 100) (pos 101) world
reconcile-retry_example =
    reconcile-retry half_way (pos 100) (pos 101) (decision outcome_approved) request
      (some (quota 1000 4096)) (λ e. approved_is_set e)
