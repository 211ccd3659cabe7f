-- ===== src/Tests/Review.antt =====
-- The theorems on the request reconciler and the decision service at concrete inputs
-- (internal/requests).
use marstack_govern.Prelude.{
  ℤ, ◌+ℤ◌, pos, true, false, [], ◌∷◌, none, some, ok, ◌≡◌, ◌⊎◌, refl, arith,
}
use marstack_govern.Requests.Quota.{applied, awaiting_decision, changes_requested, expired, is_open}
use marstack_govern.Requests.Decision
use marstack_govern.Requests.Decision.{
  Decision, Request, outcome_approved, outcome_changes, phase_text, is_set_to, set_condition,
}
use marstack_govern.Requests.Decision.Safety.{no_faults}
use marstack_govern.Requests.Review.{
  QuotaRequest, Home, found, Sources, Recommendation, recommended,
}
use marstack_govern.Requests.Review.Reconcile.{reconcile}
use marstack_govern.Requests.Review.Outcome.{IsReviewed, done, reconcile-IsReviewed}
use marstack_govern.Requests.Review.Overwritten.{sent_back, sent_back-awaits}
use marstack_govern.Requests.Deciding.{
  stored, proto_approved, DecideRequest, Meets, DecisionSpec, decide, Granted, RevokeMeets, revoked,
  revoke,
}
use marstack_govern.Requests.Deciding.Guards.{IsDecided, decide-IsDecided}
use marstack_govern.Requests.Deciding.Revoked.{revoke-keeps_quota}
use marstack_govern.Tests.Requests.{quota, request, decision}

abbrev numbers : Recommendation
numbers = record {
  observed_p95 = quota 900 2048;
  observed_p99 = quota 950 3072;
  proposed = quota 1500 4096;
  window = "14d";
  basis = "p99 over 14d";
  headroom_percent = pos 30;
  exhaustion_at = none;
}

abbrev home : Home
home = record { quota = quota 1000 4096; namespaces = "shop-dev" ∷ [] }

-- One node, one division, no simulator; ratios are integers.
abbrev sources : Sources ℤ
sources = record {
  read_request = none;
  division = found home;
  recommender = some (λ namespaces current. recommended numbers);
  nodes = some (ok (record { unschedulable = false; cpu = pos 4000; memory = pos 16384 } ∷ []));
  divisions = ok (record { name = "shop"; quota = quota 1000 4096 } ∷ []);
  cluster = none;
  rounded = λ part whole. pos 50;
  zero_ratio = pos 0;
  quotient = λ part whole. pos 0;
  percent = λ ratio. ratio;
  encode = λ evidence. ok "digest";
  update_request = none;
  now = pos 100;
  clock = λ i. pos 101;
}

abbrev stored_request : QuotaRequest
stored_request = record {
  base = request;
  generation = pos 1;
  deleting = false;
  evidence = record { recommendation = none; preflight = none; simulation = none };
  evidence_digest = "";
  observed_generation = pos 0;
}

reconcile-IsReviewed_example :
    (o : QuotaRequest) × (reconcile sources (some stored_request) ≡ done sources o)
    × IsReviewed sources home stored_request o
unfolding is_open
reconcile-IsReviewed_example =
    reconcile-IsReviewed sources home stored_request "digest" refl refl refl refl refl refl refl

sent_back-awaits_example :
    let changed = sent_back (pos 101) (decision outcome_changes) stored_request in
    ((Decision.reconcile no_faults (pos 100) (pos 101) (record {
      decision = some (decision outcome_changes);
      request = some request;
      quota = none;
    })).world.request
      ≡ some changed.base)
    × (changed.base.phase ≡ changes_requested)
    × ((o : QuotaRequest) × (reconcile sources (some changed) ≡ done sources o)
        × (phase_text o.base.phase ≡ "AwaitingDecision")
        × (o.base.decision_ref ≡ "d1"))
unfolding is_set_to
sent_back-awaits_example =
    sent_back-awaits sources (pos 100) (pos 101) (decision outcome_changes) none home stored_request
      "digest" refl refl refl refl refl refl refl refl

abbrev with_evidence : QuotaRequest
with_evidence = record stored_request {
  base = record request { phase = awaiting_decision };
  evidence_digest = "digest";
}

abbrev meets : Meets
meets = record {
  actor = some (record { subject = "ben"; label = "Ben" });
  stored_request = stored;
  writer = none;
  request = ok with_evidence;
  request_name = "more";
  parse_duration = λ t. none;
  quote = λ t. t;
  short = λ t. t;
  now = pos 100;
  create = none;
}

abbrev ask : DecideRequest
ask = record {
  request_uid = "u1";
  evidence_digest = "digest";
  outcome = proto_approved;
  reason = "the node has room";
  grant_duration = "";
}

abbrev decided : DecisionSpec
decided = record {
  request_key = request.key;
  outcome = outcome_approved;
  reason = "the node has room";
  decided_by = "ben";
  evidence = with_evidence.evidence;
  digest = "digest";
  granted_until = some (pos 7776000000000100);
}

decide-IsDecided_example : IsDecided meets ask decided
unfolding decide ◌+ℤ◌
decide-IsDecided_example = decide-IsDecided meets ask decided refl

abbrev revoking : RevokeMeets
revoking = record {
  actor = some (record { subject = "ben"; label = "Ben" });
  writer = none;
  decision = some (record { decision = decision outcome_approved; revoked_reason = "" });
  now = pos 200;
  patch = none;
}

abbrev applied_request : Request
applied_request = record request { phase = applied; decision_ref = "d1" }

abbrev revoked_decision : Granted
revoked_decision =
    revoked (pos 200) "no longer needed"
      (record { decision = decision outcome_approved; revoked_reason = "" })

revoke-keeps_quota_example :
    let after = Decision.reconcile no_faults (pos 300) (pos 301) (record {
      decision = some revoked_decision.decision;
      request = some applied_request;
      quota = some (quota 2000 8192);
    }) in
    (after.error ≡ none)
    × (after.world.quota ≡ some (quota 2000 8192))
    × ((r : Request) × (after.world.request ≡ some r)
        × ((r.phase ≡ expired) ⊎ (is_set_to applied_request expired "d1" ≡ true)))
unfolding revoke
revoke-keeps_quota_example =
    revoke-keeps_quota revoking "d1" "no longer needed" revoked_decision refl refl applied_request
      (some (quota 2000 8192)) (pos 300) (pos 301) (omega arith)
