-- ===== src/Requests/Review.antt =====
-- internal/requests/controller.go, `RequestReconciler`: one pass over a quota request, which collects
-- the evidence for a decision. `clock i` is what `metav1.Now` reads the i-th time; the recommender's
-- metrics, the JSON encoding with its hash, and the rounded percentages are parameters.
pub mod Reconcile
pub mod Conditions
pub mod Shown
pub mod Outcome
pub mod Overwritten
use marstack_govern.Prelude.{
  ℕ, ℤ, pos, negsuc, leb_ℤ, ltb_ℤ, eqb_ℤ, add64, String, concat, str_eq, Bool, true, false, not,
  ◌&&◌, ◌||◌, List, [], ◌∷◌, Option, none, some, Result, ok, err, if◌then◌else◌,
}
use marstack_govern.Kube.{Cluster, ConditionStatus, condition_true, condition_false}
use marstack_govern.Requests.Quota.{
  Compute, no_compute, RequestPhase, pending, awaiting_decision, withdrawn, is_open,
}
use marstack_govern.Requests.Preflight
use marstack_govern.Requests.Preflight.{
  Node, Division, Finding, Severity, PreflightResult, evaluate,
}
use marstack_govern.Requests.Decision.{Condition, Request, phase_text, status_text, set_condition}
use marstack_govern.Simulate.Fill
use marstack_govern.Simulate.Impact.{Impact, impact}
use marstack_govern.Simulate.Snapshot.{PendingPod}

-- What the recommender gives, and the kinds of its errors.
pub record Recommendation : Type 0 where
  pub observed_p95 : Compute
  pub observed_p99 : Compute
  pub proposed : Compute
  pub window : String
  pub basis : String
  pub headroom_percent : ℤ
  pub exhaustion_at : Option ℤ

pub data Recommended : Type 0 where
  recommended : Recommendation → Recommended
  no_usage no_source other_error : String → Recommended

-- `Recommendation` of the API: with the division's quota as the current one.
pub record ApiRecommendation : Type 0 where
  pub current : Compute
  pub given : Recommendation

-- `Simulation` of the API.
pub record Simulation : Type 0 where
  pub schedulable : Bool
  pub typical_cpu : ℤ
  pub typical_memory : ℤ
  pub headroom_pods : ℤ
  pub placed_pods : ℤ
  pub unplaced_pods : ℤ
  pub nodes_exhausted : List String
  pub commitment_before_percent : ℤ
  pub commitment_after_percent : ℤ
  pub verdict : String
  pub simulated_at : ℤ
  pub pending_now : List PendingPod

pub record Evidence : Type 0 where
  pub recommendation : Option ApiRecommendation
  pub preflight : Option PreflightResult
  pub simulation : Option Simulation

-- A request with the rest of its object; `base` carries its phase, its decision and its conditions.
pub record QuotaRequest : Type 0 where
  pub base : Request
  pub generation : ℤ
  pub deleting : Bool
  pub evidence : Evidence
  pub evidence_digest : String
  pub observed_generation : ℤ

pub record Home : Type 0 where
  pub quota : Compute
  pub namespaces : List String

pub data Lookup : Type 0 where
  found : Home → Lookup
  missing : Lookup
  unread : String → Lookup

-- What a pass is given: what is configured, and what the cluster answers.
pub record Sources (F : Type 0) : Type 0 where
  pub read_request : Option String
  pub division : Lookup
  pub recommender : Option (List String → Compute → Recommended)
  pub nodes : Option (Result (List Node))  -- `none` where no preflight is configured
  pub divisions : Result (List Division)
  pub cluster : Option Cluster  -- `none` where no simulator is configured
  pub rounded : ℤ → ℤ → ℤ
  pub zero_ratio : F
  pub quotient : ℤ → ℤ → F
  pub percent : F → ℤ
  pub encode : Evidence → Result String  -- `EvidenceDigest`
  pub update_request : Option String
  pub now : ℤ
  pub clock : ℕ → ℤ

pub record Pass : Type 0 where
  pub request : Option QuotaRequest
  pub requeue_after : ℤ
  pub error : Option String

-- `bounded`
unfoldable pub bounded : ℤ → ℤ
bounded value =
    if ltb_ℤ (pos 2147483647) value
    then pos 2147483647
    else if ltb_ℤ value (negsuc 2147483647)
    then negsuc 2147483647
    else value

-- The source's `firstBlocking`.
unfoldable pub first_blocking : List Finding → String
first_blocking [] = "the target does not fit"
first_blocking (f ∷ fs) = elim f.severity [
  | Severity.block ↦ f.message
  | Severity.warn ↦ first_blocking fs
]

-- A piece of evidence, and the conditions after it.
pub record Collected (A : Type 0) : Type 0 where
  pub piece : Option A
  pub conditions : List Condition

module _ {F : Type 0} (src : Sources F) where
  unfoldable pub mark :
      {A : Type 0}
      → ℕ
      → String
      → ConditionStatus
      → String
      → String
      → Option A
      → List Condition
      → Collected A
  unfolding set_condition
  mark i kind state reason message piece cs = record {
    piece = piece;
    conditions = set_condition (src.clock i) kind state reason message cs;
  }

  -- What `recommend` does with the recommender's answer, with `toAPIRecommendation`.
  unfoldable pub recommend_as : Home → List Condition → Recommended → Collected ApiRecommendation
  unfolding mark
  recommend_as home cs (no_usage e) = mark 0 "Recommended" condition_false "NoUsage" e none cs
  recommend_as home cs (no_source e) = mark 0 "Recommended" condition_false "NoMetrics" e none cs
  recommend_as home cs (other_error e) =
      mark 0 "Recommended" condition_false "MetricsUnavailable" e none cs
  recommend_as home cs (recommended r) =
      mark 0 "Recommended" condition_true "Observed" r.basis
        (some (record { current = home.quota; given = r })) cs

  -- `recommend`
  unfoldable pub recommend : Home → List Condition → Collected ApiRecommendation
  unfolding recommend_as
  recommend home cs = elim src.recommender [
    | none ↦
        mark 0 "Recommended" condition_false "NoMetrics"
          "no metrics source is configured, so the request carries no proposed number" none cs
    | some ask ↦ recommend_as home cs (ask home.namespaces home.quota)
  ]

  -- What `preflight` does with the answer of `Evaluate`.
  unfoldable pub judge_as : List Condition → Result PreflightResult → Collected PreflightResult
  unfolding mark first_blocking
  judge_as cs (err e) = mark 1 "Preflight" condition_false "Failed" e none cs
  judge_as cs (ok result) =
      if result.admitted
      then mark 1 "Preflight" condition_true "Admitted" "the target fits the cluster" (some result)
          cs
      else mark 1 "Preflight" condition_false "Blocked" (first_blocking result.findings)
          (some result) cs

  -- `preflight`
  unfoldable pub preflight : Request → List Condition → Collected PreflightResult
  unfolding judge_as
  preflight r cs = elim src.nodes [
    | none ↦
        mark 1 "Preflight" condition_false "NotEvaluated" "no capacity source is configured" none cs
    | some nodes ↦
        judge_as cs (evaluate src.rounded nodes src.divisions r.division r.target src.now)
  ]

  -- The loop of `committed`.
  unfoldable pub committed : List Division → Fill.Compute → Fill.Compute
  committed [] total = total
  committed (d ∷ ds) total = committed ds (record {
    cpu_millicores = add64 total.cpu_millicores d.quota.cpu_millicores;
    memory_bytes = add64 total.memory_bytes d.quota.memory_bytes;
  })

  abbrev pub in_simulation : Compute → Fill.Compute
  in_simulation c = record { cpu_millicores = c.cpu_millicores; memory_bytes = c.memory_bytes }

  -- `toAPISimulation`
  unfoldable pub to_api_simulation : Impact F → Simulation
  unfolding bounded
  to_api_simulation i = record {
    schedulable = i.schedulable;
    typical_cpu = i.typical_pod.cpu;
    typical_memory = i.typical_pod.mem;
    headroom_pods = bounded (pos i.headroom_pods);
    placed_pods = bounded (pos i.placed_pods);
    unplaced_pods = bounded (pos i.unplaced_pods);
    nodes_exhausted = i.nodes_exhausted;
    commitment_before_percent = bounded (src.percent i.commit_before);
    commitment_after_percent = bounded (src.percent i.commit_after);
    verdict = i.verdict;
    simulated_at = i.simulated_at;
    pending_now = i.pending_now;
  }

  -- What `simulate` does with the answer of `Impact`.
  unfoldable pub simulate_as : List Condition → Result (Impact F) → Collected Simulation
  unfolding mark to_api_simulation
  simulate_as cs (err e) = mark 2 "Simulated" condition_false "Failed" e none cs
  simulate_as cs (ok i) =
      if i.schedulable
      then mark 2 "Simulated" condition_true "Fits" i.verdict (some (to_api_simulation i)) cs
      else mark 2 "Simulated" condition_false "WouldNotFit" i.verdict (some (to_api_simulation i))
          cs

  -- The simulation, once the quotas of all divisions are read.
  unfoldable pub simulate_against :
      Cluster → Request → Home → List Condition → Result (List Division) → Collected Simulation
  unfolding simulate_as committed
  simulate_against cluster r home cs (err e) =
      mark 2 "Simulated" condition_false "Failed" (concat "list divisions: " e) none cs
  simulate_against cluster r home cs (ok ds) = simulate_as cs (
      impact F src.zero_ratio src.quotient cluster home.namespaces (in_simulation home.quota)
        (in_simulation r.target) (committed ds (in_simulation no_compute)) src.now)

  -- `simulate`
  unfoldable pub simulate : Request → Home → List Condition → Collected Simulation
  unfolding simulate_against
  simulate r home cs = elim src.cluster [
    | none ↦
        mark 2 "Simulated" condition_false "NotSimulated"
          "no cluster snapshot is available to simulate against" none cs
    | some cluster ↦ simulate_against cluster r home cs src.divisions
  ]
