-- ===== src/Simulate/Impact.antt =====
-- internal/simulate/simulator.go: `Impact`, the simulation of a change of quota. `ratio` gives a
-- float64, which stays a type of its own.
pub mod Verdict
use marstack_govern.Prelude.{
  ℕ, ℤ, pos, pos_part, add64, sub64, leb_ℤ, ◌==◌, ◌/◌, String, concat, format_nat, format_int, Bool,
  List, length, Result, ok, err, if◌then◌else◌,
}
use marstack_govern.Kube.{Cluster}
use marstack_govern.Simulate.Packing.{Node, Pod, place}
use marstack_govern.Simulate.Fill.{Compute, fill}
use marstack_govern.Simulate.Snapshot.{PendingPod, snapshot, typical_pod, pending_now}

pub record Impact (F : Type 0) : Type 0 where
  pub quota_before : Compute
  pub quota_after : Compute
  pub committed : Compute
  pub allocatable : Compute
  pub commit_before : F
  pub commit_after : F
  pub typical_pod : Pod
  pub headroom_pods : ℕ
  pub placed_pods : ℕ
  pub unplaced_pods : ℕ
  pub nodes_exhausted : List String
  pub pending_now : List PendingPod
  pub schedulable : Bool
  pub verdict : String
  pub simulated_at : ℤ

-- `verdictOf`. The memory of a typical pod is positive, so Go's divisions are those of ℕ.
unfoldable pub verdict_of : ℕ → ℕ → Bool → Pod → String
verdict_of headroom_pods unplaced_pods schedulable typical =
    if headroom_pods == 0
    then "the target does not add headroom, so nothing new has to be scheduled"
    else if schedulable
    then concat "all " (
        concat (format_nat headroom_pods) (
          concat " pods of the division's typical size (" (
            concat (format_int typical.cpu) (
              concat "m cpu, " (
                concat (format_nat (pos_part typical.mem / 1024 / 1024))
                  "Mi) would find a node")))))
    else concat (format_nat unplaced_pods) (
        concat " of " (
          concat (format_nat headroom_pods)
            " pods of the division's typical size would not fit on any node, even though the quota allows them"))

-- `committed - before + after`, for both quantities.
unfoldable pub recommitted : Compute → Compute → Compute → Compute
recommitted committed before after = record {
  cpu_millicores =
      add64 (sub64 committed.cpu_millicores before.cpu_millicores) after.cpu_millicores;
  memory_bytes = add64 (sub64 committed.memory_bytes before.memory_bytes) after.memory_bytes;
}

unfoldable pub headroom_of : Compute → Compute → Compute
headroom_of before after = record {
  cpu_millicores = sub64 after.cpu_millicores before.cpu_millicores;
  memory_bytes = sub64 after.memory_bytes before.memory_bytes;
}

module _ (F : Type 0) (zero_ratio : F) (quotient : ℤ → ℤ → F) where
  -- `ratio`
  unfoldable pub ratio : ℤ → ℤ → F
  ratio part whole = if leb_ℤ whole (pos 0) then zero_ratio else quotient part whole

  -- The body of `Impact`, from what was read.
  unfoldable pub impact_of :
      List Node → Compute → Pod → List PendingPod → Compute → Compute → Compute → ℤ → Impact F
  unfolding recommitted headroom_of verdict_of ratio
  impact_of nodes allocatable typical pending before after committed now =
      let pods = fill (headroom_of before after) typical in
      let placement = place nodes pods in
      let committed_after = recommitted committed before after in
      let unplaced = length placement.unplaced in
      record {
        quota_before = before;
        quota_after = after;
        committed = committed_after;
        allocatable = allocatable;
        commit_before = ratio committed.cpu_millicores allocatable.cpu_millicores;
        commit_after = ratio committed_after.cpu_millicores allocatable.cpu_millicores;
        typical_pod = typical;
        headroom_pods = length pods;
        placed_pods = placement.placed;
        unplaced_pods = unplaced;
        nodes_exhausted = placement.nodes_exhausted;
        pending_now = pending;
        schedulable = unplaced == 0;
        verdict = verdict_of (length pods) unplaced (unplaced == 0) typical;
        simulated_at = now;
      }

  -- `Simulator.Impact`
  unfoldable pub impact :
      Cluster → List String → Compute → Compute → Compute → ℤ → Result (Impact F)
  unfolding impact_of
  impact cluster namespaces before after committed now = elim (snapshot cluster) [
    | err e ↦ err e
    | ok (nodes, allocatable) ↦ elim (typical_pod cluster namespaces) [
      | err e ↦ err e
      | ok typical ↦ elim (pending_now cluster namespaces) [
        | err e ↦ err e
        | ok pending ↦ ok (impact_of nodes allocatable typical pending before after committed now)
      ]
    ]
  ]
