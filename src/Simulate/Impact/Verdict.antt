-- ===== src/Simulate/Impact/Verdict.antt =====
-- What the simulation of a target reports (internal/simulate/simulator.go, `Impact`).
use marstack_govern.Prelude.{
  ◌+◌, ◌≤◌, ◌≡◌, refl, ◌↔◌, inl, inr, ℤ, true, List, length, arith, ==_iff, ap, String, ok,
}
use marstack_govern.Kube.{Cluster}
use marstack_govern.Simulate.Packing.{Node, Pod, place}
use marstack_govern.Simulate.Packing.Counts.{place_counts}
use marstack_govern.Simulate.Fill.{Compute, fill}
use marstack_govern.Simulate.Fill.Bounds.{length-fill}
use marstack_govern.Simulate.Snapshot.{PendingPod, snapshot, typical_pod, pending_now}
use marstack_govern.Simulate.Impact.{Impact, headroom_of, impact_of, impact}

-- The numbers of a report agree with one another.
abbrev pub IsConsistent : {F : Type 0} → Impact F → Type 0
IsConsistent i =
    (i.placed_pods + i.unplaced_pods ≡ i.headroom_pods)
    × (i.headroom_pods ≤ 500)
    × ((i.schedulable ≡ true) ↔ (i.placed_pods ≡ i.headroom_pods))

module _ (F : Type 0) (zero_ratio : F) (quotient : ℤ → ℤ → F) where
  impact_of-IsConsistent :
      (nodes : List Node) (allocatable : Compute) (typical : Pod) (pending : List PendingPod)
      (before after committed : Compute) (now : ℤ)
      → IsConsistent (
          impact_of F zero_ratio quotient nodes allocatable typical pending before after committed
            now)
  unfolding impact_of
  impact_of-IsConsistent nodes allocatable typical pending before after committed now =
      let pods = fill (headroom_of before after) typical in
      let counts = place_counts nodes pods in
      (
        counts,
        (elim (length-fill (headroom_of before after) typical) [
          | inl (_, _, e) ↦ let n : length pods ≡ 0 = ap length e in omega arith
          | inr (_, h) ↦ h
        ]),
        (
          λ e. let none_left = (==_iff (length (place nodes pods).unplaced) 0).0 e in omega arith,
          λ e. (==_iff (length (place nodes pods).unplaced) 0).1 (omega arith),
        ),
      )

  -- Where the cluster can be read, the simulation gives a report, whose numbers agree: the pods
  -- placed and the pods not placed are the pods of the headroom, which are at most 500, and the
  -- target is called schedulable exactly when all of them were placed.
  pub impact-IsConsistent :
      (cluster : Cluster) (namespaces : List String) (before after committed : Compute) (now : ℤ)
      {nodes : List Node} {allocatable : Compute} {typical : Pod} {pending : List PendingPod}
      → snapshot cluster ≡ ok (nodes, allocatable)
      → typical_pod cluster namespaces ≡ ok typical
      → pending_now cluster namespaces ≡ ok pending
      → (i : Impact F) × (impact F zero_ratio quotient cluster namespaces before after committed now
          ≡ ok i)
        × IsConsistent i
  unfolding impact
  impact-IsConsistent cluster namespaces before after committed now {nodes} {allocatable} {typical}
        {pending} p q r =
      (
        impact_of F zero_ratio quotient nodes allocatable typical pending before after committed
            now,
        rw (p, impact, q, r) refl,
        impact_of-IsConsistent nodes allocatable typical pending before after committed now,
      )
