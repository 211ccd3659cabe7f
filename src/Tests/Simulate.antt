-- ===== src/Tests/Simulate.antt =====
-- The simulator's theorems on two nodes and three pods (internal/simulate).
use marstack_govern.Prelude.{
  ℕ, ◌^◌, ◌≤◌, ◌<◌, pos, true, false, refl, List, [], ◌∷◌, ◌≡◌, length, ok, arith,
}
use marstack_govern.Simulate.Packing.{Node, Pod, best_fit, place}
use marstack_govern.Simulate.Packing.BestFit.{IsBestFit, best_fit-IsBestFit}
use marstack_govern.Simulate.Packing.Capacity.{WithinCapacity, IsRequest}
use marstack_govern.Simulate.Packing.Placed.{IsPlacement, place-IsPlacement}
use marstack_govern.Simulate.Fill.{Compute, fill}
use marstack_govern.Kube.{Cluster}
use marstack_govern.Simulate.Snapshot.{snapshot, typical_pod, pending_now}
use marstack_govern.Simulate.Impact.{Impact, impact}
use marstack_govern.Simulate.Impact.Verdict.{IsConsistent, impact-IsConsistent}
use marstack_govern.Simulate.Fill.Bounds.{fill_cpu_only}

abbrev node : ℕ → ℕ → Node
node cpu allocated = record {
  name = "node";
  allocatable_cpu = pos cpu;
  allocatable_mem = pos 4096;
  allocated_cpu = pos allocated;
  allocated_mem = pos 0;
  schedulable = true;
  unschedulable_by = "";
}

abbrev nodes : List Node
nodes = node 4000 1000 ∷ node 2000 500 ∷ []

abbrev pod : ℕ → Pod
pod cpu = record { name = "pod"; cpu = pos cpu; mem = pos 1024 }

abbrev pods : List Pod
pods = pod 250 ∷ pod 1500 ∷ pod 4000 ∷ []

best_fit-IsBestFit_example : IsBestFit nodes (pod 250) (best_fit nodes (pod 250))
best_fit-IsBestFit_example = best_fit-IsBestFit nodes (pod 250)

node-WithinCapacity :
    (cpu allocated : ℕ) → allocated ≤ cpu → cpu < 2 ^ 63 → WithinCapacity (node cpu allocated)
node-WithinCapacity cpu allocated le lt = record {
  cpu = (omega arith, omega arith, lt);
  mem = (omega arith, omega arith, omega arith);
}

pod-IsRequest : (cpu : ℕ) → IsRequest (pod cpu)
pod-IsRequest cpu = record { cpu = omega arith; mem = omega arith }

place-IsPlacement_example : IsPlacement nodes pods (place nodes pods)
place-IsPlacement_example =
    place-IsPlacement nodes pods
      (
        node-WithinCapacity 4000 1000 (omega arith) (omega arith),
        (node-WithinCapacity 2000 500 (omega arith) (omega arith), tt),
      )
      (pod-IsRequest 250, (pod-IsRequest 1500, (pod-IsRequest 4000, tt)))

abbrev headroom : Compute
headroom = record { cpu_millicores = pos 1000; memory_bytes = pos 4096 }

abbrev more_cpu : Compute
more_cpu = record { cpu_millicores = pos 64000; memory_bytes = pos 0 }

fill_cpu_only_example : length (fill more_cpu (pod 250)) ≡ 1
fill_cpu_only_example = fill_cpu_only more_cpu (pod 250) (omega arith) (omega arith)

abbrev cluster : Cluster
cluster = record {
  list_nodes = ok (
      (record {
        name = "n1";
        unschedulable = false;
        conditions = [];
        taints = [];
        allocatable_cpu = pos 4000;
        allocatable_memory = pos 8589934592;
      })
      ∷ []);
  list_pods = ok [];
  list_pods_in = λ namespace. ok [];
}

abbrev small : Compute
small = record { cpu_millicores = pos 1000; memory_bytes = pos 1073741824 }

abbrev large : Compute
large = record { cpu_millicores = pos 2000; memory_bytes = pos 3221225472 }

impact-IsConsistent_example :
    (i : Impact ℕ) × (impact ℕ 0
        (λ part whole. 1)
        cluster
        ("shop-dev" ∷ [])
        small
        large
        small
        (pos 7)
      ≡ ok i)
    × IsConsistent i
unfolding snapshot typical_pod pending_now
impact-IsConsistent_example =
    impact-IsConsistent ℕ 0 (λ part whole. 1) cluster ("shop-dev" ∷ []) small large small (pos 7)
      refl refl refl
