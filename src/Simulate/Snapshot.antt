-- ===== src/Simulate/Snapshot.antt =====
-- internal/simulate/simulator.go: what the simulator reads of the cluster.
use marstack_govern.Prelude.{
  ◌/◌, ℤ, pos, ltb_ℤ, eqb_ℤ, add64, String, concat, str_eq, Bool, true, false, not, ◌&&◌, ◌||◌,
  List, [], ◌∷◌, ◌++◌, map, length, get_elem?, Option, none, some, Result, ok, err, if◌then◌else◌,
  stable_sort,
}
use marstack_govern.Prelude.Assoc.{lookup, assign}
use marstack_govern.Kube.{
  Container, pod_pending, pod_succeeded, pod_failed, condition_true, condition_false,
  ObjectCondition, KubePod, TaintEffect, no_schedule, no_execute, prefer_no_schedule, KubeNode,
  Cluster,
}
use marstack_govern.Simulate.Packing.{Node, Pod, max64}
use marstack_govern.Simulate.Fill.{Compute}

-- `terminal`
unfoldable pub terminal : KubePod → Bool
terminal pod = elim pod.phase [ pod_succeeded ↦ true | pod_failed ↦ true | _ ↦ false ]

-- `requestsOf`: the sums of the containers' requests.
unfoldable pub requests_of : List Container → ℤ → ℤ → ℤ × ℤ
requests_of [] cpu memory = (cpu, memory)
requests_of (c ∷ cs) cpu memory =
    requests_of cs (add64 cpu c.cpu_request) (add64 memory c.memory_request)

-- `ready`: a node with no Ready condition counts as ready.
unfoldable pub ready : List ObjectCondition → Bool
ready [] = true
ready (c ∷ cs) =
    let rest = ready cs in
    if str_eq c.kind "Ready" then elim c.status [ condition_true ↦ true | _ ↦ false ] else rest

-- `taintedNoSchedule`
unfoldable pub tainted_no_schedule : List TaintEffect → Bool
tainted_no_schedule [] = false
tainted_no_schedule (no_schedule ∷ ts) = true
tainted_no_schedule (no_execute ∷ ts) = true
tainted_no_schedule (prefer_no_schedule ∷ ts) = tainted_no_schedule ts

-- A missing key of a map of int64 reads as 0.
unfoldable pub amount : String → List (String × ℤ) → ℤ
unfolding lookup
amount k m = elim (lookup k m) [ none ↦ pos 0 | some v ↦ v ]

-- The loop of `snapshot` over the pods: the CPU and the memory allocated on each node.
unfoldable pub allocate :
    List KubePod → List (String × ℤ) → List (String × ℤ) → List (String × ℤ) × List (String × ℤ)
unfolding amount assign requests_of terminal
allocate [] cpus mems = (cpus, mems)
allocate (pod ∷ pods) cpus mems =
    let (cpu, memory) = requests_of pod.containers (pos 0) (pos 0) in
    let skip = str_eq pod.node_name "" || terminal pod in
    allocate pods
      (if skip then cpus else assign pod.node_name (add64 (amount pod.node_name cpus) cpu) cpus)
      (if skip then mems else assign pod.node_name (add64 (amount pod.node_name mems) memory) mems)

-- The `switch` of `snapshot`: why a node takes no pods, if it does not.
unfoldable pub unschedulable_by : KubeNode → Option String
unfolding ready tainted_no_schedule
unschedulable_by item =
    if item.unschedulable
    then some "cordoned"
    else if not (ready item.conditions)
    then some "not ready"
    else if tainted_no_schedule item.taints
    then some "tainted"
    else none

unfoldable pub node_of : List (String × ℤ) → List (String × ℤ) → KubeNode → Node
unfolding unschedulable_by amount
node_of cpus mems item = record {
  name = item.name;
  allocatable_cpu = item.allocatable_cpu;
  allocatable_mem = item.allocatable_memory;
  allocated_cpu = amount item.name cpus;
  allocated_mem = amount item.name mems;
  schedulable = elim (unschedulable_by item) [ none ↦ true | some _ ↦ false ];
  unschedulable_by = elim (unschedulable_by item) [ none ↦ "" | some reason ↦ reason ];
}

-- The sum of what the schedulable nodes can allocate.
unfoldable pub allocatable_of : List Node → Compute → Compute
allocatable_of [] total = total
allocatable_of (n ∷ ns) total = allocatable_of ns (
    if n.schedulable
    then record {
      cpu_millicores = add64 total.cpu_millicores n.allocatable_cpu;
      memory_bytes = add64 total.memory_bytes n.allocatable_mem;
    }
    else total)

-- `snapshot`
unfoldable pub snapshot : Cluster → Result (List Node × Compute)
unfolding allocate node_of allocatable_of
snapshot cluster = elim cluster.list_nodes [
  | err e ↦ err (concat "list nodes: " e)
  | ok items ↦ elim cluster.list_pods [
    | err e ↦ err (concat "list pods: " e)
    | ok pods ↦
        let (cpus, mems) = allocate pods [] [] in
        let nodes = map (node_of cpus mems) items in
        ok (nodes, allocatable_of nodes (record { cpu_millicores = pos 0; memory_bytes = pos 0 }))
  ]
]

-- The pods of a namespace that count for the typical size.
unfoldable pub sizes_of : List KubePod → List Pod
unfolding requests_of terminal
sizes_of [] = []
sizes_of (pod ∷ pods) =
    let rest = sizes_of pods in
    let (cpu, memory) = requests_of pod.containers (pos 0) (pos 0) in
    if terminal pod || (eqb_ℤ cpu (pos 0) && eqb_ℤ memory (pos 0))
    then rest
    else record { name = pod.name; cpu = cpu; mem = memory } ∷ rest

-- The loops of `typicalPod` and `pendingNow` over the namespaces.
unfoldable pub collect {ℓ} :
    {A : Type ℓ} → Cluster → (List KubePod → List A) → List String → Result (List A)
collect cluster pick [] = ok []
collect cluster pick (ns ∷ namespaces) = elim (cluster.list_pods_in ns) [
  | err e ↦ err (concat "list pods in " (concat ns (concat ": " e)))
  | ok pods ↦ elim (collect cluster pick namespaces) [
    | err e ↦ err e
    | ok rest ↦ ok (pick pods ++ rest)
  ]
]

abbrev pub fallback_pod : Pod
fallback_pod = record { name = "typical"; cpu = pos 250; mem = pos 536870912 }

-- The median by CPU. Go's `sort.Slice` does not say which of several pods of one CPU size comes
-- first: here the order is that of the listing.
unfoldable pub median_pod : List Pod → Pod
unfolding max64
median_pod sizes =
    let sorted = stable_sort (λ (a b : Pod). ltb_ℤ a.cpu b.cpu) sizes in
    elim (get_elem? sorted (length sizes / 2)) [
      | none ↦ fallback_pod
      | some median ↦ record {
        name = "typical";
        cpu = max64 median.cpu (pos 1);
        mem = max64 median.mem (pos 1);
      }
    ]

-- `typicalPod`
unfoldable pub typical_pod : Cluster → List String → Result Pod
unfolding collect sizes_of median_pod
typical_pod cluster namespaces = elim (collect cluster sizes_of namespaces) [
  | err e ↦ err e
  | ok sizes ↦ ok (median_pod sizes)
]

pub record PendingPod : Type 0 where
  pub namespace : String
  pub name : String
  pub reason : String

-- `unschedulableReason`
unfoldable pub unschedulable_reason : List ObjectCondition → String
unschedulable_reason [] = "waiting to be scheduled"
unschedulable_reason (c ∷ cs) =
    let rest = unschedulable_reason cs in
    let not_scheduled = elim c.status as (λ _. Bool) [ condition_false ↦ true | _ ↦ false ] in
    if str_eq c.kind "PodScheduled" && not_scheduled
    then (if not (str_eq c.message "") then c.message else c.reason)
    else rest

unfoldable pub pending_of : List KubePod → List PendingPod
unfolding unschedulable_reason
pending_of [] = []
pending_of (pod ∷ pods) =
    let rest = pending_of pods in
    let waiting = elim pod.phase as (λ _. Bool) [ pod_pending ↦ true | _ ↦ false ] in
    if not waiting || not (str_eq pod.node_name "")
    then rest
    else record {
      namespace = pod.namespace;
      name = pod.name;
      reason = unschedulable_reason pod.conditions;
    }
      ∷ rest

-- `pendingNow`
unfoldable pub pending_now : Cluster → List String → Result (List PendingPod)
unfolding collect pending_of
pending_now cluster namespaces = collect cluster pending_of namespaces
