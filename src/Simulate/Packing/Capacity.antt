-- ===== src/Simulate/Packing/Capacity.antt =====
-- What a pod adds to a node that it fits (internal/simulate/packing.go).
use marstack_govern.Prelude.{
  ◌+◌, ◌<◌, ◌^◌, ◌≡◌, ℤ, pos, pos_part, neg_part, ◌≤ℤ◌, ltb_ℤ, add64, sub64, ◌+ℤ◌, add64-+ℤ,
  add64_parts, sub64_parts, parts_exclusive, Bool, true, false, List, [], ◌∷◌, select, All, arith,
  inl, inr, Bool-cases,
}
use marstack_govern.Simulate.Packing.{Node, max64, free_cpu, free_mem, Pod, fits, charge}

-- What a resource of a node has: an allocation between zero and the allocatable int64.
abbrev pub IsWithin : ℤ → ℤ → Type 0
IsWithin allocatable allocated =
    (pos 0 ≤ℤ allocated) × (allocated ≤ℤ allocatable) × (pos_part allocatable < 2 ^ 63)

pub record WithinCapacity (n : Node) : Type 0 where
  pub cpu : IsWithin n.allocatable_cpu n.allocated_cpu
  pub mem : IsWithin n.allocatable_mem n.allocated_mem

pub record IsRequest (pod : Pod) : Type 0 where
  pub cpu : pos 0 ≤ℤ pod.cpu
  pub mem : pos 0 ≤ℤ pod.mem

-- The difference of an allocation within its capacity is exact.
difference_parts :
    (allocatable allocated : ℤ)
    → IsWithin allocatable allocated
    → pos_part (sub64 allocatable allocated) + neg_part allocatable + pos_part allocated
      ≡ neg_part (sub64 allocatable allocated) + pos_part allocatable + neg_part allocated
difference_parts a b w =
    sub64_parts a b (omega (arith, parts_exclusive a, parts_exclusive b))
      (omega (arith, parts_exclusive a, parts_exclusive b))

le_of_fits : (x r : ℤ) → pos 0 ≤ℤ x → ltb_ℤ (max64 x (pos 0)) r ≡ false → r ≤ℤ x
unfolding max64
le_of_fits x r h fit = ground arith

-- A request that fits what is free leaves the allocation within the capacity.
charge-IsWithin :
    (allocatable allocated request : ℤ)
    → IsWithin allocatable allocated
    → pos 0 ≤ℤ request
    → ltb_ℤ (max64 (sub64 allocatable allocated) (pos 0)) request ≡ false
    → IsWithin allocatable (add64 allocated request)
charge-IsWithin a b r w h fit =
    let d = difference_parts a b w in
    let nonneg : pos 0 ≤ℤ sub64 a b = omega arith in
    let room = le_of_fits (sub64 a b) r nonneg fit in
    let sum =
      add64_parts b r (omega (arith, parts_exclusive a, parts_exclusive b, parts_exclusive r))
        (omega (arith, parts_exclusive a, parts_exclusive b, parts_exclusive r)) in
    (omega arith, omega arith, w.2)

exact-charge :
    (allocatable allocated request : ℤ)
    → IsWithin allocatable allocated
    → pos 0 ≤ℤ request
    → ltb_ℤ (max64 (sub64 allocatable allocated) (pos 0)) request ≡ false
    → add64 allocated request ≡ allocated +ℤ request
exact-charge a b r w h fit =
    let d = difference_parts a b w in
    let nonneg : pos 0 ≤ℤ sub64 a b = omega arith in
    let room = le_of_fits (sub64 a b) r nonneg fit in
    add64-+ℤ b r (omega (arith, parts_exclusive a, parts_exclusive b, parts_exclusive r))
      (omega (arith, parts_exclusive a, parts_exclusive b, parts_exclusive r))

-- The sums of a charge are exact.
pub charge-exact :
    (pod : Pod) (node : Node)
    → IsRequest pod
    → WithinCapacity node
    → fits pod node ≡ true
    → ((charge pod node).allocated_cpu ≡ node.allocated_cpu +ℤ pod.cpu)
      × ((charge pod node).allocated_mem ≡ node.allocated_mem +ℤ pod.mem)
unfolding charge fits free_cpu free_mem
charge-exact pod node request within fit = (
  exact-charge node.allocatable_cpu node.allocated_cpu pod.cpu within.cpu request.cpu
      (ground arith),
  exact-charge node.allocatable_mem node.allocated_mem pod.mem within.mem request.mem
      (ground arith),
)

pub charge-WithinCapacity :
    (pod : Pod) (node : Node)
    → IsRequest pod
    → WithinCapacity node
    → fits pod node ≡ true
    → WithinCapacity (charge pod node)
unfolding charge fits free_cpu free_mem
charge-WithinCapacity pod node request within fit = record {
  cpu =
      charge-IsWithin node.allocatable_cpu node.allocated_cpu pod.cpu within.cpu request.cpu
        (ground arith);
  mem =
      charge-IsWithin node.allocatable_mem node.allocated_mem pod.mem within.mem request.mem
        (ground arith);
}

abbrev pub AllWithin : List Node → Type 0
AllWithin = All WithinCapacity

pub All-select :
    (keep : Node → Bool) (nodes : List Node) → AllWithin nodes → AllWithin (select keep nodes)
unfolding select
All-select keep [] h = h
All-select keep (n ∷ nodes) h = elim (Bool-cases (keep n)) [
  | inl p ↦ rw (p, select) (h.0, All-select keep nodes h.1)
  | inr p ↦ rw (p, select) (All-select keep nodes h.1)
]
