-- ===== src/Simulate/Packing.antt =====
-- internal/simulate/packing.go: best-fit packing of pods into nodes. Quantities are int64.
pub mod Capacity
pub mod BestFit
pub mod Placed
pub mod Counts
use marstack_govern.Prelude.{
  ℕ, suc, ◌+◌, ℤ, pos, ltb_ℤ, eqb_ℤ, leb_ℤ, add64, sub64, String, Bool, true, false, not, ◌&&◌,
  ◌||◌, List, [], ◌∷◌, ◌++◌, get_elem?, set, select, Option, none, some, if◌then◌else◌, stable_sort,
  str_less,
}
use marstack_govern.Prelude.Assoc.{assign, contains}

pub record Node : Type 0 where
  pub name : String
  pub allocatable_cpu : ℤ
  pub allocatable_mem : ℤ
  pub allocated_cpu : ℤ
  pub allocated_mem : ℤ
  pub schedulable : Bool
  pub unschedulable_by : String

unfoldable pub max64 : ℤ → ℤ → ℤ
max64 a b = if ltb_ℤ b a then a else b

unfoldable pub free_cpu : Node → ℤ
unfolding max64
free_cpu n = max64 (sub64 n.allocatable_cpu n.allocated_cpu) (pos 0)

unfoldable pub free_mem : Node → ℤ
unfolding max64
free_mem n = max64 (sub64 n.allocatable_mem n.allocated_mem) (pos 0)

pub record Pod : Type 0 where
  pub name : String
  pub cpu : ℤ
  pub mem : ℤ

pub record Placement : Type 0 where
  pub placed : ℕ
  pub unplaced : List Pod
  pub nodes_exhausted : List String
  pub free_after : List (String × Node)

-- The test of the loop in `bestFit`, negated.
unfoldable pub fits : Pod → Node → Bool
fits pod node = not (ltb_ℤ (free_cpu node) pod.cpu || ltb_ℤ (free_mem node) pod.mem)

-- `best < 0 || slack < bestSlack`
unfoldable pub improves : Option (ℕ × ℤ) → ℤ → Bool
improves none slack = true
improves (some (_, least)) slack = ltb_ℤ slack least

-- The loop of `bestFit` from index `i`: the best index so far with its slack.
unfoldable pub best_from : Pod → ℕ → Option (ℕ × ℤ) → List Node → Option (ℕ × ℤ)
best_from pod i best [] = best
best_from pod i best (node ∷ nodes) =
    let slack = sub64 (free_cpu node) pod.cpu in
    best_from pod (suc i) (if fits pod node && improves best slack then some (i, slack) else best)
      nodes

-- `bestFit`, with `none` for -1.
unfoldable pub best_fit : List Node → Pod → Option ℕ
best_fit nodes pod = elim (best_from pod 0 none nodes) [ none ↦ none | some (i, _) ↦ some i ]

-- The node of a placement, with the pod's requests added.
unfoldable pub charge : Pod → Node → Node
charge pod node = record node {
  allocated_cpu = add64 node.allocated_cpu pod.cpu;
  allocated_mem = add64 node.allocated_mem pod.mem;
}

-- The variables of the loop in `Place`.
pub record Progress : Type 0 where
  pub remaining : List Node
  pub placed : ℕ
  pub unplaced : List Pod
  pub exhausted : List String

unfoldable pub put : Pod → Progress → Option ℕ → Progress
put pod p none = record p { unplaced = p.unplaced ++ (pod ∷ []) }
put pod p (some i) = elim (get_elem? p.remaining i) [
  | none ↦ p
  | some node ↦
      let full = charge pod node in
      record p {
        remaining = set p.remaining i full;
        placed = p.placed + 1;
        exhausted =
            if eqb_ℤ (free_cpu full) (pos 0) || eqb_ℤ (free_mem full) (pos 0)
            then full.name ∷ p.exhausted
            else p.exhausted;
      }
]

unfoldable pub place_all : Progress → List Pod → Progress
place_all p [] = p
place_all p (pod ∷ pods) = place_all (put pod p (best_fit p.remaining pod)) pods

-- The order of `Place`: the larger CPU request first, then the larger memory request.
unfoldable pub larger : Pod → Pod → Bool
larger a b = if not (eqb_ℤ a.cpu b.cpu) then ltb_ℤ b.cpu a.cpu else ltb_ℤ b.mem a.mem

unfoldable pub free_map : List Node → List (String × Node) → List (String × Node)
free_map [] m = m
free_map (node ∷ nodes) m = free_map nodes (assign node.name node m)

unfoldable pub exhausted_names : List String → List Node → List String
exhausted_names names [] = []
exhausted_names names (node ∷ nodes) =
    let rest = exhausted_names names nodes in
    if contains node.name names then node.name ∷ rest else rest

unfoldable pub start : List Node → Progress
start nodes = record {
  remaining = select (λ n. n.schedulable) nodes;
  placed = 0;
  unplaced = [];
  exhausted = [];
}

-- `Place`
unfoldable pub place : List Node → List Pod → Placement
unfolding place_all start free_map exhausted_names
place nodes pods =
    let end = place_all (start nodes) (stable_sort larger pods) in
    record {
      placed = end.placed;
      unplaced = end.unplaced;
      nodes_exhausted = stable_sort str_less (exhausted_names end.exhausted end.remaining);
      free_after = free_map end.remaining [];
    }
