-- ===== src/Simulate/Fill.antt =====
-- internal/simulate/simulator.go, `fill`: the pods that a quota's headroom would hold.
pub mod Bounds
use marstack_govern.Prelude.{
  ℕ, zero, suc, ◌+◌, ◌*◌, ◌/◌, ◌≤◌, ◌<◌, ◌≡◌, ℤ, pos, pos_part, ◌≤ℤ◌, ◌<ℤ◌, leb_ℤ, ltb_ℤ, ltb, ◌==◌,
  String, concat, format_nat, Bool, ◌&&◌, ◌||◌, List, [], ◌∷◌, length, if◌then◌else◌, arith,
}
use marstack_govern.Simulate.Packing.{Pod}

pub record Compute : Type 0 where
  pub cpu_millicores : ℤ
  pub memory_bytes : ℤ

abbrev pub max_simulated : ℕ
max_simulated = 500

-- The pods that one resource has room for. Both quantities are positive where Go divides, and
-- then its division is that of the natural numbers.
unfoldable pub by_resource : ℤ → ℤ → ℕ
by_resource headroom typical =
    if ltb_ℤ (pos 0) typical && ltb_ℤ (pos 0) headroom
    then pos_part headroom / pos_part typical
    else 0

-- The count of pods, with its floor of one and its ceiling.
unfoldable pub pod_count : ℕ → ℕ → ℕ
pod_count by_cpu by_memory =
    let smaller = if ltb by_memory by_cpu || by_cpu == 0 then by_memory else by_cpu in
    let some_pod = if smaller == 0 then 1 else smaller in
    if ltb max_simulated some_pod then max_simulated else some_pod

-- `for i := range count`, from `i` on.
unfoldable pub pods_from : Pod → ℕ → ℕ → List Pod
pods_from typical i zero = []
pods_from typical i (suc n) =
    record typical { name = concat typical.name (concat "-" (format_nat (i + 1))) }
    ∷ pods_from typical (i + 1) n

-- `fill`
unfoldable pub fill : Compute → Pod → List Pod
fill headroom typical =
    if leb_ℤ headroom.cpu_millicores (pos 0) && leb_ℤ headroom.memory_bytes (pos 0)
    then []
    else pods_from typical 0 (
        pod_count (by_resource headroom.cpu_millicores typical.cpu)
          (by_resource headroom.memory_bytes typical.mem))
