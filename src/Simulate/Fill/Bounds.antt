-- ===== src/Simulate/Fill/Bounds.antt =====
-- How many pods `fill` makes (internal/simulate/simulator.go).
use native.Mathlib.Nat.{div-mul-le_self}
use marstack_govern.Prelude.{
  ℕ, zero, suc, ◌+◌, ◌*◌, ◌≤◌, ◌≡◌, refl, ℤ, pos, negsuc, pos_part, ◌≤ℤ◌, ◌<ℤ◌, leb_ℤ, [], length,
  arith, ap, ◌⊎◌, inl, inr, Bool-cases, true, false, ◌&&◌, ◌∙◌,
}
use marstack_govern.Simulate.Packing.{Pod}
use marstack_govern.Simulate.Fill.{Compute, by_resource, pod_count, pods_from, fill}

length-pods_from : (typical : Pod) (i n : ℕ) → length (pods_from typical i n) ≡ n
unfolding pods_from
length-pods_from typical i zero = refl
length-pods_from typical i (suc n) = ap suc (length-pods_from typical (i + 1) n)

pod_count_bounds : (a b : ℕ) → (1 ≤ pod_count a b) × (pod_count a b ≤ 500)
unfolding pod_count
pod_count_bounds a b = ground arith

pod_count-le : (a b : ℕ) → 1 ≤ a → 1 ≤ b → (pod_count a b ≤ a) × (pod_count a b ≤ b)
unfolding pod_count
pod_count-le a b ha hb = ground arith

length-fill_some :
    (headroom : Compute) (typical : Pod)
    → (leb_ℤ headroom.cpu_millicores (pos 0) && leb_ℤ headroom.memory_bytes (pos 0)) ≡ false
    → length (fill headroom typical)
      ≡ pod_count
          (by_resource headroom.cpu_millicores typical.cpu)
          (by_resource headroom.memory_bytes typical.mem)
unfolding fill
length-fill_some headroom typical h = rw (h, fill) (length-pods_from typical 0 _)

fill_none :
    (headroom : Compute) (typical : Pod)
    → (leb_ℤ headroom.cpu_millicores (pos 0) && leb_ℤ headroom.memory_bytes (pos 0)) ≡ true
    → fill headroom typical ≡ []
unfolding fill
fill_none headroom typical h = rw (h, fill) refl

by_resource-mul-le :
    (headroom typical : ℤ)
    → pos 0 <ℤ typical
    → typical ≤ℤ headroom
    → (1 ≤ by_resource headroom typical)
      × (by_resource headroom typical * pos_part typical ≤ pos_part headroom)
unfolding by_resource
by_resource-mul-le (pos h) (pos t) c r = (ground arith, ground (arith, div-mul-le_self h t))
by_resource-mul-le (pos h) (negsuc t) c r = absurd (omega arith)
by_resource-mul-le (negsuc h) (pos t) c r = absurd (omega arith)
by_resource-mul-le (negsuc h) (negsuc t) c r = absurd (omega arith)

-- A headroom with some CPU or some memory is simulated with at least one pod and at most 500, and
-- no headroom with none.
pub length-fill :
    (headroom : Compute) (typical : Pod)
    → ((headroom.cpu_millicores ≤ℤ pos 0)
        × (headroom.memory_bytes ≤ℤ pos 0)
        × (fill headroom typical ≡ []))
      ⊎ ((1 ≤ length (fill headroom typical)) × (length (fill headroom typical) ≤ 500))
length-fill headroom typical =
    elim (Bool-cases
      (leb_ℤ headroom.cpu_millicores (pos 0) && leb_ℤ headroom.memory_bytes (pos 0))) [
        | inl p ↦ inl (ground arith, ground arith, fill_none headroom typical p)
        | inr p ↦ inr (rw (length-fill_some headroom typical p) (pod_count_bounds _ _))
      ]

mul_mono : (n k t h : ℕ) → n ≤ k → k * t ≤ h → n * t ≤ h
mul_mono n k t h le bound = grind arith

-- Where the headroom holds at least one typical pod in CPU and one in memory, the pods of `fill`
-- together request no more than the headroom, in CPU and in memory.
pub fill_fits :
    (headroom : Compute) (typical : Pod)
    → pos 0 <ℤ typical.cpu
    → pos 0 <ℤ typical.mem
    → typical.cpu ≤ℤ headroom.cpu_millicores
    → typical.mem ≤ℤ headroom.memory_bytes
    → (length (fill headroom typical) * pos_part typical.cpu ≤ pos_part headroom.cpu_millicores)
      × (length (fill headroom typical) * pos_part typical.mem ≤ pos_part headroom.memory_bytes)
fill_fits headroom typical c m rc rm =
    let cpu = by_resource-mul-le headroom.cpu_millicores typical.cpu c rc in
    let mem = by_resource-mul-le headroom.memory_bytes typical.mem m rm in
    let le = pod_count-le _ _ cpu.0 mem.0 in
    rw (length-fill_some headroom typical (ground arith))
      (mul_mono _ _ _ _ le.0 cpu.1, mul_mono _ _ _ _ le.1 mem.1)

-- A target that adds CPU and no memory is simulated with one pod only, however much CPU it adds.
pub fill_cpu_only :
    (headroom : Compute) (typical : Pod)
    → pos 0 <ℤ headroom.cpu_millicores
    → headroom.memory_bytes ≤ℤ pos 0
    → length (fill headroom typical) ≡ 1
unfolding pod_count by_resource
fill_cpu_only headroom typical c m = length-fill_some headroom typical (ground arith) ∙ ground arith
