-- ===== src/Requests/Preflight/Admission.antt =====
-- When a preflight admits a target (internal/requests/preflight.go).
use marstack_govern.Prelude.{
  ℕ, ◌+◌, ◌^◌, ◌<◌, ◌≡◌, refl, sym, ap, subst, ◌∙◌, ◌↔◌, ◌⊎◌, ℤ, pos, pos_part, ◌≤ℤ◌, String, Bool,
  true, not, ◌&&◌, List, All, ok, arith,
}
use marstack_govern.Requests.Quota.{Compute, no_compute}
use marstack_govern.Requests.Preflight.{
  Division, Node, PreflightResult, allocatable, committed, after_grant, exceeds, judge, evaluate,
}
use marstack_govern.Requests.Preflight.Capacity.{
  IsQuota, sum_cpu, sum_memory, grant, IsOnly, total_cpu, total_memory, current_only, sum-grant,
  IsQuota-only, after_grant-pos,
}

-- The cluster holds the sum, or says nothing of the resource.
abbrev pub Holds : ℤ → ℕ → Type 0
Holds limit sum = (limit ≤ℤ pos 0) ⊎ (pos sum ≤ℤ limit)

exceeds-Holds : (s : ℕ) (limit : ℤ) → (not (exceeds (pos s) limit) ≡ true) ↔ Holds limit s
unfolding exceeds
exceeds-Holds s limit = ground arith

and_iff : {x y : Bool} {X Y : Type 0} → (x ≡ true) ↔ X → (y ≡ true) ↔ Y → (x && y ≡ true) ↔ (X × Y)
and_iff f g = ground arith

module _ (rounded : ℤ → ℤ → ℤ) (capacity total current target : Compute) (now : ℤ) (s m : ℕ)
    (cpu : after_grant total.cpu_millicores current.cpu_millicores target.cpu_millicores ≡ pos s)
    (memory : after_grant total.memory_bytes current.memory_bytes target.memory_bytes ≡ pos m) where
  judge-Holds :
      ((judge rounded capacity total current target now).admitted ≡ true)
      ↔ (Holds capacity.cpu_millicores s × Holds capacity.memory_bytes m)
  unfolding judge
  judge-Holds =
      and_iff
        (subst
          (λ a. (not (exceeds a capacity.cpu_millicores) ≡ true) ↔ Holds capacity.cpu_millicores s)
          (sym cpu) (exceeds-Holds s capacity.cpu_millicores))
        (subst (λ a. (not (exceeds a capacity.memory_bytes) ≡ true) ↔ Holds capacity.memory_bytes m)
          (sym memory) (exceeds-Holds m capacity.memory_bytes))

-- Where both lists are read, the division stands in the list once, no quota and no target is
-- negative, and the sums with the target fit an int64, the preflight gives a result, and it admits
-- the target exactly when, for CPU and for memory, what the nodes can allocate is unknown (not
-- positive) or is at least the sum of all quotas after the division's has become the target.
pub evaluate_iff :
    (rounded : ℤ → ℤ → ℤ) (nodes : List Node) (divisions : List Division) (name : String)
    (target : Compute) (now : ℤ) {d : Division}
    → IsOnly name d divisions
    → All (λ e. IsQuota e.quota) divisions
    → IsQuota target
    → sum_cpu divisions + pos_part target.cpu_millicores < 2 ^ 63
    → sum_memory divisions + pos_part target.memory_bytes < 2 ^ 63
    → (r : PreflightResult) × (evaluate rounded (ok nodes) (ok divisions) name target now ≡ ok r)
      × ((r.admitted ≡ true) ↔ (
          Holds
            (allocatable nodes no_compute).cpu_millicores
            (sum_cpu (grant name target divisions))
          × Holds
              (allocatable nodes no_compute).memory_bytes
              (sum_memory (grant name target divisions))))
unfolding evaluate
evaluate_iff rounded nodes divisions name target now {d = d} o q qt hc hm =
    let t = committed name divisions no_compute no_compute in
    let g = sum-grant name target o in
    let k = IsQuota-only name o q in
    let current = current_only name no_compute no_compute o in
    let cpu =
      subst
        (λ a.
          after_grant a d.quota.cpu_millicores target.cpu_millicores
          ≡ pos (sum_cpu (grant name target divisions)))
        (sym (
          total_cpu name divisions no_compute no_compute 0 refl q (omega arith)
          ∙ ap pos {x = 0 + sum_cpu divisions} {y = sum_cpu divisions} (omega arith)))
        (after_grant-pos (sum_cpu divisions) (sum_cpu (grant name target divisions))
          d.quota.cpu_millicores target.cpu_millicores k.0.0 qt.0 k.1 g.0 hc) in
    let memory =
      subst
        (λ a.
          after_grant a d.quota.memory_bytes target.memory_bytes
          ≡ pos (sum_memory (grant name target divisions)))
        (sym (
          total_memory name divisions no_compute no_compute 0 refl q (omega arith)
          ∙ ap pos {x = 0 + sum_memory divisions} {y = sum_memory divisions} (omega arith)))
        (after_grant-pos (sum_memory divisions) (sum_memory (grant name target divisions))
          d.quota.memory_bytes target.memory_bytes k.0.1 qt.1 k.2 g.1 hm) in
    (
      judge rounded (allocatable nodes no_compute) t.0 t.1 target now,
      refl,
      judge-Holds rounded (allocatable nodes no_compute) t.0 t.1 target now _ _
          (ap (λ c. after_grant t.0.cpu_millicores c.cpu_millicores target.cpu_millicores) current
            ∙ cpu)
          (ap (λ c. after_grant t.0.memory_bytes c.memory_bytes target.memory_bytes) current
            ∙ memory),
    )
