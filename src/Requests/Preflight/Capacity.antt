-- ===== src/Requests/Preflight/Capacity.antt =====
-- A preflight admits a target exactly when the cluster can hold all quotas with the target in the
-- division's place (internal/requests/preflight.go).
use marstack_govern.Prelude.{
  ℕ, ◌+◌, ◌^◌, ◌≤◌, ◌<◌, ◌≡◌, refl, ap, ◌∙◌, ℤ, pos, pos_part, ◌≤ℤ◌, add64, sub64, add64_parts,
  sub64_parts, parts_exclusive, eq_of_parts, String, str_eq, true, false, List, [], ◌∷◌, All,
  if◌then◌else◌, arith,
}
use marstack_govern.Requests.Quota.{Compute}
use marstack_govern.Requests.Preflight.{Division, committed, after_grant}

abbrev pub IsQuota : Compute → Type 0
IsQuota q = (pos 0 ≤ℤ q.cpu_millicores) × (pos 0 ≤ℤ q.memory_bytes)

abbrev pub sum_cpu : List Division → ℕ
sum_cpu [] = 0
sum_cpu (d ∷ ds) = pos_part d.quota.cpu_millicores + sum_cpu ds

abbrev pub sum_memory : List Division → ℕ
sum_memory [] = 0
sum_memory (d ∷ ds) = pos_part d.quota.memory_bytes + sum_memory ds

-- The divisions once the target is granted to the division of that name.
abbrev pub grant : String → Compute → List Division → List Division
grant name target [] = []
grant name target (d ∷ ds) =
    (if str_eq d.name name then record d { quota = target } else d) ∷ grant name target ds

abbrev pub IsAbsent : String → List Division → Type 0
IsAbsent name = All (λ d. str_eq d.name name ≡ false)

-- The name stands once in the list, at the division `d`.
pub data IsOnly (name : String) (d : Division) : List Division → Type 0 where
  here :
      {ds : List Division} → str_eq d.name name ≡ true → IsAbsent name ds → IsOnly name d (d ∷ ds)
  there :
      {e : Division} {ds : List Division}
      → str_eq e.name name ≡ false
      → IsOnly name d ds
      → IsOnly name d (e ∷ ds)

add64-pos :
    (t : ℕ) (a : ℤ) → pos 0 ≤ℤ a → t + pos_part a < 2 ^ 63 → add64 (pos t) a ≡ pos (t + pos_part a)
add64-pos t a h k = eq_of_parts _ _ (
    omega (
      arith,
      parts_exclusive a,
      add64_parts (pos t) a (omega (arith, parts_exclusive a)) (omega (arith, parts_exclusive a)),
    ))

module _ (name : String) where
  pub total_cpu :
      (ds : List Division) (total current : Compute) (t : ℕ)
      → total.cpu_millicores ≡ pos t
      → All (λ d. IsQuota d.quota) ds
      → t + sum_cpu ds < 2 ^ 63
      → (committed name ds total current).0.cpu_millicores ≡ pos (t + sum_cpu ds)
  unfolding committed
  total_cpu [] total current t e q h = e ∙ ap pos (omega arith)
  total_cpu (d ∷ ds) total current t e q h =
      total_cpu ds _ _ (t + pos_part d.quota.cpu_millicores)
        (ap (λ a. add64 a d.quota.cpu_millicores) e
          ∙ add64-pos t d.quota.cpu_millicores q.0.0 (omega arith))
        q.1 (omega arith)
      ∙ ap pos (omega arith)

  pub total_memory :
      (ds : List Division) (total current : Compute) (t : ℕ)
      → total.memory_bytes ≡ pos t
      → All (λ d. IsQuota d.quota) ds
      → t + sum_memory ds < 2 ^ 63
      → (committed name ds total current).0.memory_bytes ≡ pos (t + sum_memory ds)
  unfolding committed
  total_memory [] total current t e q h = e ∙ ap pos (omega arith)
  total_memory (d ∷ ds) total current t e q h =
      total_memory ds _ _ (t + pos_part d.quota.memory_bytes)
        (ap (λ a. add64 a d.quota.memory_bytes) e
          ∙ add64-pos t d.quota.memory_bytes q.0.1 (omega arith))
        q.1 (omega arith)
      ∙ ap pos (omega arith)

  current_absent :
      (ds : List Division) (total current : Compute)
      → IsAbsent name ds
      → (committed name ds total current).1 ≡ current
  unfolding committed
  current_absent [] total current a = refl
  current_absent (d ∷ ds) total current a = current_absent ds _ _ a.1 ∙ (rw a.0 refl)

  pub current_only :
      {d : Division} {ds : List Division} (total current : Compute)
      → IsOnly name d ds
      → (committed name ds total current).1 ≡ d.quota
  unfolding committed
  current_only total current (here {ds = ds} p a) = current_absent ds _ _ a ∙ (rw p refl)
  current_only total current (there p o) = current_only _ _ o

  sum-grant_absent :
      (target : Compute) (ds : List Division)
      → IsAbsent name ds
      → (sum_cpu (grant name target ds) ≡ sum_cpu ds)
        × (sum_memory (grant name target ds) ≡ sum_memory ds)
  sum-grant_absent target [] a = (refl, refl)
  sum-grant_absent target (d ∷ ds) a =
      let rest = sum-grant_absent target ds a.1 in rw a.0 (omega arith, omega arith)

  pub sum-grant :
      (target : Compute) {d : Division} {ds : List Division}
      → IsOnly name d ds
      → (sum_cpu (grant name target ds) + pos_part d.quota.cpu_millicores
          ≡ sum_cpu ds + pos_part target.cpu_millicores)
        × (sum_memory (grant name target ds) + pos_part d.quota.memory_bytes
            ≡ sum_memory ds + pos_part target.memory_bytes)
  sum-grant target (here {ds = ds} p a) =
      let rest = sum-grant_absent target ds a in rw p (omega arith, omega arith)
  sum-grant target (there p o) = let rest = sum-grant target o in rw p (omega arith, omega arith)

  pub IsQuota-only :
      {d : Division} {ds : List Division}
      → IsOnly name d ds
      → All (λ e. IsQuota e.quota) ds
      → IsQuota d.quota
        × (pos_part d.quota.cpu_millicores ≤ sum_cpu ds)
        × (pos_part d.quota.memory_bytes ≤ sum_memory ds)
  IsQuota-only (here p a) q = (q.0, omega arith, omega arith)
  IsQuota-only (there p o) q = let rest = IsQuota-only o q.1 in (rest.0, omega arith, omega arith)

-- `total - current + target` on int64, where the quotas are sums of parts.
pub after_grant-pos :
    (t s : ℕ) (current target : ℤ)
    → pos 0 ≤ℤ current
    → pos 0 ≤ℤ target
    → pos_part current ≤ t
    → s + pos_part current ≡ t + pos_part target
    → t + pos_part target < 2 ^ 63
    → after_grant (pos t) current target ≡ pos s
unfolding after_grant
after_grant-pos t s current target hc ht le e h =
    let d =
      sub64_parts (pos t) current (omega (arith, parts_exclusive current))
        (omega (arith, parts_exclusive current)) in
    let x = parts_exclusive (sub64 (pos t) current) in
    let c = parts_exclusive current in
    let g = parts_exclusive target in
    eq_of_parts _ _
      (omega (arith, add64_parts (sub64 (pos t) current) target (omega arith) (omega arith)))
