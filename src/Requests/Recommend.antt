-- ===== src/Requests/Recommend.antt =====
-- internal/requests/recommender.go: the proposed quota. The headroom is a float64 product, whose
-- rounded value is a parameter.
pub mod Bounds
use marstack_govern.Prelude.{
  ℕ, ◌%◌, ℤ, pos, negsuc, pos_part, leb_ℤ, ltb_ℤ, eqb_ℤ, add64, sub64, ◌==◌, Bool, if◌then◌else◌,
}
use marstack_govern.Requests.Quota.{Compute}

abbrev pub cpu_step_millis : ℕ
cpu_step_millis = 500

abbrev pub memory_step_bytes : ℕ
memory_step_bytes = 536870912

-- `roundUpTo`, for a positive step. The remainder is taken of a positive value.
unfoldable pub round_up_to : ℤ → ℕ → ℤ
round_up_to value step =
    if leb_ℤ value (pos 0)
    then pos step
    else (let remainder = pos_part value % step in
        if remainder == 0 then value else sub64 (add64 value (pos step)) (pos remainder))

-- The part of `Recommend` that proposes, from the p99 of CPU and memory and the current quota.
unfoldable pub propose : (ℤ → ℤ) → ℤ → ℤ → Compute → Compute
unfolding round_up_to
propose with_headroom cpu_p99 memory_p99 current =
    let cpu = round_up_to (with_headroom cpu_p99) cpu_step_millis in
    let memory = round_up_to (with_headroom memory_p99) memory_step_bytes in
    record current {
      cpu_millicores = if ltb_ℤ cpu current.cpu_millicores then current.cpu_millicores else cpu;
      memory_bytes = if ltb_ℤ memory current.memory_bytes then current.memory_bytes else memory;
    }
