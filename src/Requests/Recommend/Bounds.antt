-- ===== src/Requests/Recommend/Bounds.antt =====
-- What a proposal is at least (internal/requests/recommender.go).
use marstack_govern.Prelude.{
  ℕ, ◌+◌, ◌%◌, ◌^◌, ◌<◌, ◌≡◌, refl, ◌⊎◌, inl, inr, ℤ, pos, pos_part, ◌≤ℤ◌, ◌<ℤ◌, ltb_ℤ, add64,
  add64_parts, sub64_parts, parts_exclusive, Bool-cases, arith, ltb→lt_ℤ, if◌then◌else◌,
}
use marstack_govern.Requests.Quota.{Compute}
use marstack_govern.Requests.Recommend.{round_up_to, propose}

-- The least positive multiple of the step that is not below the value, where it is an int64.
pub record IsRounded (value : ℤ) (step : ℕ) (result : ℤ) : Type 0 where
  pub positive : pos 0 <ℤ result
  pub above : value ≤ℤ result
  pub least : result ≤ℤ pos step ⊎ (pos_part result < pos_part value + step)
  pub multiple : pos_part result % step ≡ 0

round_up_to_500 :
    (value : ℤ) → pos_part value + 500 < 2 ^ 63 → IsRounded value 500 (round_up_to value 500)
unfolding round_up_to
round_up_to_500 value h = ground (
  arith,
  add64_parts value (pos 500),
  sub64_parts (add64 value (pos 500)) (pos (pos_part value % 500)),
  parts_exclusive value,
)

round_up_to_512_mebibytes :
    (value : ℤ)
    → pos_part value + 536870912 < 2 ^ 63
    → IsRounded value 536870912 (round_up_to value 536870912)
unfolding round_up_to
round_up_to_512_mebibytes value h = ground (
  arith,
  add64_parts value (pos 536870912),
  sub64_parts (add64 value (pos 536870912)) (pos (pos_part value % 536870912)),
  parts_exclusive value,
)

-- What the proposal is for one resource: the rounded demand, or the current quota where that is more.
abbrev pub IsProposal : ℤ → ℕ → ℤ → ℤ → Type 0
IsProposal demand step current result =
    (current ≤ℤ result) × (demand ≤ℤ result) × ((result ≡ current) ⊎ IsRounded demand step result)

IsProposal-max :
    (demand : ℤ) (step : ℕ) (current rounded : ℤ)
    → IsRounded demand step rounded
    → IsProposal demand step current (if ltb_ℤ rounded current then current else rounded)
IsProposal-max demand step current rounded r =
    let above = r.above in
    elim (Bool-cases (ltb_ℤ rounded current)) [
      | inl e ↦ let l = ltb→lt_ℤ rounded current e in rw e (omega arith, omega arith, inl refl)
      | inr e ↦ rw e (ground arith, omega arith, inr r)
    ]

-- Where the demands with headroom leave room for one more step in an int64, the proposal for CPU and
-- for memory is not below the current quota and not below the demand, and it is the current quota
-- or the least positive multiple of the step (500 millicores, 512 MiB) that covers the demand; the
-- storage and the pods are those of the current quota.
pub propose-IsProposal :
    (with_headroom : ℤ → ℤ) (cpu memory : ℤ) (current : Compute)
    → pos_part (with_headroom cpu) + 500 < 2 ^ 63
    → pos_part (with_headroom memory) + 536870912 < 2 ^ 63
    → let p = propose with_headroom cpu memory current in
      IsProposal (with_headroom cpu) 500 current.cpu_millicores p.cpu_millicores
      × IsProposal (with_headroom memory) 536870912 current.memory_bytes p.memory_bytes
      × (p.storage_bytes ≡ current.storage_bytes)
      × (p.pods ≡ current.pods)
unfolding propose
propose-IsProposal with_headroom cpu memory current hc hm = (
  IsProposal-max _ 500 _ _ (round_up_to_500 (with_headroom cpu) hc),
  IsProposal-max _ 536870912 _ _ (round_up_to_512_mebibytes (with_headroom memory) hm),
  refl,
  refl,
)
