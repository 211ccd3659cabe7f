-- ===== src/Requests/Preflight/Explanation.antt =====
-- What the findings of a preflight say (internal/requests/preflight.go).
use marstack_govern.Prelude.{
  ◌≡◌, refl, sym, subst, ◌∙◌, not, ◌&&◌, ◌↔◌, ℤ, Bool, true, false, ◌||◌, List, [], ◌∷◌, ◌++◌, ok,
  String, arith,
}
use marstack_govern.Requests.Quota.{Compute, no_compute}
use marstack_govern.Requests.Preflight.{
  Division, Node, warn, block, Finding, PreflightResult, allocatable, committed, after_grant,
  exceeds, percent_of, shrink_findings, cpu_findings, memory_findings, headroom_findings, judge,
  evaluate,
}

-- Some finding is of the severity "block".
abbrev pub has_block : List Finding → Bool
has_block [] = false
has_block (f ∷ fs) = let rest = has_block fs in elim f.severity [ warn ↦ rest | block ↦ true ]

has_block-append : (xs ys : List Finding) → has_block (xs ++ ys) ≡ (has_block xs || has_block ys)
has_block-append [] ys = refl
has_block-append (x ∷ xs) ys = ground (arith, has_block-append xs ys)

has_block-shrink : (target current : ℤ) → has_block (shrink_findings target current) ≡ false
unfolding shrink_findings
has_block-shrink target current = ground arith

has_block-cpu : (after limit : ℤ) → has_block (cpu_findings after limit) ≡ exceeds after limit
unfolding cpu_findings
has_block-cpu after limit = ground arith

has_block-memory : (after limit : ℤ) → has_block (memory_findings after limit) ≡ exceeds after limit
unfolding memory_findings
has_block-memory after limit = ground arith

has_block-headroom :
    (admitted : Bool) (percent : ℤ) → has_block (headroom_findings admitted percent) ≡ false
unfolding headroom_findings
has_block-headroom admitted percent = ground arith

has_block-all :
    (a b c d : List Finding)
    → has_block (a ++ (b ++ (c ++ d)))
      ≡ (has_block a || (has_block b || (has_block c || has_block d)))
has_block-all a b c d =
    ground
      (arith, has_block-append a (b ++ (c ++ d)), has_block-append b (c ++ d), has_block-append c d)

refusal : (x y : Bool) → ((not x && not y) ≡ false) ↔ ((false || (x || (y || false))) ≡ true)
refusal x y = ground arith

module _ (rounded : ℤ → ℤ → ℤ) (capacity total current target : Compute) (now : ℤ) where
  judge-has_block :
      let r = judge rounded capacity total current target now in
      (r.admitted ≡ false) ↔ (has_block r.findings ≡ true)
  unfolding judge
  judge-has_block =
      let cpu = after_grant total.cpu_millicores current.cpu_millicores target.cpu_millicores in
      let memory = after_grant total.memory_bytes current.memory_bytes target.memory_bytes in
      let x = exceeds cpu capacity.cpu_millicores in
      let y = exceeds memory capacity.memory_bytes in
      let percent = percent_of rounded cpu capacity.cpu_millicores in
      let warned = shrink_findings target.cpu_millicores current.cpu_millicores in
      let cpus = cpu_findings cpu capacity.cpu_millicores in
      let mems = memory_findings memory capacity.memory_bytes in
      let head = headroom_findings (not x && not y) percent in
      let same : has_block (warned ++ (cpus ++ (mems ++ head))) ≡ (false || (x || (y || false))) =
        has_block-all warned cpus mems head
        ∙ (rw
            (
              has_block-shrink target.cpu_millicores current.cpu_millicores,
              has_block-cpu cpu capacity.cpu_millicores,
              has_block-memory memory capacity.memory_bytes,
              has_block-headroom (not x && not y) percent,
            )
            refl) in
      subst (λ b. ((not x && not y) ≡ false) ↔ (b ≡ true)) (sym same) (refusal x y)

-- Every refusal is explained, and nothing else is called a block: a preflight's result is not
-- admitted exactly when some finding of it is of the severity "block".
pub evaluate-has_block :
    (rounded : ℤ → ℤ → ℤ) (nodes : List Node) (divisions : List Division) (name : String)
    (target : Compute) (now : ℤ)
    → (r : PreflightResult) × (evaluate rounded (ok nodes) (ok divisions) name target now ≡ ok r)
      × ((r.admitted ≡ false) ↔ (has_block r.findings ≡ true))
unfolding evaluate
evaluate-has_block rounded nodes divisions name target now =
    let t = committed name divisions no_compute no_compute in
    (
      judge rounded (allocatable nodes no_compute) t.0 t.1 target now,
      refl,
      judge-has_block rounded (allocatable nodes no_compute) t.0 t.1 target now,
    )
