-- ===== src/Requests/Preflight.antt =====
-- internal/requests/preflight.go: the capacity check of a target quota. The commitment in percent is
-- a rounded float64 quotient, which is a parameter.
pub mod Capacity
pub mod Admission
pub mod Explanation
use marstack_govern.Prelude.{
  ℕ, ℤ, pos, leb_ℤ, ltb_ℤ, add64, sub64, String, concat, str_eq, format_int, Bool, true, false, not,
  ◌&&◌, ◌||◌, List, [], ◌∷◌, ◌++◌, Result, ok, err, if◌then◌else◌,
}
use marstack_govern.Requests.Quota.{Compute, no_compute}

-- A division, with its quota as `quotaOf` reads it.
pub record Division : Type 0 where
  pub name : String
  pub quota : Compute

-- A node, with what it can allocate; 0 where it does not say.
pub record Node : Type 0 where
  pub unschedulable : Bool
  pub cpu : ℤ
  pub memory : ℤ

pub data Severity : Type 0 where
  warn block : Severity

pub record Finding : Type 0 where
  pub severity : Severity
  pub check : String
  pub field : String
  pub message : String

pub record PreflightResult : Type 0 where
  pub admitted : Bool
  pub findings : List Finding
  pub commitment_percent : ℤ
  pub evaluated_at : ℤ

-- The loop of `allocatable`.
unfoldable pub allocatable : List Node → Compute → Compute
allocatable [] total = total
allocatable (n ∷ ns) total = allocatable ns (
    if n.unschedulable then total else record total {
      cpu_millicores = add64 total.cpu_millicores n.cpu;
      memory_bytes = add64 total.memory_bytes n.memory;
    })

-- The loop of `committed`: the total of all quotas, and the quota of the division itself.
unfoldable pub committed : String → List Division → Compute → Compute → Compute × Compute
committed division [] total current = (total, current)
committed division (d ∷ ds) total current =
    committed division ds
      (record total {
        cpu_millicores = add64 total.cpu_millicores d.quota.cpu_millicores;
        memory_bytes = add64 total.memory_bytes d.quota.memory_bytes;
      })
      (if str_eq d.name division then d.quota else current)

-- `committed - current + target`
unfoldable pub after_grant : ℤ → ℤ → ℤ → ℤ
after_grant total current target = add64 (sub64 total current) target

-- A resource is over-committed: there is some to allocate, and less than what is committed.
unfoldable pub exceeds : ℤ → ℤ → Bool
exceeds after limit = ltb_ℤ (pos 0) limit && ltb_ℤ limit after

abbrev pub max_int32 : ℤ
max_int32 = pos 2147483647

-- `percentOf`
unfoldable pub percent_of : (ℤ → ℤ → ℤ) → ℤ → ℤ → ℤ
percent_of rounded part whole =
    if leb_ℤ whole (pos 0)
    then pos 0
    else if ltb_ℤ max_int32 (rounded part whole)
    then max_int32
    else rounded part whole

unfoldable pub shrink_findings : ℤ → ℤ → List Finding
shrink_findings target current =
    if ltb_ℤ target current
    then record {
      severity = warn;
      check = "quota-shrinks";
      field = "spec.target.cpu";
      message = concat "the target of " (
          concat (format_int target) (
            concat "m is below the current quota of " (
              concat (format_int current)
                "m, so running workloads may be evicted from their headroom")));
    }
      ∷ []
    else []

unfoldable pub cpu_findings : ℤ → ℤ → List Finding
unfolding exceeds
cpu_findings after limit =
    if exceeds after limit
    then record {
      severity = block;
      check = "cluster-cpu";
      field = "spec.target.cpu";
      message = concat "granting this would commit " (
          concat (format_int after) (
            concat "m of cpu against " (concat (format_int limit) "m allocatable in the cluster")));
    }
      ∷ []
    else []

unfoldable pub memory_findings : ℤ → ℤ → List Finding
unfolding exceeds
memory_findings after limit =
    if exceeds after limit
    then record {
      severity = block;
      check = "cluster-memory";
      field = "spec.target.memory";
      message = concat "granting this would commit " (
          concat (format_int after) (
            concat " bytes of memory against "
              (concat (format_int limit) " allocatable in the cluster")));
    }
      ∷ []
    else []

unfoldable pub headroom_findings : Bool → ℤ → List Finding
headroom_findings admitted percent =
    if admitted && leb_ℤ (pos 85) percent
    then record {
      severity = warn;
      check = "cluster-headroom";
      field = "";
      message = concat "the cluster would be " (
          concat (format_int percent)
            "% committed on cpu, leaving little room for another division");
    }
      ∷ []
    else []

-- The body of `Evaluate`, from the capacity and the quotas.
unfoldable pub judge : (ℤ → ℤ → ℤ) → Compute → Compute → Compute → Compute → ℤ → PreflightResult
unfolding percent_of shrink_findings cpu_findings memory_findings headroom_findings
judge rounded capacity total current target now =
    let cpu = after_grant total.cpu_millicores current.cpu_millicores target.cpu_millicores in
    let memory = after_grant total.memory_bytes current.memory_bytes target.memory_bytes in
    let percent = percent_of rounded cpu capacity.cpu_millicores in
    let admitted =
      not (exceeds cpu capacity.cpu_millicores) && not (exceeds memory capacity.memory_bytes) in
    record {
      admitted = admitted;
      findings =
          shrink_findings target.cpu_millicores current.cpu_millicores
          ++ (cpu_findings cpu capacity.cpu_millicores
              ++ (memory_findings memory capacity.memory_bytes
                  ++ headroom_findings admitted percent));
      commitment_percent = percent;
      evaluated_at = now;
    }

-- `Preflight.Evaluate`
unfoldable pub evaluate :
    (ℤ → ℤ → ℤ)
    → Result (List Node)
    → Result (List Division)
    → String
    → Compute
    → ℤ
    → Result PreflightResult
unfolding allocatable committed judge
evaluate rounded nodes divisions division target now = elim nodes [
  | err e ↦ err (concat "list nodes: " e)
  | ok ns ↦ elim divisions [
    | err e ↦ err (concat "list divisions: " e)
    | ok ds ↦
        let (total, current) = committed division ds no_compute no_compute in
        ok (judge rounded (allocatable ns no_compute) total current target now)
  ]
]
