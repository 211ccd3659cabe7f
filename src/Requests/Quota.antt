-- ===== src/Requests/Quota.antt =====
-- Quantities and phases: `Compute` of internal/requests/recommender.go, and the phases of
-- api/v1alpha1/quotarequest_types.go.
use marstack_govern.Prelude.{ℤ, pos, Bool, false, not}

pub record Compute : Type 0 where
  pub cpu_millicores : ℤ
  pub memory_bytes : ℤ
  pub storage_bytes : ℤ
  pub pods : ℤ

abbrev pub no_compute : Compute
no_compute = record {
  cpu_millicores = pos 0;
  memory_bytes = pos 0;
  storage_bytes = pos 0;
  pods = pos 0;
}

-- `RequestPhase`; `unset` is the empty text.
pub data RequestPhase : Type 0 where
  unset pending awaiting_decision approved rejected changes_requested applied expired withdrawn :
      RequestPhase

-- `QuotaRequest.Open`, of the phase and `spec.withdrawn`.
unfoldable pub is_open : RequestPhase → Bool → Bool
is_open unset is_withdrawn = not is_withdrawn
is_open pending is_withdrawn = not is_withdrawn
is_open awaiting_decision is_withdrawn = not is_withdrawn
is_open changes_requested is_withdrawn = not is_withdrawn
is_open _ is_withdrawn = false
