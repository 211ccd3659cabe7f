-- ===== src/Tests/Environments.antt =====
-- The theorems on previews and their leases at concrete inputs (internal/environments).
use marstack_govern.Prelude.{
  ℕ, ◌+◌, ◌≤◌, ◌<◌, pos, ◌+ℤ◌, ◌-ℤ◌, ◌≤ℤ◌, ◌<ℤ◌, String, str_eq, true, false, List, [], ◌∷◌, ◌≡◌,
  ◌⊎◌, refl, none, some, ok, arith, if◌then◌else◌,
}
use marstack_govern.Environments.Lease.{
  GoTexts, Lease, expired, Renewal, parse_ttl, extended, lease_from, lease_of, max_ttl,
}
use marstack_govern.Environments.Lease.Grant.{
  no_renewal, renewal, lease_of_total, lease_of_overflow,
}
use marstack_govern.Environments.Reconcile.{
  pending, Condition, Environment, found, Api, max_sweep_delay, reconcile_found, is_reclaimed,
  owned_by, with_lease, observed, reclaim, remove, close, live, provision_all, finish_provision,
  isolation_enabled, ready_status,
}
use marstack_govern.Environments.Reconcile.Safety.{is_ours, deletes_only_ours}
use marstack_govern.Environments.Reconcile.Readiness.{IsProvisioned, ready_backed}
use marstack_govern.Environments.Reconcile.{namespace_for, leased}
use marstack_govern.Prelude.{format_int}

-- The parser of durations, on the three texts that stand here.
abbrev texts : GoTexts
texts = record {
  parse_duration = λ t.
      if str_eq t "24h"
      then some (pos 86400000000000)
      else if str_eq t "200h"
      then some (pos 720000000000000)
      else if str_eq t "2562047h"
      then some (pos 9223369200000000000)
      else none;
  quote = λ t. t;
  format_time = λ at. "2026-01-01T00:00:00Z";
}

abbrev extension : String → Renewal
extension text = record { extend = text; reason = "review"; granted_by = "ana"; granted_at = none }

lease_of_total_example :
    (l : Lease) × (lease_of texts "24h" (extension "200h" ∷ []) (pos 1000) none ≡ ok l)
    × (l.expires_at ≡ pos 1000 +ℤ l.granted)
    × (((86400000000000 + (720000000000000 + 0) ≤ 604800000000000)
          × (l.granted ≡ pos (86400000000000 + (720000000000000 + 0)))
          × (l.clamped ≡ false))
        ⊎ ((604800000000000 < 86400000000000 + (720000000000000 + 0))
            × (l.granted ≡ max_ttl)
            × (l.clamped ≡ true)))
unfolding parse_ttl
lease_of_total_example =
    lease_of_total texts "24h" (extension "200h" ∷ []) (pos 1000) none 86400000000000
      (720000000000000 + 0) refl (renewal refl no_renewal) (omega arith)

abbrev day_lease : Lease
day_lease = record {
  started_at = pos 0;
  expires_at = pos 86400000000000;
  granted = pos 86400000000000;
  clamped = false;
}

lease_of_overflow_example :
    (l : Lease) × (lease_of texts "2562047h" (extension "24h" ∷ []) (pos 1000) none ≡ ok l)
    × (l.expires_at <ℤ pos 1000)
    × (expired l (pos 1000) ≡ true)
unfolding parse_ttl
lease_of_overflow_example =
    lease_of_overflow texts "2562047h" (extension "24h") (pos 1000) 9223369200000000000
      86400000000000 refl refl (omega arith) (omega arith) (omega arith)

abbrev set_status_condition : List Condition → Condition → List Condition
set_status_condition cs c = c ∷ []

abbrev preview : Environment
preview = record {
  uid = "u1";
  generation = pos 1;
  deleting = false;
  created = pos 0;
  division = "shop";
  repository = "shop/web";
  number = pos 7;
  ttl = "24h";
  renewals = [];
  status = record {
    phase = pending;
    namespace = "";
    lease_started_at = none;
    expires_at = none;
    granted_ttl = "";
    reclaimed_at = none;
    observed_generation = pos 0;
    conditions = [];
  };
}

-- An API server on which every call succeeds, at the time `now`.
abbrev server : ℕ → Api
server now = record {
  environment = found preview;
  division = λ name. found (record { name = name; default_deny = none });
  namespace = λ name. found (record {
    owners = (record { uid = "u1"; kind = "EphemeralEnvironment" }) ∷ [];
    deleting = false;
  });
  delete_namespace = λ name. found tt;
  ensure_namespace = λ name. none;
  ensure_quota = λ name. none;
  ensure_default_deny = λ name. none;
  write_status = none;
  now = pos now;
  later = pos now;
}

deletes_only_ours_example :
    ("shop-preview-7" ≡ namespace_for preview)
    × (is_ours (server 86400000000001) preview ≡ true)
    × (preview.deleting ≡ false)
unfolding reconcile_found lease_of parse_ttl extended lease_from ◌+ℤ◌ with_lease is_reclaimed
    observed expired reclaim owned_by remove close namespace_for leased format_int
deletes_only_ours_example =
    deletes_only_ours set_status_condition texts (server 86400000000001) preview "shop-preview-7"
      refl

ready_backed_example :
    let o = reconcile_found set_status_condition texts (server 5) preview in
    IsProvisioned set_status_condition texts (server 5) preview (namespace_for preview) o.actions
    × (expired day_lease (pos 5) ≡ false)
    × (pos 0 <ℤ o.requeue_after)
    × (o.requeue_after ≤ℤ max_sweep_delay)
    × (o.requeue_after ≤ℤ pos 86400000000000 -ℤ pos 5)
unfolding reconcile_found lease_of parse_ttl extended lease_from ◌+ℤ◌ with_lease is_reclaimed
    observed expired live provision_all finish_provision isolation_enabled close ready_status
ready_backed_example =
    ready_backed set_status_condition texts (server 5) preview day_lease refl refl refl
