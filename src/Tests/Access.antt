-- ===== src/Tests/Access.antt =====
-- The theorems on role bindings and on the authorizer at concrete inputs (internal/tenancy,
-- internal/identity).
use marstack_govern.Prelude.{
  pos, ◌-ℤ◌, String, str_eq, true, false, List, [], ◌∷◌, none, some, ok, ◌≡◌, refl, if◌then◌else◌,
}
use marstack_govern.Prelude.Assoc.{lookup, contains}
use marstack_govern.Tenancy.Access.{
  viewer, admin, Grant, Binding, group_subject, wanted, has_subject, same_subject,
  ensure_role_bindings, role_binding_name, role_text, cluster_role_for,
}
use marstack_govern.Tenancy.Access.Granted.{holds, no_faults, IsFresh, ensure_role_bindings-keeps}
use marstack_govern.Tenancy.Access.Ensured.{Asks, ensure_role_bindings-grants}
use marstack_govern.Identity.Authorizer.{
  Actor, Cluster, Clock, cached, asked, allowed, scope_for, scope_uncached,
}
use marstack_govern.Identity.Authorizer.Uncached.{IsFaithful, scope_for-uncached}
use marstack_govern.Identity.Authorizer.Stale.{allowed_ignores_groups}

-- Two groups held the role viewer; the grant of the second is gone.
abbrev viewers : Binding
viewers = record {
  name = "govern-viewer";
  cluster_role = "view";
  subjects = group_subject "shop-devs" ∷ group_subject "contractors" ∷ [];
  managed_by = some "margov";
  division = some "shop";
}

abbrev grants : List Grant
grants =
    record { group = "shop-devs"; role = viewer } ∷ record { group = "leads"; role = admin } ∷ []

ensure_role_bindings-keeps_example :
    holds "govern-viewer" "contractors"
      (ensure_role_bindings no_faults "shop" "shop-dev" grants (viewers ∷ [])).bindings
    ≡ true
unfolding contains wanted cluster_role_for role_binding_name role_text holds has_subject
    same_subject
ensure_role_bindings-keeps_example =
    ensure_role_bindings-keeps "shop" "shop-dev" grants (viewers ∷ []) "govern-viewer" "contractors"
      refl refl

ensure_role_bindings-grants_example :
    let after = ensure_role_bindings no_faults "shop" "shop-dev" grants (viewers ∷ []) in
    (after.error ≡ none)
    × IsFresh "shop" (wanted grants) after.bindings
    × ((group name : String) → Asks group name grants → holds name group after.bindings ≡ true)
ensure_role_bindings-grants_example =
    ensure_role_bindings-grants "shop" "shop-dev" grants (viewers ∷ [])

abbrev member : List String → Actor
member groups = record { subject = "ana"; groups = groups; label = "Ana" }

-- The group shop may list the namespace shop-dev.
abbrev cluster : Cluster
cluster = record {
  client = λ subject groups. none;
  review = λ subject groups namespace.
      ok (if contains "shop" groups then str_eq namespace "shop-dev" else false);
  quote = λ t. t;
}

abbrev clock : Clock
clock = record { read = λ i. pos 10; write = λ i. pos 10 }

empty-IsFaithful : IsFaithful cluster clock (pos 60) (member ("shop" ∷ [])) []
unfolding lookup
empty-IsFaithful namespace d h = cc

scope_for-uncached_example :
    ((scope_for cluster clock (pos 60) (member ("shop" ∷ [])) ("shop-dev" ∷ "bank-dev" ∷ []) []).1
      ≡ scope_uncached cluster (member ("shop" ∷ [])) ("shop-dev" ∷ "bank-dev" ∷ []))
    × IsFaithful cluster clock
        (pos 60)
        (member ("shop" ∷ []))
        (scope_for cluster clock
          (pos 60)
          (member ("shop" ∷ []))
          ("shop-dev" ∷ "bank-dev" ∷ [])
          []).0
scope_for-uncached_example =
    scope_for-uncached cluster clock (pos 60) (member ("shop" ∷ [])) ("shop-dev" ∷ "bank-dev" ∷ [])
      [] empty-IsFaithful

allowed_ignores_groups_example :
    (allowed cluster clock
      (pos 60)
      1
      (member [])
      "shop-dev"
      (allowed cluster clock (pos 60) 0 (member ("shop" ∷ [])) "shop-dev" []).0).1
    ≡ ok true
unfolding asked cached lookup contains ◌-ℤ◌
allowed_ignores_groups_example =
    allowed_ignores_groups cluster clock (pos 60) 0 1 (member ("shop" ∷ [])) (member []) "shop-dev"
      [] true refl refl refl refl
