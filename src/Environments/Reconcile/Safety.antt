-- ===== src/Environments/Reconcile/Safety.antt =====
-- What a reconciliation of a preview may do (internal/environments/reconciler.go).
use marstack_govern.Prelude.{
  ◌≡◌, refl, ◌||◌, str_eq, str_eq_iff, ◌⊎◌, inl, inr, String, Bool, true, false, List, [], ◌∷◌, ok,
  arith, Result-cases, Bool-cases,
}
use marstack_govern.Environments.Lease.{GoTexts, Lease, expired, lease_of}
use marstack_govern.Environments.Reconcile.{
  reclaiming, Condition, Status, Environment, found, Api, Action, provision, delete, Outcome,
  namespace_for, owned_by, set_condition, close, remove, reclaim, leased, finish_provision,
  provision_all, live, is_reclaimed, with_lease, observed, reconcile_found,
}

-- Whether the namespace `name` is deleted.
abbrev pub deletes : String → List Action → Bool
deletes name [] = false
deletes name (delete deleted ∷ rest) = str_eq deleted name || deletes name rest
deletes name (_ ∷ rest) = deletes name rest

abbrev pub provisions : List Action → Bool
provisions [] = false
provisions (provision name ∷ rest) = true
provisions (_ ∷ rest) = provisions rest

-- The namespace of the preview is there, and names the environment as its owner.
abbrev is_ours_at : Api → Environment → String → Bool
is_ours_at api e name = elim (api.namespace name) [
  | found ns ↦ owned_by e.uid ns.owners
  | _ ↦ false
]

abbrev pub is_ours : Api → Environment → Bool
is_ours api e = is_ours_at api e (namespace_for e)

module _ (ssc : List Condition → Condition → List Condition) (go : GoTexts) where
  deletes-remove :
      (api : Api) (e : Environment) (s : Status) (lease : Lease) (name : String)
      → deletes name (reclaim ssc go api e s lease).actions ≡ true
      → (name ≡ s.namespace) × (is_ours_at api e s.namespace ≡ true)
  unfolding reclaim remove close
  deletes-remove api e s lease name h = ground (arith, str_eq_iff s.namespace name)

  deletes-live :
      (api : Api) (e : Environment) (s : Status) (lease : Lease) (name : String)
      → deletes name (live ssc go api e s lease).actions ≡ false
  unfolding live provision_all finish_provision close
  deletes-live api e s lease name = ground arith

  provisions-reclaim :
      (api : Api) (e : Environment) (s : Status) (lease : Lease)
      → provisions (reclaim ssc go api e s lease).actions ≡ false
  unfolding reclaim remove close
  provisions-reclaim api e s lease = ground arith

  pub namespace-leased :
      (s : Status) (lease : Lease) → (leased ssc go s lease).namespace ≡ s.namespace
  unfolding leased set_condition
  namespace-leased s lease = ground arith

  pub observed_fields :
      (e : Environment)
      → ((observed e).namespace ≡ namespace_for e) × ((observed e).phase ≡ e.status.phase)
  unfolding observed
  observed_fields e = (refl, refl)

  -- The branches of `with_lease`: an environment that is already reclaimed, a lease that ran
  -- out, and a lease that runs.
  pub with_lease_cases :
      (api : Api) (e : Environment) (s : Status) (lease : Lease)
      → (with_lease ssc go api e s lease ≡ reclaim ssc go api e s lease)
        ⊎ (with_lease ssc go api e s lease
            ≡ reclaim ssc go api e (record (leased ssc go s lease) { phase = reclaiming }) lease)
        ⊎ ((is_reclaimed s.phase ≡ false)
            × (expired lease api.now ≡ false)
            × (with_lease ssc go api e s lease ≡ live ssc go api e (leased ssc go s lease) lease))
  unfolding with_lease
  with_lease_cases api e s lease = elim (Bool-cases (is_reclaimed s.phase)) [
    | inl p ↦ inl (rw (p, with_lease) refl)
    | inr p ↦ elim (Bool-cases (expired lease api.now)) [
      | inl q ↦ inr (inl (rw (p, with_lease, q) refl))
      | inr q ↦ inr (inr (p, q, rw (p, with_lease, q) refl))
    ]
  ]

  pub same_acts :
      (f : List Action → Bool) {o o' : Outcome} {b : Bool}
      → o ≡ o'
      → f o.actions ≡ b
      → f o'.actions ≡ b
  same_acts f p h = cc

  deletes-with_lease :
      (api : Api) (e : Environment) (lease : Lease) (name : String)
      → deletes name (with_lease ssc go api e (observed e) lease).actions ≡ true
      → (name ≡ namespace_for e) × (is_ours api e ≡ true)
  deletes-with_lease api e lease name h =
      let (same, _) = observed_fields e in
      elim (with_lease_cases api e (observed e) lease) [
        | inl p ↦
            rw (← same)
              (deletes-remove api e (observed e) lease name (same_acts (deletes name) p h))
        | inr (inl p) ↦
            rw (← same, ← namespace-leased (observed e) lease)
              (deletes-remove api e
                (record (leased ssc go (observed e) lease) { phase = reclaiming }) lease name
                (same_acts (deletes name) p h))
        | inr (inr (_, _, p)) ↦ absurd (
            let none_deleted = deletes-live api e (leased ssc go (observed e) lease) lease name in
            let some_deleted = same_acts (deletes name) p h in (cc))
      ]

  -- A reconciliation deletes no namespace but the one named after the preview's division and
  -- number, and this one only if it is there and names this environment as its owner, and the
  -- environment is not being deleted itself.
  pub deletes_only_ours :
      (api : Api) (e : Environment) (name : String)
      → deletes name (reconcile_found ssc go api e).actions ≡ true
      → (name ≡ namespace_for e) × (is_ours api e ≡ true) × (e.deleting ≡ false)
  unfolding reconcile_found close
  deletes_only_ours api e name h =
      elim (Result-cases (lease_of go e.ttl e.renewals e.created e.status.lease_started_at)) [
        | inl (lease, p) ↦ ground (arith, deletes-with_lease api e lease name)
        | inr (m, p) ↦ ground arith
      ]

  provisions-with_lease :
      (api : Api) (e : Environment) (lease : Lease)
      → provisions (with_lease ssc go api e (observed e) lease).actions ≡ true
      → (is_reclaimed e.status.phase ≡ false) × (expired lease api.now ≡ false)
  provisions-with_lease api e lease h =
      let (_, phase) = observed_fields e in
      elim (with_lease_cases api e (observed e) lease) [
        | inl p ↦ absurd (
            let no_provision = provisions-reclaim api e (observed e) lease in
            let some_provision = same_acts provisions p h in (cc))
        | inr (inl p) ↦ absurd (
            let no_provision =
              provisions-reclaim api e
                (record (leased ssc go (observed e) lease) { phase = reclaiming }) lease in
            let some_provision = same_acts provisions p h in (cc))
        | inr (inr (q, r, _)) ↦ (rw (← phase) q, r)
      ]

  -- A namespace is provisioned only for a lease that can be read and has not run out, of an
  -- environment that is neither reclaiming nor orphaned: a reclaimed preview does not come back
  -- from those phases.
  pub provisions_only_live :
      (api : Api) (e : Environment) (lease : Lease)
      → lease_of go e.ttl e.renewals e.created e.status.lease_started_at ≡ ok lease
      → provisions (reconcile_found ssc go api e).actions ≡ true
      → (is_reclaimed e.status.phase ≡ false) × (expired lease api.now ≡ false)
  unfolding reconcile_found
  provisions_only_live api e lease read h = ground (arith, provisions-with_lease api e lease)
