-- ===== src/Environments/Reconcile/Readiness.antt =====
-- What stands behind a preview's phase Ready (internal/environments/reconciler.go).
use marstack_govern.Prelude.{
  ℤ, pos, ◌≤ℤ◌, ◌<ℤ◌, ◌-ℤ◌, ◌≡◌, refl, sym, subst, ◌∙◌, ◌||◌, str_eq, str_eq_iff, ◌⊎◌, inl, inr,
  String, Bool, true, false, List, [], ◌∷◌, none, ok, arith,
}
use marstack_govern.Environments.Lease.{GoTexts, Lease, expired, remaining, lease_of}
use marstack_govern.Environments.Reconcile.{
  ready, reclaiming, Condition, Status, Environment, found, Api, Action, provision, bound, isolate,
  Division, Lookup, isolation_enabled, failed, missing, record_status, Outcome, sweep_delay,
  max_sweep_delay, namespace_for, set_condition, close, remove, reclaim, leased, finish_provision,
  provision_all, live, with_lease, observed, reconcile_found, expired_status, orphaned_status,
  reclaiming_status, ready_status, missing_division,
}
use marstack_govern.Environments.Reconcile.Safety.{
  namespace-leased, observed_fields, with_lease_cases, same_acts,
}

-- Whether the calls that provision a namespace were made for the namespace `name`.
abbrev pub ensures_namespace : String → List Action → Bool
ensures_namespace name [] = false
ensures_namespace name (provision at ∷ rest) = str_eq at name || ensures_namespace name rest
ensures_namespace name (_ ∷ rest) = ensures_namespace name rest

abbrev pub ensures_quota : String → List Action → Bool
ensures_quota name [] = false
ensures_quota name (bound at ∷ rest) = str_eq at name || ensures_quota name rest
ensures_quota name (_ ∷ rest) = ensures_quota name rest

abbrev pub ensures_default_deny : String → List Action → Bool
ensures_default_deny name [] = false
ensures_default_deny name (isolate at ∷ rest) = str_eq at name || ensures_default_deny name rest
ensures_default_deny name (_ ∷ rest) = ensures_default_deny name rest

-- Whether the status that is written, if one is, is Ready.
abbrev pub writes_ready : List Action → Bool
writes_ready [] = false
writes_ready (record_status s ∷ rest) = elim s.phase [ ready ↦ true | _ ↦ false ]
writes_ready (_ ∷ rest) = writes_ready rest

-- The delay until the next sweep of a lease that runs.
sweep_delay-remaining :
    (lease : Lease) (now : ℤ)
    → expired lease now ≡ false
    → let delay = sweep_delay (remaining lease now) in
      (pos 0 <ℤ delay) × (delay ≤ℤ max_sweep_delay) × (delay ≤ℤ lease.expires_at -ℤ now)
unfolding sweep_delay remaining ◌-ℤ◌
sweep_delay-remaining lease now live = ground arith

module _ (ssc : List Condition → Condition → List Condition) (go : GoTexts) where
  not_ready :
      (api : Api) (e : Environment) (s : Status) (lease : Lease)
      → writes_ready (reclaim ssc go api e s lease).actions ≡ false
  unfolding reclaim remove close expired_status orphaned_status reclaiming_status set_condition
  not_ready api e s lease = ground arith

  -- The calls that provision the namespace `name` were made and have succeeded; the last one is
  -- made where the division is isolated.
  pub record IsProvisioned (api : Api) (e : Environment) (name : String) (actions : List Action)
      : Type 0 where
    pub namespace_asked : ensures_namespace name actions ≡ true
    pub namespace_made : api.ensure_namespace name ≡ none
    pub quota_asked : ensures_quota name actions ≡ true
    pub quota_made : api.ensure_quota name ≡ none
    pub division : Division
    pub division_found : api.division e.division ≡ found division
    pub isolation_asked :
        isolation_enabled division ≡ true → ensures_default_deny name actions ≡ true
    pub isolation_made : isolation_enabled division ≡ true → api.ensure_default_deny name ≡ none

  -- What stands behind a status Ready that was written.
  abbrev IsBacked : Api → Environment → String → Lease → Outcome → Type 0
  IsBacked api e name lease o =
      IsProvisioned api e name o.actions × (o.requeue_after ≡ sweep_delay (remaining lease api.now))

  ready-provision_all :
      (api : Api) (e : Environment) (s : Status) (lease : Lease) (division : Division)
      → api.write_status ≡ none
      → api.division e.division ≡ found division
      → writes_ready (provision_all ssc go api e s lease division).actions ≡ true
      → IsBacked api e s.namespace lease (provision_all ssc go api e s lease division)
  unfolding provision_all finish_provision close set_condition ready_status
  ready-provision_all api e s lease division w d h =
      let same = str_eq_iff s.namespace s.namespace in
      (
        record {
          namespace_asked = ground (arith, same);
          namespace_made = ground arith;
          quota_asked = ground (arith, same);
          quota_made = ground arith;
          division = division;
          division_found = d;
          isolation_asked = λ i. ground (arith, same, i);
          isolation_made = λ i. ground (arith, i);
        },
        ground arith,
      )

  not_live_missing :
      (api : Api) (e : Environment) (s : Status) (lease : Lease)
      → api.division e.division ≡ missing
      → writes_ready (live ssc go api e s lease).actions ≡ false
  unfolding live close missing_division set_condition
  not_live_missing api e s lease p = ground (arith, p)

  not_live_failed :
      (api : Api) (e : Environment) (s : Status) (lease : Lease) (m : String)
      → api.division e.division ≡ failed m
      → writes_ready (live ssc go api e s lease).actions ≡ false
  unfolding live
  not_live_failed api e s lease m p = ground (arith, p)

  -- A status Ready is written only where the division was found.
  live_cases :
      (api : Api) (e : Environment) (s : Status) (lease : Lease)
      → ((division : Division) × (api.division e.division ≡ found division)
          × (live ssc go api e s lease ≡ provision_all ssc go api e s lease division))
        ⊎ (writes_ready (live ssc go api e s lease).actions ≡ false)
  unfolding live provision_all
  live_cases api e s lease = go_on (api.division e.division) refl
    where
      go_on :
          (answer : Lookup Division)
          → api.division e.division ≡ answer
          → ((division : Division) × (api.division e.division ≡ found division)
              × (live ssc go api e s lease ≡ provision_all ssc go api e s lease division))
            ⊎ (writes_ready (live ssc go api e s lease).actions ≡ false)
      go_on (found division) p = inl (division, p, rw (live, p) refl)
      go_on missing p = inr (not_live_missing api e s lease p)
      go_on (failed m) p = inr (not_live_failed api e s lease m p)

  ready-live :
      (api : Api) (e : Environment) (s : Status) (lease : Lease)
      → api.write_status ≡ none
      → writes_ready (live ssc go api e s lease).actions ≡ true
      → IsBacked api e s.namespace lease (live ssc go api e s lease)
  ready-live api e s lease w h = elim (live_cases api e s lease) [
    | inr q ↦ absurd (let r : true ≡ false = sym h ∙ q in cc)
    | inl (division, d, p) ↦
        subst (IsBacked api e s.namespace lease) (sym p)
          (ready-provision_all api e s lease division w d (same_acts ssc go writes_ready p h))
  ]

  ready-with_lease :
      (api : Api) (e : Environment) (lease : Lease)
      → api.write_status ≡ none
      → writes_ready (with_lease ssc go api e (observed e) lease).actions ≡ true
      → (expired lease api.now ≡ false)
        × IsBacked api e (namespace_for e) lease (with_lease ssc go api e (observed e) lease)
  ready-with_lease api e lease w h = elim (with_lease_cases ssc go api e (observed e) lease) [
    | inl p ↦ absurd (
        let no_ready = not_ready api e (observed e) lease in
        let some_ready = same_acts ssc go writes_ready p h in (cc))
    | inr (inl p) ↦ absurd (
        let no_ready =
          not_ready api e (record (leased ssc go (observed e) lease) { phase = reclaiming })
            lease in
        let some_ready = same_acts ssc go writes_ready p h in (cc))
    | inr (inr (_, r, p)) ↦ (
      r,
      subst (λ name. IsBacked api e name lease (with_lease ssc go api e (observed e) lease))
          (namespace-leased ssc go (observed e) lease ∙ (observed_fields ssc go e).0)
          (subst (IsBacked api e (leased ssc go (observed e) lease).namespace lease) (sym p) (
            ready-live api e (leased ssc go (observed e) lease) lease w
              (same_acts ssc go writes_ready p h))),
    )
  ]

  reconcile_found_read :
      (api : Api) (e : Environment) (lease : Lease)
      → lease_of go e.ttl e.renewals e.created e.status.lease_started_at ≡ ok lease
      → e.deleting ≡ false
      → reconcile_found ssc go api e ≡ with_lease ssc go api e (observed e) lease
  unfolding reconcile_found
  reconcile_found_read api e lease read p = ground arith

  ready_not_deleting :
      (api : Api) (e : Environment)
      → writes_ready (reconcile_found ssc go api e).actions ≡ true
      → e.deleting ≡ false
  unfolding reconcile_found
  ready_not_deleting api e h = ground arith

  -- A status Ready is written only for a lease that runs and after the calls that make the preview's
  -- namespace and its quota, and the default-deny policy where its division is isolated, were made
  -- and have succeeded in the same reconciliation; and then the next reconciliation comes within
  -- ten minutes, and no later than the end of the lease. The write of the status succeeds.
  pub ready_backed :
      (api : Api) (e : Environment) (lease : Lease)
      → lease_of go e.ttl e.renewals e.created e.status.lease_started_at ≡ ok lease
      → api.write_status ≡ none
      → writes_ready (reconcile_found ssc go api e).actions ≡ true
      → let o = reconcile_found ssc go api e in
        IsProvisioned api e (namespace_for e) o.actions
        × (expired lease api.now ≡ false)
        × (pos 0 <ℤ o.requeue_after)
        × (o.requeue_after ≤ℤ max_sweep_delay)
        × (o.requeue_after ≤ℤ lease.expires_at -ℤ api.now)
  ready_backed api e lease read w h =
      let p = reconcile_found_read api e lease read (ready_not_deleting api e h) in
      let (live, backed) = ready-with_lease api e lease w (same_acts ssc go writes_ready p h) in
      let (positive, soon, in_time) = sweep_delay-remaining lease api.now live in
      rw p (backed.0, live, rw backed.1 positive, rw backed.1 soon, rw backed.1 in_time)
