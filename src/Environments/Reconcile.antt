-- ===== src/Environments/Reconcile.antt =====
-- internal/environments/reconciler.go: one reconciliation of a preview. What the API server answers
-- is the record `Api`; what the reconciler does, in order, is the list of actions of the outcome.
-- `meta.SetStatusCondition` belongs to Kubernetes and is a parameter.
pub mod Safety
pub mod Readiness
use marstack_govern.Prelude.{
  ℕ, ◌*◌, ℤ, pos, leb_ℤ, ltb_ℤ, eqb_ℤ, String, concat, str_eq, format_int, Bool, true, false, not,
  ◌&&◌, ◌||◌, List, [], ◌∷◌, ◌++◌, Option, none, some, Result, ok, err, if◌then◌else◌,
}
use marstack_govern.Kube.{ConditionStatus, condition_true, condition_false}
use marstack_govern.Environments.Lease.{
  minute, GoTexts, Lease, Renewal, expired, remaining, lease_of, format_ttl,
}

-- `EnvironmentPhase`; `unset` is the empty text.
pub data Phase : Type 0 where
  unset pending ready expired_phase reclaiming orphaned : Phase

-- A condition without its transition time, which `SetStatusCondition` keeps.
pub record Condition : Type 0 where
  pub kind : String
  pub status : ConditionStatus
  pub reason : String
  pub message : String

pub record Status : Type 0 where
  pub phase : Phase
  pub namespace : String
  pub lease_started_at : Option ℤ
  pub expires_at : Option ℤ
  pub granted_ttl : String
  pub reclaimed_at : Option ℤ
  pub observed_generation : ℤ
  pub conditions : List Condition

pub record Environment : Type 0 where
  pub uid : String
  pub generation : ℤ
  pub deleting : Bool
  pub created : ℤ
  pub division : String
  pub repository : String
  pub number : ℤ
  pub ttl : String
  pub renewals : List Renewal
  pub status : Status

pub record Owner : Type 0 where
  pub uid : String
  pub kind : String

pub record Namespace : Type 0 where
  pub owners : List Owner
  pub deleting : Bool

pub record Division : Type 0 where
  pub name : String
  pub default_deny : Option Bool

-- The answer to a read or a delete.
pub data Lookup (A : Type 0) : Type 0 where
  found : A → Lookup A
  missing : Lookup A
  failed : String → Lookup A

pub record Api : Type 0 where
  pub environment : Lookup Environment
  pub division : String → Lookup Division
  pub namespace : String → Lookup Namespace
  pub delete_namespace : String → Lookup (Unit {0})
  pub ensure_namespace : String → Option String
  pub ensure_quota : String → Option String
  pub ensure_default_deny : String → Option String
  pub write_status : Option String
  pub now : ℤ
  pub later : ℤ  -- the clock when a reclaim is recorded

pub data Action : Type 0 where
  provision : String → Action
  bound : String → Action
  isolate : String → Action
  delete : String → Action
  record_status : Status → Action

pub record Outcome : Type 0 where
  pub actions : List Action
  pub requeue_after : ℤ
  pub error : Option String

abbrev pub idle : Option String → Outcome
idle error = record { actions = []; requeue_after = pos 0; error = error }

abbrev pub max_sweep_delay : ℤ
max_sweep_delay = pos (10 * minute)

abbrev pub second : ℤ
second = pos 1000000000

-- `sweepDelay`
unfoldable pub sweep_delay : ℤ → ℤ
sweep_delay left =
    if leb_ℤ left (pos 0)
    then second
    else if ltb_ℤ max_sweep_delay left
    then max_sweep_delay
    else left

-- `NamespaceFor`
unfoldable pub namespace_for : Environment → String
namespace_for e = concat e.division (concat "-preview-" (format_int e.number))

-- `ownedByUs`
unfoldable pub owned_by : String → List Owner → Bool
owned_by uid [] = false
owned_by uid (o ∷ os) =
    (str_eq o.uid uid && str_eq o.kind "EphemeralEnvironment") || owned_by uid os

-- `Division.IsolationEnabled`
unfoldable pub isolation_enabled : Division → Bool
isolation_enabled d = elim d.default_deny [ none ↦ true | some deny ↦ deny ]

-- The phases from which only a reclaim goes on.
unfoldable pub is_reclaimed : Phase → Bool
is_reclaimed reclaiming = true
is_reclaimed orphaned = true
is_reclaimed _ = false

unfoldable pub observed : Environment → Status
unfolding namespace_for
observed e = record (e.status) { observed_generation = e.generation; namespace = namespace_for e }

module _ (set_status_condition : List Condition → Condition → List Condition) (go : GoTexts) where
  -- `setCondition`
  unfoldable pub set_condition : Status → String → ConditionStatus → String → String → Status
  set_condition s kind state reason message = record s {
    conditions =
        set_status_condition s.conditions
          (record { kind = kind; status = state; reason = reason; message = message });
  }

  -- `writeStatus` last, after the actions so far.
  unfoldable pub close : Api → List Action → Status → ℤ → Outcome
  close api actions s requeue = record {
    actions = actions ++ (record_status s ∷ []);
    requeue_after = elim api.write_status [ none ↦ requeue | some _ ↦ pos 0 ];
    error = api.write_status;
  }

  unfoldable pub expired_status : Api → Status → Lease → Status
  unfolding set_condition
  expired_status api s lease =
      set_condition
        (record s {
          phase = expired_phase;
          reclaimed_at = elim s.reclaimed_at [ none ↦ some api.later | some at ↦ some at ];
        })
        "NamespaceReady" condition_false "Reclaimed"
        (concat "the lease ended at "
          (concat (go.format_time lease.expires_at) " and the namespace is gone"))

  unfoldable pub orphaned_status : Status → Status
  unfolding set_condition
  orphaned_status s =
      set_condition (record s { phase = orphaned }) "NamespaceReady" condition_false "NotOurs"
        (concat "namespace "
          (concat s.namespace " exists but this environment does not own it, so it was left alone"))

  unfoldable pub reclaiming_status : Status → Lease → Status
  unfolding set_condition
  reclaiming_status s lease =
      set_condition (record s { phase = reclaiming }) "NamespaceReady" condition_false "Reclaiming"
        (concat "the lease ended at " (
          concat (go.format_time lease.expires_at)
            (concat " and namespace " (concat s.namespace " is being removed"))))

  -- The removal of a namespace that is ours: asked for once, then awaited.
  unfoldable pub remove : Api → Status → Lease → Namespace → Outcome
  remove api s lease ns =
      if ns.deleting
      then close api [] (reclaiming_status s lease) (pos 30000000000)
      else elim (api.delete_namespace s.namespace) [
        | failed e ↦ record {
          actions = delete s.namespace ∷ [];
          requeue_after = pos 0;
          error = some (concat "reclaim namespace " (concat s.namespace (concat ": " e)));
        }
        | _ ↦ close api (delete s.namespace ∷ []) (reclaiming_status s lease) (pos 30000000000)
      ]

  -- `reclaim`
  unfoldable pub reclaim : Api → Environment → Status → Lease → Outcome
  reclaim api e s lease = elim (api.namespace s.namespace) [
    | missing ↦ close api [] (expired_status api s lease) (pos 0)
    | failed m ↦ idle (some m)
    | found ns ↦
        if not (owned_by e.uid ns.owners)
        then close api [] (orphaned_status s) (pos 0)
        else remove api s lease ns
  ]

  -- The status of an environment whose lease was read.
  unfoldable pub leased : Status → Lease → Status
  unfolding set_condition
  leased s lease =
      let at = record s {
        lease_started_at = elim s.lease_started_at [
          | none ↦ some lease.started_at
          | some t ↦ some t
        ];
        expires_at = some lease.expires_at;
        granted_ttl = format_ttl lease.granted;
      } in
      if lease.clamped
      then set_condition at "LeaseValid" condition_true "Clamped"
          "the lease was shortened to the 168h0m0s ceiling"
      else set_condition at "LeaseValid" condition_true "Granted" (
          concat "the lease runs for " (
            concat (format_ttl lease.granted)
              (concat " and ends at " (go.format_time lease.expires_at))))

  unfoldable pub ready_status : Environment → Status → Status
  unfolding set_condition
  ready_status e s =
      record (set_condition
        (set_condition s "NamespaceReady" condition_true "Provisioned" (
          concat "namespace " (
            concat s.namespace
              (concat " previews " (concat e.repository (concat "!" (format_int e.number)))))))
        "WithinQuota" condition_true "Bounded"
        "the preview carries its own quota, so it cannot grow into the division's headroom") {
          phase = ready;
        }

  -- The last of the provisioning calls, where the division is isolated, and the status.
  unfoldable pub finish_provision : Api → Environment → Status → Lease → Division → Outcome
  finish_provision api e s lease division =
      let before = provision s.namespace ∷ bound s.namespace ∷ [] in
      let close_ready = λ (actions : List Action).
        close api actions (ready_status e s) (sweep_delay (remaining lease api.now)) in
      if not (isolation_enabled division)
      then close_ready before
      else elim (api.ensure_default_deny s.namespace) [
        | some m ↦ record {
          actions = before ++ (isolate s.namespace ∷ []);
          requeue_after = pos 0;
          error = some (concat "default deny in " (concat s.namespace (concat ": " m)));
        }
        | none ↦ close_ready (before ++ (isolate s.namespace ∷ []))
      ]

  -- The provisioning calls, each of which ends the reconciliation if it fails.
  unfoldable pub provision_all : Api → Environment → Status → Lease → Division → Outcome
  provision_all api e s lease division = elim (api.ensure_namespace s.namespace) [
    | some m ↦ record {
      actions = provision s.namespace ∷ [];
      requeue_after = pos 0;
      error = some (concat "namespace " (concat s.namespace (concat ": " m)));
    }
    | none ↦ elim (api.ensure_quota s.namespace) [
      | some m ↦ record {
        actions = provision s.namespace ∷ bound s.namespace ∷ [];
        requeue_after = pos 0;
        error = some (concat "quota in " (concat s.namespace (concat ": " m)));
      }
      | none ↦ finish_provision api e s lease division
    ]
  ]

  unfoldable pub missing_division : Environment → Status → Status
  unfolding set_condition
  missing_division e s =
      set_condition (record s { phase = pending }) "NamespaceReady" condition_false
        "DivisionMissing" (concat "division " (concat e.division " does not exist"))

  -- A lease that runs: the division, and the provisioning.
  unfoldable pub live : Api → Environment → Status → Lease → Outcome
  live api e s lease = elim (api.division e.division) [
    | missing ↦ close api [] (missing_division e s) (pos 0)
    | failed m ↦ idle (some m)
    | found division ↦ provision_all api e s lease division
  ]

  -- From the lease on.
  unfoldable pub with_lease : Api → Environment → Status → Lease → Outcome
  with_lease api e s lease =
      if is_reclaimed s.phase
      then reclaim api e s lease
      else if expired lease api.now
      then reclaim api e (record (leased s lease) { phase = reclaiming }) lease
      else live api e (leased s lease) lease

  unfoldable pub unreadable : Status → String → Status
  unfolding set_condition
  unreadable s m =
      set_condition (record s { phase = pending }) "LeaseValid" condition_false "Unreadable" m

  unfoldable pub reconcile_found : Api → Environment → Outcome
  reconcile_found api e =
      if e.deleting
      then idle none
      else elim (lease_of go e.ttl e.renewals e.created e.status.lease_started_at) [
        | err m ↦ close api [] (unreadable (observed e) m) (pos 0)
        | ok lease ↦ with_lease api e (observed e) lease
      ]

  -- `Reconciler.Reconcile`
  unfoldable pub reconcile : Api → Outcome
  unfolding reconcile_found
  reconcile api = elim api.environment [
    | missing ↦ idle none
    | failed m ↦ idle (some m)
    | found e ↦ reconcile_found api e
  ]
