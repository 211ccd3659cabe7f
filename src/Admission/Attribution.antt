-- ===== src/Admission/Attribution.antt =====
-- internal/admission/attribution.go: the mutating webhook that records who created an object and who
-- granted each renewal. The decoder, `json.Marshal` and `%q` are the fields of `Codec`. What is not
-- read of an object is its field `rest`. `clock i` is what `metav1.Now` reads for renewal `i`.
pub mod Stamped
pub mod Answer
pub mod History
use marstack_govern.Prelude.{
  ℕ, zero, suc, ◌+◌, ℤ, ltb, eqb_ℤ, String, concat, str_eq, format_nat, Bool, true, false, not,
  ◌&&◌, List, [], ◌∷◌, length, Option, none, some, Result, ok, err, if◌then◌else◌,
}
use marstack_govern.Environments.Lease.{Renewal}

pub record QuotaRequest : Type 0 where
  pub requested_by : String
  pub rest : String

pub record Decision : Type 0 where
  pub decided_by : String
  pub rest : String

pub record EphemeralEnvironment : Type 0 where
  pub requested_by : String
  pub renewals : List Renewal
  pub rest : String

-- `user → clock → next → previous`, in place of the write to `next`.
abbrev pub Stamp : Type 0 → Type 0
Stamp A = String → (ℕ → ℤ) → A → A → Result A

pub record Rule (A : Type 0) : Type 0 where
  pub path : String
  pub field : String
  pub owner : A → String
  pub set_owner : A → String → A
  pub stamp : Option (Stamp A)

pub record Codec (A : Type 0) : Type 0 where
  pub decode : String → Result A
  pub encode : A → Result String
  pub quote : String → String

pub data Operation : Type 0 where
  create update other : Operation

pub record Review : Type 0 where
  pub user : String
  pub operation : Operation
  pub object : String
  pub old_object : String

pub data Response : Type 0 where
  denied : String → Response
  errored : ℕ → String → Response
  allowed : Response
  patched : String → String → Response  -- from the object sent, to the object to store

-- The object to store, or the response that ends the review.
pub data Outcome (A : Type 0) : Type 0 where
  answered : Response → Outcome A
  stored : A → Outcome A

abbrev pub same_time : Option ℤ → Option ℤ → Bool
same_time none none = true
same_time none (some b) = false
same_time (some a) none = false
same_time (some a) (some b) = eqb_ℤ a b

unfoldable pub same_renewal : Renewal → Renewal → Bool
same_renewal a b =
    str_eq a.extend b.extend
    && (str_eq a.reason b.reason
        && (str_eq a.granted_by b.granted_by && same_time a.granted_at b.granted_at))

-- The loop over the renewals that were there before, from renewal `i`.
unfoldable pub rewritten : ℕ → List Renewal → List Renewal → Option String
unfolding same_renewal
rewritten i after [] = none
rewritten i [] (b ∷ before) = none
rewritten i (a ∷ after) (b ∷ before) =
    let rest = rewritten (suc i) after before in
    if not (same_renewal a b)
    then some (
        concat "renewal " (
          concat (format_nat i)
            (concat " was granted by " (concat b.granted_by " and cannot be rewritten"))))
    else rest

unfoldable pub granted_now : String → ℤ → Renewal → Renewal
granted_now user now r = record r {
  granted_by = user;
  granted_at = elim r.granted_at [ none ↦ some now | some at ↦ some at ];
}

unfoldable pub stamp_all : String → (ℕ → ℤ) → ℕ → List Renewal → List Renewal
unfolding granted_now
stamp_all user clock i [] = []
stamp_all user clock i (r ∷ rs) = granted_now user (clock i) r ∷ stamp_all user clock (suc i) rs

-- The loop over the renewals that are new, which stand after as many as there were before.
unfoldable pub stamp_new : String → (ℕ → ℤ) → ℕ → List Renewal → List Renewal → List Renewal
unfolding stamp_all
stamp_new user clock i after [] = stamp_all user clock i after
stamp_new user clock i [] (b ∷ before) = []
stamp_new user clock i (a ∷ after) (b ∷ before) = a ∷ stamp_new user clock (suc i) after before

-- `stampRenewals`
unfoldable pub stamp_renewals : Stamp EphemeralEnvironment
unfolding rewritten stamp_new
stamp_renewals user clock next previous =
    if ltb (length next.renewals) (length previous.renewals)
    then err "a renewal that was already granted cannot be removed"
    else elim (rewritten 0 next.renewals previous.renewals) [
      | some e ↦ err e
      | none ↦
          ok (record next { renewals = stamp_new user clock 0 next.renewals previous.renewals })
    ]

-- The three rules of `Rules`.
abbrev pub quota_request_rule : Rule QuotaRequest
quota_request_rule = record {
  path = "/attribute/quotarequest";
  field = "spec.requestedBy";
  owner = λ o. o.requested_by;
  set_owner = λ o user. record o { requested_by = user };
  stamp = none;
}

abbrev pub decision_rule : Rule Decision
decision_rule = record {
  path = "/attribute/decision";
  field = "spec.decidedBy";
  owner = λ o. o.decided_by;
  set_owner = λ o user. record o { decided_by = user };
  stamp = none;
}

abbrev pub environment_rule : Rule EphemeralEnvironment
environment_rule = record {
  path = "/attribute/ephemeralenvironment";
  field = "spec.requestedBy";
  owner = λ o. o.requested_by;
  set_owner = λ o user. record o { requested_by = user };
  stamp = some stamp_renewals;
}

module _ {A : Type 0} (rule : Rule A) (codec : Codec A) (clock : ℕ → ℤ) where
  -- The case of an update, from the object before and the object after.
  unfoldable pub updated : String → A → A → Outcome A
  updated user next previous =
      if not (str_eq (rule.owner next) (rule.owner previous))
      then answered (
          denied (
            concat rule.field (
              concat " was recorded as " (
                concat (codec.quote (rule.owner previous))
                  " when the object was created and cannot be rewritten"))))
      else elim rule.stamp [
        | none ↦ stored next
        | some stamp ↦ elim (stamp user clock next previous) [
          | err e ↦ answered (denied e)
          | ok o ↦ stored o
        ]
      ]

  -- The switch of `Handle` over the operation.
  unfoldable pub attribute : Review → A → Outcome A
  unfolding updated
  attribute r next = elim r.operation [
    | create ↦ stored (rule.set_owner next r.user)
    | update ↦ elim (codec.decode r.old_object) [
      | err e ↦ answered (errored 400 e)
      | ok previous ↦ updated r.user next previous
    ]
    | other ↦ answered allowed
  ]

  -- What `Handle` answers with an object to store.
  unfoldable pub respond : Review → Outcome A → Response
  respond r (answered a) = a
  respond r (stored o) = elim (codec.encode o) [
    | err e ↦ errored 500 e
    | ok encoded ↦ patched r.object encoded
  ]

  -- `Attribution.Handle`
  unfoldable pub handle : Review → Response
  unfolding attribute respond
  handle r =
      if str_eq r.user ""
      then denied "the request carries no authenticated user, so nothing can be attributed"
      else elim (codec.decode r.object) [
        | err e ↦ errored 400 e
        | ok next ↦ respond r (attribute r next)
      ]
