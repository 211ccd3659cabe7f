-- ===== src/Requests/Deciding.antt =====
-- internal/requests/decisions.go: `Decide` and `Revoke` of the decision service. Who calls, what the
-- store and the API server answer, `time.ParseDuration`, `%q` and `short`, which cuts a text to twelve
-- bytes, are given; times are nanoseconds. The protocol's messages in the answers are left out.
pub mod Guards
pub mod Revoked
use marstack_govern.Prelude.{
  ℕ, ◌*◌, ℤ, pos, ◌+ℤ◌, leb_ℤ, String, concat, str_eq, Bool, true, false, not, List, [], ◌∷◌,
  Option, none, some, Result, ok, err, if◌then◌else◌,
}
use marstack_govern.Requests.Quota.{
  RequestPhase, unset, pending, awaiting_decision, approved, rejected, changes_requested, applied,
  expired, withdrawn, is_open,
}
use marstack_govern.Requests.Decision.{
  Decision, DecisionOutcome, outcome_approved, outcome_rejected, outcome_changes, phase_text,
}
use marstack_govern.Requests.Review.{Evidence, QuotaRequest}

-- The codes of the answers, as `connect` names them.
pub data Code : Type 0 where
  unauthenticated not_found internal permission_denied failed_precondition aborted
        invalid_argument :
      Code

pub data Answer (A : Type 0) : Type 0 where
  refused : Code → String → Answer A
  accepted : A → Answer A

pub record Actor : Type 0 where
  pub subject : String
  pub label : String

pub data Stored : Type 0 where
  stored missing : Stored
  unread : String → Stored

-- `Decision_Outcome` of the protocol.
pub data ProtoOutcome : Type 0 where
  unspecified proto_approved proto_rejected proto_changes : ProtoOutcome

pub record DecideRequest : Type 0 where
  pub request_uid : String
  pub evidence_digest : String
  pub outcome : ProtoOutcome
  pub reason : String
  pub grant_duration : String

-- What a call of `Decide` meets.
pub record Meets : Type 0 where
  pub actor : Option Actor
  pub stored_request : Stored
  pub writer : Option String
  pub request : Result QuotaRequest
  pub request_name : String
  pub parse_duration : String → Option ℤ
  pub quote : String → String
  pub short : String → String
  pub now : ℤ
  pub create : Option String

-- The decision that is created.
pub record DecisionSpec : Type 0 where
  pub request_key : String
  pub outcome : DecisionOutcome
  pub reason : String
  pub decided_by : String
  pub evidence : Evidence
  pub digest : String
  pub granted_until : Option ℤ

abbrev pub then_do : {A B : Type 0} → Answer A → (A → Answer B) → Answer B
then_do (refused c e) next = refused c e
then_do (accepted a) next = next a

-- `caller`
unfoldable pub caller : Option Actor → Answer Actor
caller none = refused unauthenticated "sign in at /auth/login"
caller (some a) = accepted a

-- `outcomeFrom`
unfoldable pub outcome_from : ProtoOutcome → Answer DecisionOutcome
outcome_from proto_approved = accepted outcome_approved
outcome_from proto_rejected = accepted outcome_rejected
outcome_from proto_changes = accepted outcome_changes
outcome_from unspecified = refused invalid_argument "name the outcome"

abbrev pub default_grant : ℤ
default_grant = pos (90 * 24 * 3600000000000)

-- The window of `grantUntil`.
unfoldable pub grant_window : Meets → String → Answer ℤ
grant_window m duration =
    if str_eq duration "" then accepted default_grant else elim (m.parse_duration duration) [
      | none ↦
          refused invalid_argument
            (concat "grant duration " (concat (m.quote duration) " is not a duration like 720h"))
      | some parsed ↦
          if leb_ℤ parsed (pos 0)
          then refused invalid_argument "a grant has to last longer than zero"
          else accepted parsed
    ]

-- `grantUntil`, which is asked only of an approval.
unfoldable pub granted_until : Meets → DecisionOutcome → String → Answer (Option ℤ)
unfolding grant_window
granted_until m outcome_approved duration =
    then_do (grant_window m duration) (λ window. accepted (some (m.now +ℤ window)))
granted_until m outcome duration = accepted none

-- `phaseOf`: the phase in snake case.
unfoldable pub phase_name : RequestPhase → String
phase_name unset = "pending"
phase_name pending = "pending"
phase_name awaiting_decision = "awaiting_decision"
phase_name approved = "approved"
phase_name rejected = "rejected"
phase_name changes_requested = "changes_requested"
phase_name applied = "applied"
phase_name expired = "expired"
phase_name withdrawn = "withdrawn"

-- The guards on the request that was read.
unfoldable pub decidable : Meets → DecideRequest → QuotaRequest → Answer QuotaRequest
unfolding is_open phase_name
decidable m ask r =
    if not (is_open r.base.phase r.base.withdrawn)
    then refused failed_precondition (
        concat "request " (
          concat m.request_name
            (concat " is " (concat (phase_name r.base.phase) " and cannot be decided again"))))
    else if str_eq r.evidence_digest ""
    then refused failed_precondition
        "the request has no evidence yet, so there is nothing to decide against"
    else if not (str_eq ask.evidence_digest r.evidence_digest)
    then refused aborted (
        concat "the evidence changed since you read it: you saw " (
          concat (m.quote (m.short ask.evidence_digest))
            (concat ", the request now carries " (m.quote (m.short r.evidence_digest)))))
    else accepted r

unfoldable pub spec_of :
    DecideRequest → Actor → QuotaRequest → DecisionOutcome → Option ℤ → DecisionSpec
spec_of ask actor r outcome until = record {
  request_key = r.base.key;
  outcome = outcome;
  reason = ask.reason;
  decided_by = actor.subject;
  evidence = r.evidence;
  digest = r.evidence_digest;
  granted_until = until;
}

-- `writer.Create`
unfoldable pub created : Meets → Actor → DecisionSpec → Answer DecisionSpec
created m actor spec = elim m.create [
  | some e ↦
      refused permission_denied
        (concat "record the decision as " (concat actor.label (concat ": " e)))
  | none ↦ accepted spec
]

-- From the request on.
unfoldable pub decide_on : Meets → DecideRequest → Actor → QuotaRequest → Answer DecisionSpec
unfolding decidable outcome_from granted_until spec_of created
decide_on m ask actor r = then_do (decidable m ask r) (λ r.
    then_do (outcome_from ask.outcome) (λ outcome.
      then_do (granted_until m outcome ask.grant_duration)
        (λ until. created m actor (spec_of ask actor r outcome until))))

-- The read of the stored request.
unfoldable pub find_stored : Meets → DecideRequest → Answer (Unit {0})
find_stored m ask = elim m.stored_request [
  | missing ↦ refused not_found (concat "request " (concat ask.request_uid " not found"))
  | unread e ↦ refused internal e
  | stored ↦ accepted tt
]

unfoldable pub as_caller : Option String → Answer (Unit {0})
as_caller none = accepted tt
as_caller (some e) = refused internal e

unfoldable pub read_as : {A : Type 0} → Code → Result A → Answer A
read_as code (err e) = refused code e
read_as code (ok a) = accepted a

-- `DecisionService.Decide`
unfoldable pub decide : Meets → DecideRequest → Answer DecisionSpec
unfolding caller find_stored as_caller read_as decide_on
decide m ask = then_do (caller m.actor) (λ actor. then_do (find_stored m ask) (λ _.
    then_do (as_caller m.writer)
      (λ _. then_do (read_as permission_denied m.request) (λ r. decide_on m ask actor r))))

-- A decision with the reason of its revocation.
pub record Granted : Type 0 where
  pub decision : Decision
  pub revoked_reason : String

-- What a call of `Revoke` meets.
pub record RevokeMeets : Type 0 where
  pub actor : Option Actor
  pub writer : Option String
  pub decision : Option Granted
  pub now : ℤ
  pub patch : Option String

abbrev pub revoked : ℤ → String → Granted → Granted
revoked now reason g = record {
  decision = record (g.decision) { granted_until = some now };
  revoked_reason = reason;
}

unfoldable pub patch_revoked : RevokeMeets → String → Actor → Granted → Answer Granted
patch_revoked m reason actor g = elim m.patch [
  | some e ↦ refused permission_denied (concat "revoke as " (concat actor.label (concat ": " e)))
  | none ↦ accepted (revoked m.now reason g)
]

-- The read of the decision, with no error told from another.
unfoldable pub find_decision : String → Option Granted → Answer Granted
find_decision uid none = refused not_found (concat "decision " (concat uid " not found"))
find_decision uid (some g) = accepted g

-- `DecisionService.Revoke`, of the decision `uid`.
unfoldable pub revoke : RevokeMeets → String → String → Answer Granted
unfolding caller as_caller find_decision patch_revoked
revoke m uid reason = then_do (caller m.actor) (λ actor.
    if str_eq reason ""
    then refused invalid_argument "say why the grant is being revoked"
    else then_do (as_caller m.writer)
        (λ _. then_do (find_decision uid m.decision) (λ g. patch_revoked m reason actor g)))
