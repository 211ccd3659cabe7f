-- ===== src/Requests/Decision.antt =====
-- internal/requests/controller.go, `DecisionReconciler`: one pass over a decision, on the decision,
-- the request it names and the quota of the division that request names. Reads and writes fail as
-- `Faults` says. Times are nanoseconds; the clock is what `metav1.Now` reads in `setCondition`.
pub mod Safety
pub mod Stages
pub mod Retry
use marstack_govern.Prelude.{
  ℕ, ℤ, pos, ◌-ℤ◌, leb_ℤ, ltb_ℤ, eqb_ℤ, String, concat, str_eq, Bool, true, false, not, ◌&&◌, List,
  [], ◌∷◌, Option, none, some, if◌then◌else◌,
}
use marstack_govern.Kube.{ConditionStatus, condition_true, condition_false}
use marstack_govern.Requests.Quota.{
  Compute, RequestPhase, unset, pending, awaiting_decision, approved, rejected, changes_requested,
  applied, expired, withdrawn,
}

pub record Condition : Type 0 where
  pub kind : String
  pub status : ConditionStatus
  pub reason : String
  pub message : String
  pub changed_at : ℤ

pub record Request : Type 0 where
  pub key : String  -- namespace/name
  pub division : String
  pub target : Compute
  pub withdrawn : Bool
  pub phase : RequestPhase
  pub decision_ref : String
  pub conditions : List Condition

pub data DecisionOutcome : Type 0 where
  outcome_unset outcome_approved outcome_rejected outcome_changes : DecisionOutcome

pub record DecisionStatus : Type 0 where
  pub was_applied : Bool
  pub applied_at : Option ℤ
  pub lapsed : Bool
  pub message : String
  pub observed_generation : ℤ

pub record Decision : Type 0 where
  pub name : String
  pub outcome : DecisionOutcome
  pub granted_until : Option ℤ
  pub generation : ℤ
  pub status : DecisionStatus

pub record World : Type 0 where
  pub decision : Option Decision
  pub request : Option Request
  pub quota : Option Compute

pub record Faults : Type 0 where
  pub read_decision : Option String
  pub read_request : Option String
  pub read_division : Option String
  pub patch_division : Option String
  pub update_request : Option String
  pub update_decision : Option String
  pub not_found : String  -- the text of the error on a division that is missing

-- What a write leaves, and its error.
pub record Written : Type 0 where
  pub world : World
  pub error : Option String

pub record Pass : Type 0 where
  pub world : World
  pub requeue_after : ℤ
  pub error : Option String

unfoldable pub phase_text : RequestPhase → String
phase_text unset = ""
phase_text pending = "Pending"
phase_text awaiting_decision = "AwaitingDecision"
phase_text approved = "Approved"
phase_text rejected = "Rejected"
phase_text changes_requested = "ChangesRequested"
phase_text applied = "Applied"
phase_text expired = "Expired"
phase_text withdrawn = "Withdrawn"

unfoldable pub status_text : ConditionStatus → String
status_text condition_true = "True"
status_text condition_false = "False"
status_text _ = "Unknown"

-- `setCondition`: the first condition of the type is replaced, keeping its time where the status
-- stays; nothing changes where the reason and the message stay too.
unfoldable pub set_condition :
    ℤ → String → ConditionStatus → String → String → List Condition → List Condition
unfolding status_text
set_condition clock kind state reason message [] =
    (record { kind = kind; status = state; reason = reason; message = message; changed_at = clock })
    ∷ []
set_condition clock kind state reason message (c ∷ cs) =
    let rest = set_condition clock kind state reason message cs in
    let same = str_eq (status_text c.status) (status_text state) in
    if not (str_eq c.kind kind)
    then c ∷ rest
    else if same && (str_eq c.reason reason && str_eq c.message message)
    then c ∷ cs
    else (record {
      kind = kind;
      status = state;
      reason = reason;
      message = message;
      changed_at = if same then c.changed_at else clock;
    })
      ∷ cs

-- `Decision.Lapsed`
unfoldable pub has_lapsed : Decision → ℤ → Bool
has_lapsed d now = elim d.outcome [
  | outcome_approved ↦ elim d.granted_until [ none ↦ false | some until ↦ ltb_ℤ until now ]
  | _ ↦ false
]

abbrev pub hour : ℤ
hour = pos 3600000000000

-- `nextCheck`. `Time.Sub` saturates, which no test here can tell from the difference.
unfoldable pub next_check : Decision → ℤ → ℤ
next_check d now = elim d.outcome [
  | outcome_approved ↦ elim d.granted_until [
    | none ↦ pos 0
    | some until ↦
        let remaining = until -ℤ now in
        if leb_ℤ remaining (pos 0) then pos 0 else if ltb_ℤ hour remaining then hour else remaining
  ]
  | _ ↦ pos 0
]

unfoldable pub is_set_to : Request → RequestPhase → String → Bool
unfolding phase_text
is_set_to r phase name =
    str_eq (phase_text r.phase) (phase_text phase) && str_eq r.decision_ref name

unfoldable pub with_phase : ℤ → RequestPhase → String → Request → Request
unfolding phase_text set_condition
with_phase clock phase name r = record r {
  phase = phase;
  decision_ref = name;
  conditions =
      set_condition clock "Decided" condition_true (phase_text phase) (concat "decision " name)
        r.conditions;
}

-- `setRequestPhase`
unfoldable pub set_request_phase : Faults → ℤ → RequestPhase → String → Request → World → Written
unfolding is_set_to with_phase
set_request_phase f clock phase name r w =
    if is_set_to r phase name then record { world = w; error = none } else elim f.update_request [
      | some e ↦ record {
        world = w;
        error = some (concat "update status of request " (concat r.key (concat ": " e)));
      }
      | none ↦ record {
        world = record w { request = some (with_phase clock phase name r) };
        error = none;
      }
    ]

-- `applyQuota`
unfoldable pub apply_quota : Faults → Request → World → Written
apply_quota f r w =
    let unread = concat "read division " (concat r.division ": ") in
    elim f.read_division [
      | some e ↦ record { world = w; error = some (concat unread e) }
      | none ↦ elim w.quota [
        | none ↦ record { world = w; error = some (concat unread f.not_found) }
        | some q ↦ elim f.patch_division [
          | some e ↦ record {
            world = w;
            error =
                some (concat "apply the approved quota to " (concat r.division (concat ": " e)));
          }
          | none ↦ record { world = record w { quota = some r.target }; error = none }
        ]
      ]
    ]

abbrev pub same_flag : Bool → Bool → Bool
same_flag true b = b
same_flag false b = not b

unfoldable pub same_status : DecisionStatus → DecisionStatus → Bool
same_status s t =
    same_flag s.was_applied t.was_applied
    && (same_flag s.lapsed t.lapsed
        && (str_eq s.message t.message && eqb_ℤ s.observed_generation t.observed_generation))

-- `writeStatus` of the decision.
unfoldable pub write_status : Faults → Decision → DecisionStatus → World → Written
unfolding same_status
write_status f d status w =
    if same_status d.status status
    then record { world = w; error = none }
    else elim f.update_decision [
      | some e ↦ record {
        world = w;
        error = some (concat "update status of decision " (concat d.name (concat ": " e)));
      }
      | none ↦ record {
        world = record w { decision = some (record d { status = status }) };
        error = none;
      }
    ]

-- What the branch for the outcome leaves, with the status to write.
pub record Decided : Type 0 where
  pub written : Written
  pub status : DecisionStatus

unfoldable pub approve : Faults → ℤ → ℤ → Decision → DecisionStatus → Request → World → Decided
unfolding set_request_phase apply_quota
approve f now clock d status r w =
    if has_lapsed d now
    then record {
      written = set_request_phase f clock expired d.name r w;
      status = record status { lapsed = true; message = "the grant lapsed and is due for review" };
    }
    else if status.was_applied
    then record { written = set_request_phase f clock applied d.name r w; status = status }
    else (let granted = apply_quota f r w in
        elim granted.error [
          | some e ↦ record { written = granted; status = status }
          | none ↦ record {
            written = set_request_phase f clock applied d.name r granted.world;
            status = record status {
              was_applied = true;
              applied_at = some now;
              message = concat "the quota of " (concat r.division " now matches the request");
            };
          }
        ])

unfoldable pub decide : Faults → ℤ → ℤ → Decision → DecisionStatus → Request → World → Decided
unfolding set_request_phase approve
decide f now clock d status r w = elim d.outcome [
  | outcome_rejected ↦ record {
    written = set_request_phase f clock rejected d.name r w;
    status = record status { message = "the request was rejected" };
  }
  | outcome_changes ↦ record {
    written = set_request_phase f clock changes_requested d.name r w;
    status = record status { message = "the requester was asked for changes" };
  }
  | outcome_approved ↦ approve f now clock d status r w
  | outcome_unset ↦ record { written = record { world = w; error = none }; status = status }
]

abbrev pub stopped : World → Option String → Pass
stopped w error = record { world = w; requeue_after = pos 0; error = error }

-- `Reconcile`, once both objects are read.
unfoldable pub reconcile_read : Faults → ℤ → ℤ → Decision → Request → World → Pass
unfolding decide write_status next_check
reconcile_read f now clock d r w =
    let decided =
      decide f now clock d (record (d.status) { observed_generation = d.generation }) r w in
    elim decided.written.error [
      | some e ↦ stopped decided.written.world (some e)
      | none ↦
          let written = write_status f d decided.status decided.written.world in
          elim written.error [
            | some e ↦ stopped written.world (some e)
            | none ↦ record {
              world = written.world;
              requeue_after = next_check d now;
              error = none;
            }
          ]
    ]

-- `Reconcile`; an object that is missing ends the pass with no error.
unfoldable pub reconcile : Faults → ℤ → ℤ → World → Pass
unfolding reconcile_read
reconcile f now clock w = elim f.read_decision [
  | some e ↦ stopped w (some e)
  | none ↦ elim w.decision [
    | none ↦ stopped w none
    | some d ↦ elim f.read_request [
      | some e ↦ stopped w (some e)
      | none ↦ elim w.request [ none ↦ stopped w none | some r ↦ reconcile_read f now clock d r w ]
    ]
  ]
]
