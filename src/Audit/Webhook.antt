-- ===== src/Audit/Webhook.antt =====
-- internal/audit/webhook.go: the receiver of the API server's audit batches. The request body and
-- its decoding, `json.Marshal` of an item and the clock are the fields of `Wire`; headers are bytes.
pub mod Recording
use marstack_govern.Prelude.{
  ℕ, ◌==◌, ℤ, pos, String, concat, str_eq, Bytes, bytes_eq, Bool, true, false, not, ◌&&◌, ◌||◌,
  List, [], ◌∷◌, Option, none, some, Result, ok, err, if◌then◌else◌,
}
use marstack_govern.Prelude.Assoc.{lookup, contains}
use marstack_govern.Audit.Event.{Event, Libs}
use marstack_govern.Audit.Chain.{World, Faults, append}

pub record Filter : Type 0 where
  pub groups : List String
  pub resources : List String

pub record User : Type 0 where
  pub username : String
  pub groups : List String

pub record ObjectReference : Type 0 where
  pub resource : String
  pub namespace : String
  pub name : String
  pub uid : String
  pub api_group : String
  pub subresource : String

-- `auditEvent`; an absent time is the zero time.
pub record Item : Type 0 where
  pub audit_id : String
  pub stage : String
  pub verb : String
  pub user : User
  pub impersonated_user : Option User
  pub source_ips : List String
  pub user_agent : String
  pub object_ref : Option ObjectReference
  pub response_code : Option ℤ
  pub received_at : Option ℤ
  pub annotations : List (String × String)

pub record Wire : Type 0 where
  pub body : Result Bytes
  pub decode : Bytes → Result (List Item)
  pub marshal : Item → Result Bytes
  pub now : ℤ

pub record Receiver : Type 0 where
  pub token : Bytes
  pub filter : Filter

abbrev pub no_texts : List String → Bool
no_texts [] = true
no_texts (t ∷ ts) = false

-- `Filter.Allows`
unfoldable pub allows : Filter → String → String → Bool
unfolding contains
allows f group resource =
    if no_texts f.groups && no_texts f.resources
    then true
    else if contains group f.groups
    then true
    else contains resource f.resources

-- "Bearer "
abbrev pub bearer : Bytes
bearer = 66 ∷ 101 ∷ 97 ∷ 114 ∷ 101 ∷ 114 ∷ 32 ∷ []

-- `strings.CutPrefix`
unfoldable pub cut_prefix : Bytes → Bytes → Option Bytes
cut_prefix [] bytes = some bytes
cut_prefix (p ∷ ps) [] = none
cut_prefix (p ∷ ps) (b ∷ bs) = let rest = cut_prefix ps bs in if p == b then rest else none

-- `Receiver.authorised`
unfoldable pub authorised : Receiver → Bytes → Bool
unfolding cut_prefix
authorised r header = if bytes_eq r.token [] then false else elim (cut_prefix bearer header) [
  | none ↦ false
  | some presented ↦ bytes_eq presented r.token
]

-- `qualified`
unfoldable pub qualified : String → String → String
qualified group resource = if str_eq group "" then resource else concat resource (concat "." group)

-- A missing key of a map reads as the empty text.
unfoldable pub annotation : String → List (String × String) → String
unfolding lookup
annotation key m = elim (lookup key m) [ none ↦ "" | some value ↦ value ]

abbrev pub acting_division_label : String
acting_division_label = "govern.marstack.io/division"

abbrev pub received : ℤ → Option ℤ → ℤ
received now none = now
received now (some at) = at

abbrev pub code_of : Option ℤ → ℤ
code_of none = pos 0
code_of (some code) = code

-- The event of an item on `object`, before any impersonation.
unfoldable pub event_of : Wire → Item → ObjectReference → Bytes → Event
unfolding qualified annotation
event_of wire item object payload = record {
  audit_id = item.audit_id;
  event_at = received wire.now item.received_at;
  stage = item.stage;
  actor = item.user.username;
  actor_groups = item.user.groups;
  impersonated_by = "";
  acting_division = annotation acting_division_label item.annotations;
  verb = item.verb;
  resource = qualified object.api_group object.resource;
  subresource = object.subresource;
  namespace = object.namespace;
  object_name = object.name;
  object_uid = object.uid;
  response_code = code_of item.response_code;
  source_ips = item.source_ips;
  user_agent = item.user_agent;
  payload = payload;
  annotations = item.annotations;
  prev_hash = [];
  hash = [];
  canonical_bytes = [];
}

-- Who acted: with an impersonation, the impersonated user.
unfoldable pub impersonated : Option User → Event → Event
impersonated none e = e
impersonated (some u) e = record e {
  impersonated_by = e.actor;
  actor = u.username;
  actor_groups = u.groups;
}

unfoldable pub named : Event → Option Event
named e = if str_eq e.audit_id "" || str_eq e.actor "" then none else some e

unfoldable pub is_final : String → Bool
is_final stage = str_eq stage "ResponseComplete" || str_eq stage "Panic"

-- `Receiver.convert`
unfoldable pub convert : Receiver → Wire → Item → Option Event
unfolding allows event_of impersonated named is_final
convert r wire item = if not (is_final item.stage) then none else elim item.object_ref [
  | none ↦ none
  | some object ↦
      if not (allows r.filter object.api_group object.resource)
      then none
      else elim (wire.marshal item) [
        | err e ↦ none
        | ok payload ↦
            named (impersonated item.impersonated_user (event_of wire item object payload))
      ]
]

-- The loop of `ServeHTTP` over the items.
unfoldable pub convert_all : Receiver → Wire → List Item → List Event
unfolding convert
convert_all r wire [] = []
convert_all r wire (i ∷ is) =
    let rest = convert_all r wire is in elim (convert r wire i) [ none ↦ rest | some e ↦ e ∷ rest ]

-- Once the batch is decoded: the status and the world after it.
unfoldable pub record_items : Libs → Faults → Receiver → Wire → List Item → World → World × ℕ
unfolding convert_all
record_items lib f r wire items w =
    let done = append lib f w (convert_all r wire items) in
    elim done.1 [ err e ↦ (done.0, 503) | ok n ↦ (done.0, 200) ]

-- `Receiver.ServeHTTP`: the HTTP status, and what it leaves.
unfoldable pub serve_http : Libs → Faults → Receiver → Wire → Bytes → World → World × ℕ
unfolding authorised record_items
serve_http lib f r wire header w = if not (authorised r header) then (w, 401) else elim wire.body [
  | err e ↦ (w, 400)
  | ok body ↦ elim (wire.decode body) [
    | err e ↦ (w, 400)
    | ok items ↦ record_items lib f r wire items w
  ]
]
