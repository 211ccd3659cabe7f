-- ===== src/Tests/AuditService.antt =====
-- The verification and the receiver of the audit trail at concrete inputs (internal/audit).
use marstack_govern.Prelude.{
  select, ℕ, pos, String, Bytes, bytes_eq, true, List, [], ◌∷◌, ◌++◌, none, some, ok, ◌≡◌, ◌↔◌,
  refl, arith, if◌then◌else◌,
}
use marstack_govern.Prelude.Assoc.{lookup}
use marstack_govern.Audit.Event.{Event, canonical, digest, matches, same_fields}
use marstack_govern.Audit.Table
use marstack_govern.Audit.Table.{last_hash}
use marstack_govern.Audit.Chain.{link, linked, finish, store, write, read_tip, append_after, append}
use marstack_govern.Audit.Verify.{Verification, verify, verify_from}
use marstack_govern.Audit.Acceptance.{no_faults}
use marstack_govern.Audit.Service.{Record, verified, verify_chain}
use marstack_govern.Audit.Service.Exact.{whole, answering, IsNumbered, IsIntact, verify_chain_iff}
use marstack_govern.Audit.Service.Truncation.{verify_chain-truncated}
use marstack_govern.Audit.Webhook.{
  Item, Wire, Receiver, bearer, authorised, cut_prefix, allows, event_of, impersonated, named,
  is_final, convert, convert_all, qualified, annotation, record_items, serve_http,
}
use marstack_govern.Audit.Webhook.Recording.{IsRecorded, serve_http-IsRecorded}
use marstack_govern.Tests.Audit.{libs, trail, created, updated, empty, hash_of}

abbrev hex : Bytes → String
hex h = if bytes_eq h (hash_of (1 ∷ [])) then "first" else "other"

abbrev recorded : ℕ → Event → Record
recorded seq e = record { seq = seq; event = e }

abbrev first_event : Event
first_event = linked [] (hash_of (1 ∷ [])) (1 ∷ []) created

abbrev second_event : Event
second_event = linked (hash_of (1 ∷ [])) (hash_of (hash_of (1 ∷ []) ++ (2 ∷ []))) (2 ∷ []) updated

abbrev records : List Record
records = recorded 1 first_event ∷ recorded 3 second_event ∷ []

records-IsNumbered : IsNumbered records
records-IsNumbered = ((omega arith, omega arith), ((omega arith, omega arith), tt))

verify_chain_iff_example :
    (v : Verification) × (verify_chain libs hex (whole true) (answering records trail) ≡ verified v)
    × ((v.intact ≡ true) ↔ IsIntact libs hex true records trail)
verify_chain_iff_example = verify_chain_iff libs hex true records trail records-IsNumbered

abbrev found_intact : Verification
found_intact = record {
  intact = true;
  checked = 2;
  first_seq = 1;
  last_seq = 3;
  broken_at_seq = 0;
  detail = "";
  archive_checked = true;
}

verify_chain-truncated_example :
    (v : Verification) × (verify_chain libs hex
        (whole true)
        (answering (recorded 1 first_event ∷ []) trail)
      ≡ verified v)
    × (v.intact ≡ true)
unfolding verify_chain verify verify_from bytes_eq matches same_fields digest linked select
verify_chain-truncated_example =
    verify_chain-truncated libs hex true (recorded 1 first_event ∷ [])
      (recorded 3 second_event ∷ []) trail records-IsNumbered {v = found_intact} refl refl

abbrev receiver : Receiver
receiver = record { token = 7 ∷ 8 ∷ []; filter = record { groups = []; resources = [] } }

-- What the API server sends of `created`.
abbrev item : Item
item = record {
  audit_id = "a";
  stage = "ResponseComplete";
  verb = "create";
  user = record { username = "ana"; groups = [] };
  impersonated_user = none;
  source_ips = [];
  user_agent = "";
  object_ref = some (record {
    resource = "quotarequests";
    namespace = "shop-dev";
    name = "more";
    uid = "";
    api_group = "";
    subresource = "";
  });
  response_code = some (pos 201);
  received_at = some (pos 1000);
  annotations = ("govern.marstack.io/division", "shop") ∷ [];
}

abbrev wire : Wire
wire = record {
  body = ok (1 ∷ []);
  decode = λ b. ok (item ∷ []);
  marshal = λ i. ok [];
  now = pos 2000;
}

serve_http-IsRecorded_example :
    IsRecorded libs no_faults receiver wire
      (bearer ++ (7 ∷ 8 ∷ []))
      empty
      (append libs no_faults empty (convert_all receiver wire (item ∷ []))).0
unfolding serve_http bytes_eq append append_after read_tip Table.tip link canonical same_fields
    store Table.append Table.insert_all Table.insert Table.link_trigger linked Table.length_checks
    digest Table.has_id Table.has_hash finish write last_hash allows annotation authorised convert
    convert_all cut_prefix event_of impersonated is_final named qualified record_items lookup
serve_http-IsRecorded_example =
    serve_http-IsRecorded libs no_faults receiver wire (bearer ++ (7 ∷ 8 ∷ [])) empty
      (append libs no_faults empty (convert_all receiver wire (item ∷ []))).0 refl
