-- ===== src/Tests/Audit.antt =====
-- The audit trail's theorems on a trail of two events (internal/audit). The hash stands for SHA-256
-- with the sum of its input, and the codec knows the two events.
use marstack_govern.Prelude.{
  ℕ, ◌+◌, zero, suc, pos, Bytes, bytes_eq, bytes_eq_iff, true, false, List, [], ◌∷◌, ◌++◌, ◌≡◌, ◌⊎◌,
  refl, subst, ◌∙◌, String, Result, ok, err, Bool-cases, inl, inr, arith, if◌then◌else◌,
}
use marstack_govern.Audit.Event.{Event, Libs, canonical, digest, matches, same_fields}
use marstack_govern.Audit.Table
use marstack_govern.Audit.Table.{last_hash}
use marstack_govern.Audit.Chain.{
  World, link, linked, finish, store, write, read_tip, append_after, append,
}
use marstack_govern.Audit.Verify.{verify, verify_from}
use marstack_govern.Audit.Integrity.{IsChain}
use marstack_govern.Audit.Linking.{RoundTrips}
use marstack_govern.Audit.Preservation.{append-IsChain}
use marstack_govern.Audit.Tamper.{Collision, IsFixedLength, signed_bytes, tamper_evident}
use marstack_govern.Audit.Delivery.{Delivered, append-Delivered}
use marstack_govern.Audit.Acceptance.{no_faults, append_accepts}
use marstack_govern.Audit.Duplicates.{Refused, append-Refused}

abbrev event : String → String → Event
event id verb = record {
  audit_id = id;
  event_at = pos 1000;
  stage = "ResponseComplete";
  actor = "ana";
  actor_groups = [];
  impersonated_by = "";
  acting_division = "shop";
  verb = verb;
  resource = "quotarequests";
  subresource = "";
  namespace = "shop-dev";
  object_name = "more";
  object_uid = "";
  response_code = pos 201;
  source_ips = [];
  user_agent = "";
  payload = [];
  annotations = [];
  prev_hash = [];
  hash = [];
  canonical_bytes = [];
}

abbrev pub created : Event
created = event "a" "create"

abbrev pub updated : Event
updated = event "b" "update"

abbrev sum : Bytes → ℕ
sum [] = 1
sum (b ∷ bs) = b + sum bs

abbrev zeros : ℕ → Bytes
zeros zero = []
zeros (suc n) = 0 ∷ zeros n

abbrev pub hash_of : Bytes → Bytes
hash_of bytes = sum bytes ∷ zeros 31

abbrev decode : Bytes → Result Event
decode (suc zero ∷ []) = ok created
decode (suc (suc zero) ∷ []) = ok updated
decode _ = err "unexpected end of JSON input"

abbrev no_codec : Libs
no_codec = record {
  sha256 = hash_of;
  marshal = λ e. err "";
  unmarshal = decode;
  truncate_micros = λ t. t;
}

abbrev encode : Event → Result Bytes
encode e =
    if same_fields no_codec e created
    then ok (1 ∷ [])
    else if same_fields no_codec e updated
    then ok (2 ∷ [])
    else err "unsupported value"

abbrev pub libs : Libs
libs = record { sha256 = hash_of; marshal = encode; unmarshal = decode; truncate_micros = λ t. t }

same_libs : (e signed : Event) → same_fields libs e signed ≡ same_fields no_codec e signed
unfolding same_fields
same_libs e signed = refl

ok_inj : {a b : Bytes} → ok a ≡ ok b → a ≡ b
ok_inj h = cc

decoded :
    (e signed : Event) (bytes text : Bytes)
    → text ≡ bytes
    → decode text ≡ ok signed
    → same_fields no_codec e signed ≡ true
    → (s : Event) × (decode bytes ≡ ok s) × (same_fields libs e s ≡ true)
decoded e signed bytes text h d p =
    (signed, subst (λ b. decode b ≡ ok signed) h d, same_libs e signed ∙ p)

pub libs-RoundTrips : RoundTrips libs
libs-RoundTrips e bytes h = elim (Bool-cases (same_fields no_codec e created)) [
  | inl p ↦ decoded e created bytes (1 ∷ []) (ok_inj (rw p refl ∙ h)) refl p
  | inr p ↦ elim (Bool-cases (same_fields no_codec e updated)) [
    | inl q ↦ decoded e updated bytes (2 ∷ []) (ok_inj (rw (p, q) refl ∙ h)) refl q
    | inr q ↦ ground (arith, p, q, h)
  ]
]

libs-IsFixedLength : IsFixedLength libs
libs-IsFixedLength x = refl

abbrev pub empty : World
empty = record { rows = []; segments = []; head = []; has_archive = true; tip = []; read = false }

abbrev pub trail : List Event
trail =
    linked [] (hash_of (1 ∷ [])) (1 ∷ []) created
    ∷ linked (hash_of (1 ∷ [])) (hash_of (hash_of (1 ∷ []) ++ (2 ∷ []))) (2 ∷ []) updated
    ∷ []

append-IsChain_example :
    IsChain libs [] (append libs no_faults empty (created ∷ updated ∷ [])).0.rows
append-IsChain_example =
    append-IsChain libs libs-RoundTrips no_faults empty (created ∷ updated ∷ []) tt

append-Delivered_example :
    Delivered libs empty
      (append libs no_faults empty (created ∷ updated ∷ [])).0
      (created ∷ updated ∷ [])
      2
unfolding append append_after read_tip Table.tip last_hash link canonical same_fields store
    Table.append Table.insert_all Table.insert Table.link_trigger Table.length_checks Table.has_id
    Table.has_hash finish write linked digest bytes_eq
append-Delivered_example = append-Delivered libs no_faults empty created (updated ∷ []) 2 refl

abbrev other_trail : List Event
other_trail =
    (record (linked [] (hash_of (1 ∷ [])) (1 ∷ []) created) { user_agent = "curl" })
    ∷ linked (hash_of (1 ∷ [])) (hash_of (hash_of (1 ∷ []) ++ (2 ∷ []))) (2 ∷ []) updated
    ∷ []

tamper_evident_example : Collision libs ⊎ (signed_bytes trail ≡ signed_bytes other_trail)
unfolding verify verify_from bytes_eq matches same_fields digest last_hash linked
tamper_evident_example =
    tamper_evident libs libs-IsFixedLength [] trail other_trail refl refl refl refl

append_accepts_example :
    let (w', result) = append libs no_faults empty (created ∷ updated ∷ []) in
    (result ≡ ok 2) × (w'.rows ≡ [] ++ trail) × (w'.tip ≡ hash_of (hash_of (1 ∷ []) ++ (2 ∷ [])))
unfolding link canonical same_fields digest linked last_hash Table.has_id Table.has_hash bytes_eq
append_accepts_example =
    append_accepts libs libs-IsFixedLength libs-RoundTrips empty created (updated ∷ []) trail
      (hash_of (hash_of (1 ∷ []) ++ (2 ∷ []))) tt (λ _. refl) refl ((refl, refl, (refl, refl, tt)))

abbrev stored : World
stored = record empty {
  rows = linked [] (hash_of (1 ∷ [])) (1 ∷ []) created ∷ [];
  has_archive = false;
}

append-Refused_example :
    Refused libs stored.rows (append libs no_faults stored (created ∷ updated ∷ []))
unfolding canonical same_fields digest linked last_hash Table.has_id bytes_eq
append-Refused_example =
    append-Refused libs created updated [] (1 ∷ []) refl no_faults stored refl
      (λ p. let t : false ≡ true = (bytes_eq_iff _ _).1 p in cc)
