-- ===== src/Audit/Event.antt =====
-- internal/audit/event.go: an audit event, its canonical bytes and its digest. SHA-256, the JSON
-- codec and the truncation of times belong to Go's library: they are the fields of `Libs`.
use marstack_govern.Prelude.{
  ℤ, String, Bytes, List, ◌++◌, Bool, false, ◌&&◌, Result, ok, err, str_eq, eqb_ℤ,
}

pub record Event : Type 0 where
  pub audit_id : String
  pub event_at : ℤ
  pub stage : String
  pub actor : String
  pub actor_groups : List String
  pub impersonated_by : String
  pub acting_division : String
  pub verb : String
  pub resource : String
  pub subresource : String
  pub namespace : String
  pub object_name : String
  pub object_uid : String
  pub response_code : ℤ
  pub source_ips : List String
  pub user_agent : String
  pub payload : Bytes
  pub annotations : List (String × String)
  pub prev_hash : Bytes
  pub hash : Bytes
  pub canonical_bytes : Bytes

-- `sha256`, `json.Marshal` and `json.Unmarshal` of an event, and `UTC().Truncate(Microsecond)`.
pub record Libs : Type 0 where
  pub sha256 : Bytes → Bytes
  pub marshal : Event → Result Bytes
  pub unmarshal : Bytes → Result Event
  pub truncate_micros : ℤ → ℤ

-- `Event.Canonical`
unfoldable pub canonical : Libs → Event → Result Bytes
canonical lib e = lib.marshal e

-- `Digest`: the hash is fed the two byte strings one after the other.
unfoldable pub digest : Libs → Bytes → Bytes → Bytes
digest lib previous bytes = lib.sha256 (previous ++ bytes)

-- The comparison at the end of `Matches`.
unfoldable pub same_fields : Libs → Event → Event → Bool
same_fields lib e signed =
    str_eq e.audit_id signed.audit_id
    && (str_eq e.actor signed.actor
        && (str_eq e.impersonated_by signed.impersonated_by
            && (str_eq e.acting_division signed.acting_division
                && (str_eq e.verb signed.verb
                    && (str_eq e.resource signed.resource
                        && (str_eq e.subresource signed.subresource
                            && (str_eq e.namespace signed.namespace
                                && (str_eq e.object_name signed.object_name
                                    && (str_eq e.object_uid signed.object_uid
                                        && (eqb_ℤ e.response_code signed.response_code
                                            && eqb_ℤ (lib.truncate_micros e.event_at)
                                                (lib.truncate_micros signed.event_at)))))))))))

-- `Event.Matches`
unfoldable pub matches : Libs → Event → Bytes → Bool
unfolding same_fields
matches lib e bytes = elim (lib.unmarshal bytes) [
  | ok signed ↦ same_fields lib e signed
  | err _ ↦ false
]
