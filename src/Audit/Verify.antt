-- ===== src/Audit/Verify.antt =====
-- internal/audit/chain.go: `Verify`.
use marstack_govern.Prelude.{
  ℕ, ◌+◌, String, concat, Bytes, bytes_eq, Bool, true, false, not, List, [], ◌∷◌, if◌then◌else◌,
}
use marstack_govern.Audit.Event.{Event, Libs, digest, matches}

pub record Verification : Type 0 where
  pub intact : Bool
  pub checked : ℕ
  pub first_seq : ℕ
  pub last_seq : ℕ
  pub broken_at_seq : ℕ
  pub detail : String
  pub archive_checked : Bool

unfoldable pub broken : Verification → ℕ → String → Verification
broken v at detail = record v { intact = false; broken_at_seq = at; detail = detail }

-- The loop, at index `i` and with the hash `previous`.
unfoldable pub verify_from : Libs → Bytes → ℕ → Verification → List Event → Verification
unfolding broken
verify_from lib previous i v [] = v
verify_from lib previous i v (e ∷ es) =
    let counted = record v { checked = v.checked + 1 } in
    let rest = verify_from lib e.hash (i + 1) (record counted { last_seq = i }) es in
    if not (bytes_eq e.prev_hash previous)
    then broken counted i (concat "event " (concat e.audit_id " does not follow the one before it"))
    else if not (bytes_eq (digest lib previous e.canonical_bytes) e.hash)
    then broken counted i (concat "event " (concat e.audit_id " was altered after it was recorded"))
    else if not (matches lib e e.canonical_bytes)
    then broken counted i
        (concat "the stored copy of event " (concat e.audit_id " disagrees with what was signed"))
    else rest

-- `Verify`
unfoldable pub verify : Libs → List Event → Bytes → Verification
unfolding verify_from
verify lib events start =
    verify_from lib start 0
      (record {
        intact = true;
        checked = 0;
        first_seq = 0;
        last_seq = 0;
        broken_at_seq = 0;
        detail = "";
        archive_checked = false;
      })
      events
