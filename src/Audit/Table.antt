-- ===== src/Audit/Table.antt =====
-- The table audit_events (internal/db/migrations/0005_audit.sql) and the store over it
-- (internal/audit/store.go). The rows stand in the order of `seq`. A text column that PostgreSQL
-- refuses, or a lost connection, is the fault that a call may be given.
use marstack_govern.Prelude.{
  ◌==◌, String, concat, str_eq, Bytes, bytes_eq, Bool, false, ◌&&◌, ◌||◌, not, List, [], ◌∷◌, ◌++◌,
  length, Option, none, some, Result, ok, err, if◌then◌else◌,
}
use marstack_govern.Audit.Event.{Event}

-- The hash of the last row, and `start` where there is none.
unfoldable pub last_hash : Bytes → List Event → Bytes
last_hash start [] = start
last_hash start (e ∷ es) = last_hash e.hash es

unfoldable pub has_id : String → List Event → Bool
has_id id [] = false
has_id id (e ∷ es) = str_eq e.audit_id id || has_id id es

unfoldable pub has_hash : Bytes → List Event → Bool
has_hash h [] = false
has_hash h (e ∷ es) = bytes_eq e.hash h || has_hash h es

-- The trigger audit_events_link, which runs before each insert: the first row has an empty
-- prev_hash, and any other has the hash of the last row.
unfoldable pub link_trigger : List Event → Event → Bool
unfolding last_hash
link_trigger [] e = length e.prev_hash == 0
link_trigger (r ∷ rows) e = bytes_eq e.prev_hash (last_hash r.hash rows)

-- The checks audit_events_hash_len and audit_events_prev_hash_len.
unfoldable pub length_checks : Event → Bool
length_checks e = length e.hash == 32 && (length e.prev_hash == 0 || length e.prev_hash == 32)

-- INSERT … ON CONFLICT (audit_id) DO NOTHING: the trigger and the checks come first, a known
-- audit_id is skipped, and a known hash is an error.
unfoldable pub insert : List Event → Event → Result (List Event)
insert rows e =
    if not (link_trigger rows e)
    then err "audit chain break: prev_hash does not match the current tip"
    else if not (length_checks e)
    then err "check constraint"
    else if has_id e.audit_id rows
    then ok rows
    else if has_hash e.hash rows
    then err "duplicate hash"
    else ok (rows ++ (e ∷ []))

-- The loop of `Store.Append`, inside its transaction.
unfoldable pub insert_all : List Event → List Event → Result (List Event)
insert_all rows [] = ok rows
insert_all rows (e ∷ es) = elim (insert rows e) [
  | ok rows' ↦ insert_all rows' es
  | err m ↦ err (concat (concat "record audit event " (concat e.audit_id ": ")) m)
]

-- `Store.Append`: all the rows or none, and the error. With `fault` nothing is committed; `lost` is the
-- error of a commit that was carried out.
unfoldable pub append :
    Option String → Option String → List Event → List Event → List Event × Option String
append (some fault) lost rows events = (rows, some fault)
append none lost rows events = elim (insert_all rows events) [
  | err m ↦ (rows, some m)
  | ok after ↦ (after, lost)
]

-- `Store.Tip`
unfoldable pub tip : Option String → List Event → Result Bytes
tip (some fault) rows = err (concat "read the audit chain tip: " fault)
tip none rows = ok (last_hash [] rows)
