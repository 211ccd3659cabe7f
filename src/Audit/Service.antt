-- ===== src/Audit/Service.antt =====
-- internal/audit/service.go, `VerifyChain`, with `Store.Range` of internal/audit/store.go and
-- `FileArchive.Hashes` of internal/audit/archive.go. The records stand in the order of `seq`, as
-- the queries order them. `hex.EncodeToString` is a parameter; so is what the database and the
-- disk answer.
pub mod Exact
pub mod Truncation
use marstack_govern.Prelude.{
  ℕ, ◌^◌, ℤ, pos, leb_ℤ, ltb_ℤ, String, concat, str_eq, Bytes, Bool, true, false, not, ◌&&◌, List,
  [], ◌∷◌, map, select, get_elem?, length, Option, none, some, Result, ok, err, if◌then◌else◌,
  format_int,
}
use marstack_govern.Audit.Event.{Event, Libs}
use marstack_govern.Audit.Table.{last_hash}
use marstack_govern.Audit.Verify.{Verification, broken, verify}

pub record Record : Type 0 where
  pub seq : ℕ
  pub event : Event

pub record Ask : Type 0 where
  pub signed_in : Bool
  pub from_seq : ℤ
  pub to_seq : ℤ
  pub compare_archive : Bool

-- What the store and the archive answer.
pub record Sources : Type 0 where
  pub at_start : Option String
  pub at_range : Option String
  pub records : List Record
  pub archive : Option (Result (List Event))  -- the lines of the segments; `none` without an archive

pub data Code : Type 0 where
  unauthenticated internal : Code

pub data Answer : Type 0 where
  refused : Code → String → Answer
  verified : Verification → Answer

-- `to`, where none is asked for.
unfoldable pub last_asked : ℤ → ℤ
last_asked to = if leb_ℤ to (pos 0) then pos (2 ^ 62) else to

unfoldable pub in_range : ℤ → ℤ → Record → Bool
in_range from to r = leb_ℤ from (pos r.seq) && leb_ℤ (pos r.seq) to

unfoldable pub events_of : List Record → List Event
events_of [] = []
events_of (r ∷ rs) = r.event ∷ events_of rs

-- `Store.Range`: the records, and the hash before them.
unfoldable pub range : Sources → ℤ → ℤ → Result (List Record × Bytes)
unfolding last_asked in_range events_of last_hash
range src from to = elim src.at_start [
  | some e ↦ err (concat "read the hash before " (concat (format_int from) (concat ": " e)))
  | none ↦ elim src.at_range [
    | some e ↦ err (concat "read audit range: " e)
    | none ↦ ok (
      select (in_range from (last_asked to)) src.records,
      last_hash [] (events_of (select (λ r. ltb_ℤ (pos r.seq) from) src.records)),
    )
  ]
]

-- `FileArchive.Hashes`, read at one id: the last line of it counts.
unfoldable pub archived_hash : String → List Event → Option Bytes
archived_hash id [] = none
archived_hash id (e ∷ es) = elim (archived_hash id es) [
  | some h ↦ some h
  | none ↦ if str_eq e.audit_id id then some e.hash else none
]

-- The loop of `compareArchive`.
unfoldable pub compare_records :
    (Bytes → String) → List Event → List Record → Verification → Verification
unfolding archived_hash broken
compare_records hex lines [] v = v
compare_records hex lines (r ∷ rs) v =
    let rest = compare_records hex lines rs v in
    elim (archived_hash r.event.audit_id lines) [
      | none ↦
          broken v r.seq
            (concat "event " (concat r.event.audit_id " is in the database but not in the archive"))
      | some h ↦
          if not (str_eq (hex h) (hex r.event.hash))
          then broken v r.seq
              (concat "event " (concat r.event.audit_id " does not match the archived copy"))
          else rest
    ]

unfoldable pub last_seq_of : ℕ → List Record → ℕ
last_seq_of n [] = n
last_seq_of n (r ∷ rs) = last_seq_of r.seq rs

-- The index that `Verify` reports, as the sequence number of that record.
unfoldable pub located : List Record → Verification → Verification
located rs v = elim (get_elem? rs v.broken_at_seq) [
  | none ↦ v
  | some r ↦ if not v.intact then record v { broken_at_seq = r.seq } else v
]

unfoldable pub numbered : List Record → Verification → Verification
unfolding last_seq_of located
numbered [] v = v
numbered (r ∷ rs) v =
    located (r ∷ rs) (record v { first_seq = r.seq; last_seq = last_seq_of r.seq rs })

-- From the records and the hash before them.
unfoldable pub verify_records :
    Libs → (Bytes → String) → Ask → Sources → List Record → Bytes → Answer
unfolding events_of numbered compare_records
verify_records lib hex ask src records start =
    let v = numbered records (verify lib (events_of records) start) in
    if ask.compare_archive
    then elim src.archive [
      | none ↦ verified v
      | some (err e) ↦ refused internal e
      | some (ok lines) ↦
          verified (compare_records hex lines records (record v { archive_checked = true }))
    ]
    else verified v

-- `from`, which is 1 where none is asked for.
unfoldable pub first_asked : ℤ → ℤ
first_asked from = if leb_ℤ from (pos 0) then pos 1 else from

-- `Service.VerifyChain`
unfoldable pub verify_chain : Libs → (Bytes → String) → Ask → Sources → Answer
unfolding first_asked range verify_records
verify_chain lib hex ask src =
    if not ask.signed_in
    then refused unauthenticated "sign in at /auth/login"
    else elim (range src (first_asked ask.from_seq) ask.to_seq) [
      | err e ↦ refused internal e
      | ok (records, start) ↦ verify_records lib hex ask src records start
    ]
