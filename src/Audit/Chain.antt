-- ===== src/Audit/Chain.antt =====
-- internal/audit/chain.go: `Chain.Append`. The mutex makes a call one step, so a call is a function
-- from the state of the world to the next. What the database and the disk answer are the `Faults`
-- of a call.
use marstack_govern.Prelude.{
  ℕ, zero, suc, String, concat, Bytes, Bool, true, false, List, [], ◌∷◌, ◌++◌, length, Option, none,
  some, Result, ok, err, if◌then◌else◌,
}
use marstack_govern.Audit.Event.{Event, Libs, canonical, digest}
use marstack_govern.Audit.Table

pub record World : Type 0 where
  pub rows : List Event  -- audit_events
  pub segments : List Event  -- the lines of the archive's segments
  pub head : Bytes  -- the archive's head file
  pub has_archive : Bool
  pub tip : Bytes
  pub read : Bool

pub record Faults : Type 0 where
  pub at_tip : Option String
  pub at_append : Option String  -- nothing is committed
  pub at_commit : Option String  -- the batch is committed, and the answer is lost
  -- The number of lines that reached the segment before the error.
  pub at_archive : Option (ℕ × String)

unfoldable pub linked : Bytes → Bytes → Bytes → Event → Event
linked previous hash bytes e = record e {
  prev_hash = previous;
  hash = hash;
  canonical_bytes = bytes;
}

-- The loop that links a batch: the linked events, and the digest of the last.
unfoldable pub link : Libs → Bytes → List Event → Result (List Event × Bytes)
link lib previous [] = ok ([], previous)
link lib previous (e ∷ es) = elim (canonical lib e) [
  | err m ↦ err m
  | ok bytes ↦ elim (link lib (digest lib previous bytes) es) [
    | err m ↦ err m
    | ok (rest, last) ↦ ok (linked previous (digest lib previous bytes) bytes e ∷ rest, last)
  ]
]

unfoldable pub first : ℕ → List Event → List Event
first zero es = []
first (suc n) [] = []
first (suc n) (e ∷ es) = e ∷ first n es

-- `FileArchive.Write`, of a batch with the last hash `last`.
unfoldable pub write : Option (ℕ × String) → List Event → Bytes → World → World × Result (Unit {0})
unfolding first
write (some (n, fault)) events last w =
    (record w { segments = w.segments ++ first n events }, err fault)
write none events last w = (record w { segments = w.segments ++ events; head = last }, ok tt)

-- Once the sink has the batch: the archive, and the new tip.
unfoldable pub finish : Faults → List Event → Bytes → World → World × Result ℕ
unfolding write
finish f events last w =
    if w.has_archive
    then (let (archived, result) = write f.at_archive events last w in
        elim result [
          | err m ↦ (record archived { read = false }, err (concat "archive audit events: " m))
          | ok _ ↦ (record archived { tip = last }, ok (length events))
        ])
    else (record w { tip = last }, ok (length events))

-- From the sink's append on.
unfoldable pub store : Faults → List Event → Bytes → World → World × Result ℕ
store f events last w =
    let sink = Table.append f.at_append f.at_commit w.rows events in
    elim sink.1 [
      | some m ↦ (record w { rows = sink.0; read = false }, err m)
      | none ↦ finish f events last (record w { rows = sink.0 })
    ]

-- The tip that the batch is linked to: the one in memory, or the sink's.
unfoldable pub read_tip : Faults → World → World × Result Bytes
read_tip f w = if w.read then (w, ok w.tip) else elim (Table.tip f.at_tip w.rows) [
  | err m ↦ (w, err m)
  | ok t ↦ (record w { tip = t; read = true }, ok t)
]

-- The batch is linked to the tip that was read, and goes to the sink.
unfoldable pub append_after : Libs → Faults → List Event → World → Result Bytes → World × Result ℕ
append_after lib f events ready (err m) = (ready, err m)
append_after lib f events ready (ok previous) = elim (link lib previous events) [
  | err m ↦ (ready, err m)
  | ok (batch, last) ↦ store f batch last ready
]

-- `Chain.Append`
unfoldable pub append : Libs → Faults → World → List Event → World × Result ℕ
append lib f w [] = (w, ok 0)
append lib f w (e ∷ es) = append_after lib f (e ∷ es) (read_tip f w).0 (read_tip f w).1
