-- ===== src/Audit/Acceptance.antt =====
-- A batch of new events is accepted (internal/audit/chain.go, internal/audit/store.go).
use marstack_govern.Prelude.{
  Bytes, bytes_eq_iff, true, false, List, [], ◌∷◌, ◌++◌, ◌≡◌, refl, sym, subst, ◌⊎◌, inl, inr, ◌∙◌,
  ap, length, none, ok, arith, Bool-cases,
}
use marstack_govern.Audit.Event.{Event, Libs, digest}
use marstack_govern.Audit.Table
use marstack_govern.Audit.Table.{last_hash}
use marstack_govern.Audit.Chain.{World, Faults, link, finish, store, read_tip, append_after, append}
use marstack_govern.Audit.Integrity.{Follows, IsChain}
use marstack_govern.Audit.Linking.{RoundTrips, link_post, LinkPost}
use marstack_govern.Audit.Preservation.{rows-read_tip}
use marstack_govern.Audit.Storing.{sink, store_stored}
use marstack_govern.Audit.Tamper.{IsFixedLength}
use mathlib.Core.List.{append_assoc, append-nil}

-- The events of a batch are new to the table: their ids, and their hashes.
abbrev pub IsFresh : List Event → List Event → Type 0
IsFresh rows [] = Unit
IsFresh rows (e ∷ es) =
    (Table.has_id e.audit_id rows ≡ false)
    × (Table.has_hash e.hash rows ≡ false)
    × IsFresh (rows ++ (e ∷ [])) es

abbrev pub no_faults : Faults
no_faults = record { at_tip = none; at_append = none; at_commit = none; at_archive = none }

module _ (lib : Libs) (fixed : IsFixedLength lib) where
  abbrev HasLength : Bytes → Type 0
  HasLength h = (length h ≡ 0) ⊎ (length h ≡ 32)

  Follows-HasLength : (previous : Bytes) (e : Event) → Follows lib previous e → length e.hash ≡ 32
  unfolding digest
  Follows-HasLength previous e c = ap length (sym c.covers) ∙ fixed (previous ++ e.canonical_bytes)

  last_hash-HasLength :
      (start : Bytes) (rows : List Event)
      → HasLength start
      → IsChain lib start rows
      → HasLength (last_hash start rows)
  unfolding last_hash
  last_hash-HasLength start [] h c = h
  last_hash-HasLength start (r ∷ rows) h c =
      last_hash-HasLength r.hash rows (inr (Follows-HasLength start r c.0)) c.1

  last_hash-append :
      (start : Bytes) (rows : List Event) (e : Event) → last_hash start (rows ++ (e ∷ [])) ≡ e.hash
  unfolding last_hash
  last_hash-append start [] e = refl
  last_hash-append start (r ∷ rows) e = last_hash-append r.hash rows e

  trigger_passes :
      (rows : List Event) (e : Event)
      → e.prev_hash ≡ last_hash [] rows
      → Table.link_trigger rows e ≡ true
  unfolding Table.link_trigger last_hash
  trigger_passes [] e h = let n : length e.prev_hash ≡ 0 = ap length h in ground arith
  trigger_passes (r ∷ rows) e h = (bytes_eq_iff e.prev_hash (last_hash r.hash rows)).1 h

  checks_pass :
      (e : Event) → HasLength e.prev_hash → length e.hash ≡ 32 → Table.length_checks e ≡ true
  unfolding Table.length_checks
  checks_pass e h k = ground arith

  insert-fresh :
      (rows : List Event) (e : Event)
      → HasLength (last_hash [] rows)
      → Follows lib (last_hash [] rows) e
      → Table.has_id e.audit_id rows ≡ false
      → Table.has_hash e.hash rows ≡ false
      → Table.insert rows e ≡ ok (rows ++ (e ∷ []))
  unfolding Table.insert
  insert-fresh rows e h c new_id new_hash =
      rw
        (
          trigger_passes rows e c.links,
          checks_pass e (subst HasLength (sym c.links) h) (Follows-HasLength _ e c),
          new_id,
          new_hash,
          Table.insert,
        )
        refl

  insert_all-fresh :
      (rows batch : List Event)
      → HasLength (last_hash [] rows)
      → IsChain lib (last_hash [] rows) batch
      → IsFresh rows batch
      → Table.insert_all rows batch ≡ ok (rows ++ batch)
  unfolding Table.insert_all
  insert_all-fresh rows [] h c new = ap ok (sym (append-nil rows))
  insert_all-fresh rows (e ∷ es) h c new =
      let at = sym (last_hash-append [] rows e) in
      rw (insert-fresh rows e h c.0 new.0 new.1, Table.insert_all)
        (insert_all-fresh (rows ++ (e ∷ [])) es
            (subst HasLength at (inr (Follows-HasLength _ e c.0)))
            (subst (λ t. IsChain lib t es) at c.1) new.2
          ∙ ap ok (append_assoc rows (e ∷ []) es))

  finish-no_faults :
      (events : List Event) (last : Bytes) (w : World)
      → let (w', result) = finish no_faults events last w in
        (result ≡ ok (length events)) × (w'.rows ≡ w.rows) × (w'.tip ≡ last)
  unfolding finish
  finish-no_faults events last w = ground arith

  -- A sink that answers stores what the table takes.
  sink-no_faults :
      (w : World) (batch after : List Event)
      → Table.insert_all w.rows batch ≡ ok after
      → sink no_faults w batch ≡ (after, none)
  unfolding Table.append
  sink-no_faults w batch after h = rw (h, Table.append) refl

  read_tip_ready :
      (w : World)
      → (w.read ≡ true → w.tip ≡ last_hash [] w.rows)
      → (read_tip no_faults w).1 ≡ ok (last_hash [] w.rows)
  unfolding read_tip Table.tip
  read_tip_ready w h = elim (Bool-cases w.read) [
    | inl p ↦ let t = h p in rw (p, t) refl
    | inr p ↦ rw p refl
  ]

  append_after_ok :
      (f : Faults) (events : List Event) (ready : World) (previous : Bytes) (batch : List Event)
      (last : Bytes)
      → link lib previous events ≡ ok (batch, last)
      → append_after lib f events ready (ok previous) ≡ store f batch last ready
  unfolding append_after
  append_after_ok f events ready previous batch last h = rw (h, append_after) refl

  module _ (json : RoundTrips lib) where
    -- With the database and the disk answering, and a tip in memory that is the table's (or none),
    -- a batch that can be encoded and whose ids and hashes are new to the table is accepted: the
    -- call returns its length, and the table then ends with the linked batch. The table was a
    -- chain before, a hash has 32 bytes, and the JSON codec gives back what it encodes.
    pub append_accepts :
        (w : World) (e : Event) (es batch : List Event) (last : Bytes)
        → IsChain lib [] w.rows
        → (w.read ≡ true → w.tip ≡ last_hash [] w.rows)
        → link lib (last_hash [] w.rows) (e ∷ es) ≡ ok (batch, last)
        → IsFresh w.rows batch
        → let (w', result) = append lib no_faults w (e ∷ es) in
          (result ≡ ok (length (e ∷ es))) × (w'.rows ≡ w.rows ++ batch) × (w'.tip ≡ last)
    unfolding append
    append_accepts w e es batch last c tip made new =
        let ready = (read_tip no_faults w).0 in
        let same = rows-read_tip lib no_faults w in
        let post =
          subst (LinkPost lib json (last_hash [] w.rows) (length (e ∷ es))) made
            (link_post lib json (last_hash [] w.rows) (e ∷ es)) in
        let inserted =
          insert_all-fresh w.rows batch (last_hash-HasLength [] w.rows (inl refl) c) post.0 new in
        let inserted' = ap (λ r. Table.insert_all r batch) same ∙ inserted in
        let taken = sink-no_faults ready batch (w.rows ++ batch) inserted' in
        let stored =
          store_stored no_faults batch last ready (ap (λ r. r.1) taken)
          ∙ ap (λ r. finish no_faults batch last (record ready { rows = r.0 })) taken in
        let (result, rows, tip') =
          finish-no_faults batch last (record ready { rows = w.rows ++ batch }) in
        rw
          (read_tip_ready w tip, append_after_ok no_faults (e ∷ es) ready _ batch last made, stored)
          (result ∙ ap ok post.2, rows, tip')
