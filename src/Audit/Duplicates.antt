-- ===== src/Audit/Duplicates.antt =====
-- A batch that begins with an event already stored (internal/audit/chain.go against the trigger and
-- the ON CONFLICT clause of internal/audit/store.go and internal/db/migrations/0005_audit.sql).
use marstack_govern.Prelude.{
  ℕ, Bytes, true, List, [], ◌∷◌, ◌≡◌, refl, sym, ap, subst, ◌⊎◌, inl, inr, ◌∙◌, String, Option,
  none, some, Result, ok, err, ◌≢◌, Bool-cases, Result-cases,
}
use marstack_govern.Audit.Event.{Event, Libs, canonical, digest}
use marstack_govern.Audit.Table
use marstack_govern.Audit.Table.{last_hash}
use marstack_govern.Audit.Chain.{World, Faults, link, linked, store, read_tip, append_after, append}
use marstack_govern.Audit.Preservation.{rows-read_tip, link_trigger→eq}
use marstack_govern.Audit.Storing.{store_failed}

abbrev pub IsErr {ℓ} : {A : Type ℓ} → Result A → Type 0
IsErr (ok a) = ⊥
IsErr (err m) = Unit

module _ (lib : Libs) where
  skipped_or_refused :
      (rows : List Event) (d : Event)
      → Table.has_id d.audit_id rows ≡ true
      → ((m : String) × (Table.insert rows d ≡ err m))
        ⊎ ((Table.insert rows d ≡ ok rows) × (d.prev_hash ≡ last_hash [] rows))
  unfolding Table.insert
  skipped_or_refused rows d known = elim (Bool-cases (Table.link_trigger rows d)) [
    | inr p ↦
        inl
          ("audit chain break: prev_hash does not match the current tip", rw (p, Table.insert) refl)
    | inl p ↦ elim (Bool-cases (Table.length_checks d)) [
      | inr q ↦ inl ("check constraint", rw (p, q, Table.insert) refl)
      | inl q ↦ inr (rw (p, q, known, Table.insert) refl, link_trigger→eq lib rows d p)
    ]
  ]

  unlinked_refused :
      (rows : List Event) (e : Event)
      → e.prev_hash ≢ last_hash [] rows
      → IsErr (Table.insert rows e)
  unfolding Table.insert
  unlinked_refused rows e other = elim (Bool-cases (Table.link_trigger rows e)) [
    | inl p ↦ absurd (other (link_trigger→eq lib rows e p))
    | inr p ↦ rw (p, Table.insert) tt
  ]

  insert_all-IsErr :
      (rows : List Event) (d e : Event) (rest : List Event)
      → Table.has_id d.audit_id rows ≡ true
      → (d.prev_hash ≡ last_hash [] rows → e.prev_hash ≢ last_hash [] rows)
      → IsErr (Table.insert_all rows (d ∷ e ∷ rest))
  unfolding Table.insert_all
  insert_all-IsErr rows d e rest known other = elim (skipped_or_refused rows d known) [
    | inl (m, p) ↦ rw (p, Table.insert_all) tt
    | inr (p, at) ↦
        let refused = unlinked_refused rows e (other at) in
        elim (Result-cases (Table.insert rows e)) [
          | inl (rows', q) ↦ absurd (subst IsErr q refused)
          | inr (m, q) ↦ rw (p, Table.insert_all, q) tt
        ]
  ]

  sink-refuses :
      (fault lost : Option String) (rows batch : List Event)
      → IsErr (Table.insert_all rows batch)
      → (m : String) × (Table.append fault lost rows batch ≡ (rows, some m))
  unfolding Table.append
  sink-refuses (some fault) lost rows batch h = (fault, refl)
  sink-refuses none lost rows batch h = elim (Result-cases (Table.insert_all rows batch)) [
    | inl (after, p) ↦ absurd (subst IsErr p h)
    | inr (m, p) ↦ (m, rw (p, Table.append) refl)
  ]

  -- The call failed and the table is as it was.
  abbrev pub Refused : List Event → World × Result ℕ → Type 0
  Refused rows r = IsErr r.1 × (r.0.rows ≡ rows)

  store-Refused :
      (f : Faults) (batch : List Event) (last : Bytes) (w : World)
      → IsErr (Table.insert_all w.rows batch)
      → Refused w.rows (store f batch last w)
  store-Refused f batch last w h =
      let (m, p) = sink-refuses f.at_append f.at_commit w.rows batch h in
      let failed = store_failed f batch last w (ap (λ r. r.1) p) in
      (subst IsErr (sym (ap (λ r. r.1) failed)) tt, ap (λ r. r.0.rows) failed ∙ ap (λ r. r.0) p)

  module _ (d e : Event) (es : List Event) (bytes : Bytes)
      (encodes : canonical lib d ≡ ok bytes) where
    abbrev Shape : Bytes → Result (List Event × Bytes) → Type 0
    Shape previous (err m) = Unit
    Shape previous (ok r) =
        (next : Event) × (rest : List Event) × (r.0
          ≡ linked previous (digest lib previous bytes) bytes d ∷ next ∷ rest)
        × (next.prev_hash ≡ digest lib previous bytes)

    link-Shape : (previous : Bytes) → Shape previous (link lib previous (d ∷ e ∷ es))
    unfolding link linked
    link-Shape previous =
        let after = digest lib previous bytes in
        elim (Result-cases (canonical lib e)) [
          | inr (m, p) ↦ rw (encodes, link, p) tt
          | inl (next, p) ↦ elim (Result-cases (link lib (digest lib after next) es)) [
            | inr (m, q) ↦ rw (encodes, link, p, q) tt
            | inl (r, q) ↦
                rw (encodes, link, p, q)
                  (linked after (digest lib after next) next e, r.0, refl, refl)
          ]
        ]

    after-Refused :
        (f : Faults) (ready : World) (t : Result Bytes)
        → Table.has_id d.audit_id ready.rows ≡ true
        → digest lib (last_hash [] ready.rows) bytes ≢ last_hash [] ready.rows
        → Refused ready.rows (append_after lib f (d ∷ e ∷ es) ready t)
    unfolding append_after linked
    after-Refused f ready (err m) known moves = (tt, refl)
    after-Refused f ready (ok previous) known moves =
        let shape = link-Shape previous in
        elim (Result-cases (link lib previous (d ∷ e ∷ es))) [
          | inr (m, q) ↦ rw (q, append_after) (tt, refl)
          | inl (r, q) ↦
              let (next, rest, made, prev) = subst (Shape previous) q shape in
              rw (q, append_after)
                (store-Refused f r.0 r.1 ready (
                  rw made (
                    insert_all-IsErr ready.rows _ next rest known (λ at other. moves (
                      subst (λ h. digest lib h bytes ≡ last_hash [] ready.rows) at
                        (sym prev ∙ other))))))
        ]

    -- A batch of at least two events whose first is already stored is never accepted: whatever the
    -- tip in memory, the database and the disk do, the call fails and the table is unchanged. It
    -- is so for every retry. The hypothesis on SHA-256 is that the digest that follows the table's
    -- last hash is not that hash again.
    pub append-Refused :
        (f : Faults) (w : World)
        → Table.has_id d.audit_id w.rows ≡ true
        → digest lib (last_hash [] w.rows) bytes ≢ last_hash [] w.rows
        → Refused w.rows (append lib f w (d ∷ e ∷ es))
    unfolding append
    append-Refused f w known moves =
        let same = rows-read_tip lib f w in
        let ready = (read_tip f w).0 in
        subst (λ rows. Refused rows (append lib f w (d ∷ e ∷ es))) same
          (after-Refused f ready (read_tip f w).1
            (subst (λ rows. Table.has_id d.audit_id rows ≡ true) (sym same) known)
            (subst (λ rows. digest lib (last_hash [] rows) bytes ≢ last_hash [] rows) (sym same)
              moves))
