-- ===== src/Audit/Preservation.antt =====
-- `Chain.Append` (internal/audit/chain.go) keeps the stored table a chain, whatever the tip in
-- memory, the database and the disk do.
use marstack_govern.Prelude.{
  All, Bytes, bytes_eq_iff, true, List, [], ◌∷◌, ◌++◌, ◌≡◌, refl, sym, subst, inl, inr, length,
  String, Option, none, some, Result, ok, err, arith, Bool-cases, Result-cases,
}
use marstack_govern.Audit.Event.{Event, Libs}
use marstack_govern.Audit.Table
use marstack_govern.Audit.Table.{last_hash}
use marstack_govern.Audit.Storing.{rows-store}
use marstack_govern.Audit.Chain.{World, Faults, link, store, read_tip, append_after, append}
use marstack_govern.Audit.Integrity.{Follows, IsChain}
use marstack_govern.Audit.Linking.{RoundTrips, link_post, LinkPost}

module _ (lib : Libs) where
  -- A batch whose events are each covered by their own hash.
  abbrev IsSealed : List Event → Type 0
  IsSealed = All (λ e. Follows lib e.prev_hash e)

  IsChain→IsSealed : (previous : Bytes) (es : List Event) → IsChain lib previous es → IsSealed es
  IsChain→IsSealed previous [] c = tt
  IsChain→IsSealed previous (e ∷ es) c =
      (subst (λ h. Follows lib h e) (sym c.0.links) c.0, IsChain→IsSealed e.hash es c.1)

  pub IsChain-append :
      (start : Bytes) (rows : List Event) (e : Event)
      → IsChain lib start rows
      → Follows lib (last_hash start rows) e
      → IsChain lib start (rows ++ (e ∷ []))
  unfolding last_hash
  IsChain-append start [] e c f = (f, tt)
  IsChain-append start (r ∷ rows) e c f = (c.0, IsChain-append r.hash rows e c.1 f)

  pub link_trigger→eq :
      (rows : List Event) (e : Event)
      → Table.link_trigger rows e ≡ true
      → e.prev_hash ≡ last_hash [] rows
  unfolding Table.link_trigger
  link_trigger→eq [] e h = length-zero e.prev_hash (ground arith)
    where
      length-zero : (xs : Bytes) → length xs ≡ 0 → xs ≡ []
      length-zero [] p = refl
      length-zero (x ∷ xs) p = absurd (omega arith)
  link_trigger→eq (r ∷ rows) e h = (bytes_eq_iff e.prev_hash (last_hash r.hash rows)).0 h

  abbrev TablePost : Result (List Event) → Type 0
  TablePost (err m) = Unit
  TablePost (ok rows) = IsChain lib [] rows

  insert-IsChain :
      (rows : List Event) (e : Event)
      → IsChain lib [] rows
      → Follows lib e.prev_hash e
      → TablePost (Table.insert rows e)
  unfolding Table.insert
  insert-IsChain rows e c f = elim (Bool-cases (Table.link_trigger rows e)) [
    | inr p ↦ rw p tt
    | inl p ↦ elim (Bool-cases (Table.length_checks e)) [
      | inr q ↦ rw (p, q) tt
      | inl q ↦ elim (Bool-cases (Table.has_id e.audit_id rows)) [
        | inl r ↦ rw (p, q, r) c
        | inr r ↦ elim (Bool-cases (Table.has_hash e.hash rows)) [
          | inl t ↦ rw (p, q, r, t) tt
          | inr t ↦
              rw (p, q, r, t)
                (IsChain-append [] rows e c
                  (subst (λ h. Follows lib h e) (link_trigger→eq rows e p) f))
        ]
      ]
    ]
  ]

  insert_all-IsChain :
      (rows events : List Event)
      → IsChain lib [] rows
      → IsSealed events
      → TablePost (Table.insert_all rows events)
  unfolding Table.insert_all
  insert_all-IsChain rows [] c s = c
  insert_all-IsChain rows (e ∷ es) c s =
      let post = insert-IsChain rows e c s.0 in
      elim (Result-cases (Table.insert rows e)) [
        | inr (m, p) ↦ rw (p, Table.insert_all) tt
        | inl (rows', p) ↦
            rw (p, Table.insert_all) (insert_all-IsChain rows' es (subst TablePost p post) s.1)
      ]

  pub rows-read_tip : (f : Faults) (w : World) → (read_tip f w).0.rows ≡ w.rows
  unfolding read_tip
  rows-read_tip f w = ground arith

  sink-IsChain :
      (fault lost : Option String) (rows events : List Event)
      → IsChain lib [] rows
      → IsSealed events
      → IsChain lib [] (Table.append fault lost rows events).0
  unfolding Table.append
  sink-IsChain (some fault) lost rows events c s = c
  sink-IsChain none lost rows events c s =
      let post = insert_all-IsChain rows events c s in
      elim (Result-cases (Table.insert_all rows events)) [
        | inr (m, p) ↦ rw (p, Table.append) c
        | inl (after, p) ↦ rw (p, Table.append) (subst TablePost p post)
      ]

  store-IsChain :
      (f : Faults) (events : List Event) (last : Bytes) (w : World)
      → IsChain lib [] w.rows
      → IsSealed events
      → IsChain lib [] (store f events last w).0.rows
  store-IsChain f events last w c s =
      subst (IsChain lib []) (sym (rows-store f events last w))
        (sink-IsChain f.at_append f.at_commit w.rows events c s)

  module _ (json : RoundTrips lib) where
    append_after-IsChain :
        (f : Faults) (events : List Event) (ready : World) (t : Result Bytes)
        → IsChain lib [] ready.rows
        → IsChain lib [] (append_after lib f events ready t).0.rows
    unfolding append_after
    append_after-IsChain f events ready (err m) c = c
    append_after-IsChain f events ready (ok previous) c =
        let post = link_post lib json previous events in
        elim (Result-cases (link lib previous events)) [
          | inr (m, q) ↦ rw (q, IsChain) c
          | inl (r, q) ↦
              let made = subst (LinkPost lib json previous (length events)) q post in
              rw (q, IsChain)
                (store-IsChain f r.0 r.1 ready c (IsChain→IsSealed previous r.0 made.0))
        ]

    -- Whatever the tip in memory, and wherever the database or the disk fails, an append leaves
    -- the stored table a chain from the empty hash, if it was one before and the JSON codec gives
    -- back the identifying fields of what it encodes.
    pub append-IsChain :
        (f : Faults) (w : World) (events : List Event)
        → IsChain lib [] w.rows
        → IsChain lib [] (append lib f w events).0.rows
    unfolding append
    append-IsChain f w [] c = c
    append-IsChain f w (e ∷ es) c =
        append_after-IsChain f (e ∷ es) (read_tip f w).0 (read_tip f w).1
          (subst (IsChain lib []) (sym (rows-read_tip f w)) c)
