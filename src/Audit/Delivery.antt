-- ===== src/Audit/Delivery.antt =====
-- What an acknowledgement of `Chain.Append` means (internal/audit/chain.go), and when it is given.
use marstack_govern.Prelude.{
  if◌then◌else◌, Bool-cases, Option-cases, map, ℕ, suc, Bytes, true, false, List, [], ◌∷◌, ◌++◌,
  ◌≡◌, refl, sym, subst, inl, inr, ◌∙◌, ap, length, Result, ok, err, arith, Result-cases,
}
use marstack_govern.Audit.Event.{Event, Libs, canonical, digest}
use marstack_govern.Audit.Table
use marstack_govern.Audit.Table.{last_hash, has_id}
use mathlib.Core.List.{append-nil, append_assoc}
use marstack_govern.Audit.Storing.{sink, store_failed, store_stored, insert_all_of_append}
use marstack_govern.Audit.Chain.{
  World, Faults, linked, link, finish, store, read_tip, append_after, append,
}

-- The events of a batch that the table does not know yet: the others are skipped.
abbrev pub unknown : List Event → List Event → List Event
unknown rows [] = []
unknown rows (e ∷ es) =
    if has_id e.audit_id rows then unknown rows es else e ∷ unknown (rows ++ (e ∷ [])) es

-- The ids of a batch are new to the table, and to the events of the batch before them.
abbrev pub AreNew : List Event → List Event → Type 0
AreNew rows [] = Unit
AreNew rows (e ∷ es) = (has_id e.audit_id rows ≡ false) × AreNew (rows ++ (e ∷ [])) es

-- What holds after a batch was acknowledged with `n`, from the world `w` to the world `w'`.
pub record Delivered (lib : Libs) (w w' : World) (events : List Event) (n : ℕ) : Type 0 where
  pub batch : List Event
  pub previous : Bytes
  pub counted : n ≡ length events
  pub made : link lib previous events ≡ ok (batch, w'.tip)
  pub same_ids : map (λ e. e.audit_id) batch ≡ map (λ e. e.audit_id) events
  pub stored : w'.rows ≡ w.rows ++ unknown w.rows batch
  pub stored_whole : AreNew w.rows batch → w'.rows ≡ w.rows ++ batch
  pub archived : w.has_archive ≡ true → (w'.segments ≡ w.segments ++ batch) × (w'.head ≡ w'.tip)

unknown-AreNew : (rows batch : List Event) → AreNew rows batch → unknown rows batch ≡ batch
unknown-AreNew rows [] new = refl
unknown-AreNew rows (e ∷ es) new =
    let later = unknown-AreNew (rows ++ (e ∷ [])) es new.1 in rw new.0 (ap (λ xs. e ∷ xs) later)

insert_known :
    (rows after : List Event) (e : Event)
    → Table.insert rows e ≡ ok after
    → has_id e.audit_id rows ≡ true
    → after ≡ rows
unfolding Table.insert
insert_known rows after e h known = ground arith

insert_unknown :
    (rows after : List Event) (e : Event)
    → Table.insert rows e ≡ ok after
    → has_id e.audit_id rows ≡ false
    → after ≡ rows ++ (e ∷ [])
unfolding Table.insert
insert_unknown rows after e h new = ground arith

insert_all-cons :
    (rows after : List Event) (e : Event) (es : List Event)
    → Table.insert_all rows (e ∷ es) ≡ ok after
    → (next : List Event) × (Table.insert rows e ≡ ok next) × (Table.insert_all next es ≡ ok after)
unfolding Table.insert_all
insert_all-cons rows after e es h = elim (Result-cases (Table.insert rows e)) [
  | inr (m, p) ↦ absurd (let q = rw (Table.insert_all, p) at h in cc)
  | inl (next, p) ↦ (next, p, rw (Table.insert_all, p) at h)
]

-- A batch that the table takes is stored but for the events that it knows.
insert_all-unknown :
    (rows after batch : List Event)
    → Table.insert_all rows batch ≡ ok after
    → after ≡ rows ++ unknown rows batch
unfolding Table.insert_all
insert_all-unknown rows after [] h =
    let same : rows ≡ after = cc in sym same ∙ sym (append-nil rows)
insert_all-unknown rows after (e ∷ es) h =
    let (next, here, more) = insert_all-cons rows after e es h in
    let later = insert_all-unknown next after es more in
    elim (Bool-cases (has_id e.audit_id rows)) [
      | inl p ↦ rw p (later ∙ ap (λ rs. rs ++ unknown rs es) (insert_known rows next e here p))
      | inr p ↦ rw p (
          later
          ∙ ap (λ rs. rs ++ unknown rs es) (insert_unknown rows next e here p)
          ∙ append_assoc rows (e ∷ []) (unknown (rows ++ (e ∷ [])) es))
    ]

module _ (lib : Libs) where
  finish_ok :
      (f : Faults) (events : List Event) (last : Bytes) (w : World) (n : ℕ)
      → (finish f events last w).1 ≡ ok n
      → let w' = (finish f events last w).0 in
        (n ≡ length events)
        × (w'.tip ≡ last)
        × (w.has_archive ≡ true → (w'.segments ≡ w.segments ++ events) × (w'.head ≡ last))
        × (w'.rows ≡ w.rows)
  unfolding finish
  finish_ok f events last w n h = ground arith

  abbrev Post : World → List Event → World → Result ℕ → Type 0
  Post w events w' (err m) = Unit
  Post w events w' (ok n) = Delivered lib w w' events n

  abbrev Outcome : World → List Event → World × Result ℕ → Type 0
  Outcome w events r = Post w events r.0 r.1

  abbrev SameIds : List Event → Result (List Event × Bytes) → Type 0
  SameIds events (err m) = Unit
  SameIds events (ok r) = map (λ e. e.audit_id) r.0 ≡ map (λ e. e.audit_id) events

  link-SameIds :
      (previous : Bytes) (events : List Event) → SameIds events (link lib previous events)
  unfolding link linked
  link-SameIds previous [] = refl
  link-SameIds previous (e ∷ es) = elim (Result-cases (canonical lib e)) [
    | inr (m, p) ↦ rw (p, link) tt
    | inl (bytes, p) ↦
        let ih = link-SameIds (digest lib previous bytes) es in
        elim (Result-cases (link lib (digest lib previous bytes) es)) [
          | inr (m, q) ↦ rw (p, link, q) tt
          | inl (r, q) ↦ rw (p, link, q) (ap (λ ids. e.audit_id ∷ ids) (subst (SameIds es) q ih))
        ]
  ]

  pub ids-link :
      (previous : Bytes) (events batch : List Event) (last : Bytes)
      → link lib previous events ≡ ok (batch, last)
      → map (λ e. e.audit_id) batch ≡ map (λ e. e.audit_id) events
  ids-link previous events batch last h = subst (SameIds events) h (link-SameIds previous events)

  length-ids :
      (xs ys : List Event)
      → map (λ e. e.audit_id) xs ≡ map (λ e. e.audit_id) ys
      → length xs ≡ length ys
  length-ids [] [] h = refl
  length-ids [] (y ∷ ys) h = cc
  length-ids (x ∷ xs) [] h = cc
  length-ids (x ∷ xs) (y ∷ ys) h = ap suc (length-ids xs ys (cc))

  store_post :
      (f : Faults) (w ready : World) (previous : Bytes) (events batch : List Event) (last : Bytes)
      → ready.rows ≡ w.rows
      → ready.segments ≡ w.segments
      → ready.has_archive ≡ w.has_archive
      → map (λ e. e.audit_id) batch ≡ map (λ e. e.audit_id) events
      → link lib previous events ≡ ok (batch, last)
      → Outcome w events (store f batch last ready)
  store_post f w ready previous events batch last rows segments archive ids made =
      elim (Option-cases (sink f ready batch).1) [
        | inr (m, p) ↦ subst (Outcome w events) (sym (store_failed f batch last ready p)) tt
        | inl p ↦
            let after = (sink f ready batch).0 in
            let next = record ready { rows = after } in
            let end = finish f batch last next in
            subst (Outcome w events) (sym (store_stored f batch last ready p))
              (elim (Result-cases end.1) [
                | inr (m, q) ↦ subst (Post w events end.0) (sym q) tt
                | inl (n, q) ↦
                    let (n_eq, tip_eq, arch, rows_eq) = finish_ok f batch last next n q in
                    let taken = insert_all_of_append f.at_append f.at_commit ready.rows batch p in
                    let all : end.0.rows ≡ w.rows ++ unknown w.rows batch =
                      rows_eq
                      ∙ subst (λ rs. after ≡ rs ++ unknown rs batch) rows
                          (insert_all-unknown ready.rows after batch taken) in
                    subst (Post w events end.0) (sym q) (record {
                      batch = batch;
                      previous = previous;
                      counted = n_eq ∙ length-ids batch events ids;
                      made = rw tip_eq made;
                      same_ids = ids;
                      stored = all;
                      stored_whole =
                          λ new. all ∙ ap (λ rs. w.rows ++ rs) (unknown-AreNew w.rows batch new);
                      archived = λ h. let a = arch (archive ∙ h) in (cc, cc);
                    })
              ])
      ]

  read_tip_keeps :
      (f : Faults) (w : World)
      → ((read_tip f w).0.rows ≡ w.rows)
        × ((read_tip f w).0.segments ≡ w.segments)
        × ((read_tip f w).0.has_archive ≡ w.has_archive)
  unfolding read_tip
  read_tip_keeps f w = ground arith

  append_after_post :
      (f : Faults) (w ready : World) (events : List Event) (t : Result Bytes)
      → ready.rows ≡ w.rows
      → ready.segments ≡ w.segments
      → ready.has_archive ≡ w.has_archive
      → Outcome w events (append_after lib f events ready t)
  unfolding append_after
  append_after_post f w ready events (err m) rows segments archive = tt
  append_after_post f w ready events (ok previous) rows segments archive =
      elim (Result-cases (link lib previous events)) [
        | inr (m, q) ↦ rw (q, append_after) tt
        | inl (r, q) ↦
            rw (q, append_after)
              (store_post f w ready previous events r.0 r.1 rows segments archive
                (ids-link previous events r.0 r.1 q) q)
      ]

  -- What an acknowledgement of a batch means: the count returned is the batch's length, and the
  -- linked events, under the ids of the batch, were appended to the table in order, but for those
  -- whose id the table had already, which are skipped and counted nevertheless; where every id is
  -- new, the table ends with the whole batch. The linked events stand at the end of the archive where
  -- there is one, whose head is then the new tip, and the tip in memory is the batch's last hash,
  -- also where its event was skipped.
  pub append-Delivered :
      (f : Faults) (w : World) (e : Event) (es : List Event) (n : ℕ)
      → (append lib f w (e ∷ es)).1 ≡ ok n
      → Delivered lib w (append lib f w (e ∷ es)).0 (e ∷ es) n
  unfolding append
  append-Delivered f w e es n h =
      let (rows, segments, archive) = read_tip_keeps f w in
      subst (Post w (e ∷ es) (append lib f w (e ∷ es)).0) h
        (append_after_post f w (read_tip f w).0 (e ∷ es) (read_tip f w).1 rows segments archive)
