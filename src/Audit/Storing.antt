-- ===== src/Audit/Storing.antt =====
-- What a call of the sink leaves in the table (internal/audit/chain.go, internal/audit/store.go).
use marstack_govern.Prelude.{
  false, Bytes, List, ◌≡◌, refl, ap, ◌∙◌, String, Option, none, some, Option-cases, ok, err, inl,
  inr, arith,
}
use marstack_govern.Audit.Event.{Event}
use marstack_govern.Audit.Table
use marstack_govern.Audit.Chain.{World, Faults, finish, store}

-- What the sink of a call does.
abbrev pub sink : Faults → World → List Event → List Event × Option String
sink f w batch = Table.append f.at_append f.at_commit w.rows batch

pub store_failed :
    (f : Faults) (batch : List Event) (last : Bytes) (w : World) {m : String}
    → (sink f w batch).1 ≡ some m
    → store f batch last w ≡ (record w { rows = (sink f w batch).0; read = false }, err m)
unfolding store
store_failed f batch last w p = rw (p, store) refl

pub store_stored :
    (f : Faults) (batch : List Event) (last : Bytes) (w : World)
    → (sink f w batch).1 ≡ none
    → store f batch last w ≡ finish f batch last (record w { rows = (sink f w batch).0 })
unfolding store
store_stored f batch last w p = rw (p, store) refl

pub rows-finish :
    (f : Faults) (events : List Event) (last : Bytes) (w : World)
    → (finish f events last w).0.rows ≡ w.rows
unfolding finish
rows-finish f events last w = ground arith

-- The table after the call is the sink's, whatever the archive does.
pub rows-store :
    (f : Faults) (batch : List Event) (last : Bytes) (w : World)
    → (store f batch last w).0.rows ≡ (sink f w batch).0
rows-store f batch last w = elim (Option-cases (sink f w batch).1) [
  | inr (m, p) ↦ ap (λ r. r.0.rows) (store_failed f batch last w p)
  | inl p ↦
      ap (λ r. r.0.rows) (store_stored f batch last w p)
      ∙ rows-finish f batch last (record w { rows = (sink f w batch).0 })
]

pub insert_all_of_append :
    (fault lost : Option String) (rows batch : List Event)
    → (Table.append fault lost rows batch).1 ≡ none
    → Table.insert_all rows batch ≡ ok (Table.append fault lost rows batch).0
unfolding Table.append
insert_all_of_append fault lost rows batch h = ground arith
