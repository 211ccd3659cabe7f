-- ===== src/Database/Migrate/Steps.antt =====
-- What one migration and the loop of a run change (internal/db/migrate.go).
use marstack_govern.Prelude.{
  String, str_eq_iff, Bytes, ◌∷◌, Option, none, some, Result, ok, err, Result-cases, Option-cases,
  ◌≡◌, ◌≢◌, refl, sym, ap, subst, ◌∙◌, ◌⊎◌, inl, inr, arith,
}
use marstack_govern.Prelude.Assoc.{lookup}
use marstack_govern.Database.Migrate.{
  Migration, Database, Rows, Failing, sound, at_begin, at_record, at_commit, commit_lost, describe,
  finish, record_one, execute, apply_one,
}

pub lookup-same : (v : String) (c : Bytes) (rows : Rows) → lookup v ((v, c) ∷ rows) ≡ some c
unfolding lookup
lookup-same v c rows = ground (arith, str_eq_iff v v)

pub lookup-other :
    (v w : String) (c : Bytes) (rows : Rows) → w ≢ v → lookup v ((w, c) ∷ rows) ≡ lookup v rows
unfolding lookup
lookup-other v w c rows h = ground (arith, str_eq_iff w v, h)

pub none_not {ℓ} : {A : Type ℓ} {c : A} → none ≡ some c → ⊥
none_not h = cc

module _ {D : Type 0} (run : Bytes → D → Result D) where
  -- The database once a migration is committed.
  abbrev pub stored : Migration → D → Database D → Database D
  stored m rest d = record { rows = (m.version, m.checksum) ∷ d.rows; rest = rest }

  -- A migration that is committed, or one that leaves the database and answers with an error.
  unfoldable pub IsStep : Migration → Database D → Database D × Option String → Type 0
  IsStep m d out =
      ((out.0 ≡ d) × ((e : String) × (out.1 ≡ some e)))
      ⊎ ((lookup m.version d.rows ≡ none)
          × ((rest : D) × (run m.body d.rest ≡ ok rest) × (out.0 ≡ stored m rest d)))

  refused-IsStep :
      (m : Migration) (d : Database D) (e : String) (out : Database D × Option String)
      → out ≡ (d, some e)
      → IsStep m d out
  unfolding IsStep
  refused-IsStep m d e out p = inl (ap (λ x. x.0) p, (e, ap (λ x. x.1) p))

  finish-IsStep :
      (failing : Failing) (m : Migration) (rest : D) (d : Database D)
      → run m.body d.rest ≡ ok rest
      → lookup m.version d.rows ≡ none
      → IsStep m d (finish run failing m rest d)
  unfolding IsStep finish
  finish-IsStep sound m rest d h p = inr (p, (rest, h, refl))
  finish-IsStep (at_begin e) m rest d h p = inr (p, (rest, h, refl))
  finish-IsStep (at_record e) m rest d h p = inl (refl, (_, refl))
  finish-IsStep (at_commit e) m rest d h p = inl (refl, (_, refl))
  finish-IsStep (commit_lost e) m rest d h p = inr (p, (rest, h, refl))

  record_one-free :
      (failing : Failing) (m : Migration) (rest : D) (d : Database D)
      → lookup m.version d.rows ≡ none
      → record_one run failing m rest d ≡ finish run failing m rest d
  unfolding record_one finish
  record_one-free failing m rest d p = rw (record_one, p) refl

  record_one-taken :
      (failing : Failing) (m : Migration) (rest : D) (d : Database D) (c : Bytes)
      → lookup m.version d.rows ≡ some c
      → record_one run failing m rest d
        ≡ (d, some (describe "record " m.version "duplicate key value"))
  unfolding record_one finish
  record_one-taken failing m rest d c p = rw (record_one, p) refl

  record_one-IsStep :
      (failing : Failing) (m : Migration) (rest : D) (d : Database D)
      → run m.body d.rest ≡ ok rest
      → IsStep m d (record_one run failing m rest d)
  record_one-IsStep failing m rest d h = elim (Option-cases (lookup m.version d.rows)) [
    | inr (c, p) ↦
        refused-IsStep m d (describe "record " m.version "duplicate key value")
          (record_one run failing m rest d) (record_one-taken failing m rest d c p)
    | inl p ↦
        subst (IsStep m d) (sym (record_one-free failing m rest d p))
          (finish-IsStep failing m rest d h p)
  ]

  execute-runs :
      (failing : Failing) (m : Migration) (d : Database D) (rest : D)
      → run m.body d.rest ≡ ok rest
      → execute run failing m d ≡ record_one run failing m rest d
  unfolding execute record_one
  execute-runs failing m d rest p = rw (execute, p) refl

  execute-fails :
      (failing : Failing) (m : Migration) (d : Database D) (e : String)
      → run m.body d.rest ≡ err e
      → execute run failing m d ≡ (d, some (describe "apply " m.version e))
  unfolding execute record_one
  execute-fails failing m d e p = rw (execute, p) refl

  execute-IsStep :
      (failing : Failing) (m : Migration) (d : Database D) → IsStep m d (execute run failing m d)
  execute-IsStep failing m d = elim (Result-cases (run m.body d.rest)) [
    | inr (e, p) ↦
        refused-IsStep m d (describe "apply " m.version e) (execute run failing m d)
          (execute-fails failing m d e p)
    | inl (rest, p) ↦
        subst (IsStep m d) (sym (execute-runs failing m d rest p))
          (record_one-IsStep failing m rest d p)
  ]

  pub apply_one-IsStep :
      (failing : Failing) (m : Migration) (d : Database D) → IsStep m d (apply_one run failing m d)
  unfolding apply_one IsStep
  apply_one-IsStep sound m d = execute-IsStep sound m d
  apply_one-IsStep (at_begin e) m d = inl (refl, (_, refl))
  apply_one-IsStep (at_record e) m d = execute-IsStep (at_record e) m d
  apply_one-IsStep (at_commit e) m d = execute-IsStep (at_commit e) m d
  apply_one-IsStep (commit_lost e) m d = execute-IsStep (commit_lost e) m d

  pub apply_one-sound :
      (m : Migration) (d : Database D) (rest : D)
      → lookup m.version d.rows ≡ none
      → run m.body d.rest ≡ ok rest
      → apply_one run sound m d ≡ (stored m rest d, none)
  unfolding apply_one finish
  apply_one-sound m d rest p q = execute-runs sound m d rest q ∙ record_one-free sound m rest d p

  -- A row that is in the table stays there.
  pub apply_one-keeps :
      (failing : Failing) (m : Migration) (d : Database D) (v : String) (c : Bytes)
      → lookup v d.rows ≡ some c
      → lookup v (apply_one run failing m d).0.rows ≡ some c
  unfolding IsStep
  apply_one-keeps failing m d v c h = elim (apply_one-IsStep failing m d) [
    | inl (p, q) ↦ ap (λ x. lookup v x.rows) p ∙ h
    | inr (free, (rest, q, p)) ↦
        ap (λ x. lookup v x.rows) p
        ∙ lookup-other v m.version m.checksum d.rows
            (λ same. none_not (sym free ∙ ap (λ x. lookup x d.rows) same ∙ h))
        ∙ h
  ]
