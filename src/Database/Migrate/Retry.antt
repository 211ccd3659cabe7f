-- ===== src/Database/Migrate/Retry.antt =====
-- A run of the migrations after one that failed (internal/db/migrate.go).
use marstack_govern.Prelude.{
  String, Bytes, bytes_eq, bytes_eq_refl, true, Bool-cases, List, [], ◌∷◌, Option, none, some,
  Result, ok, Option-cases, ◌≡◌, refl, sym, ap, subst, ◌∙◌, ◌⊎◌, inl, inr,
}
use marstack_govern.Prelude.Assoc.{lookup}
use marstack_govern.Database.Migrate.{
  Migration, Database, Rows, Run, Failing, sound, Faults, apply_one, apply_all, unless, unlocked,
  while_locked, migrate,
}
use marstack_govern.Database.Migrate.Steps.{
  lookup-same, stored, IsStep, apply_one-IsStep, apply_one-sound, apply_one-keeps,
}
use marstack_govern.Database.Migrate.Loop.{
  no_faults, AreDistinct, Agree, Agree-refl, Agree-cons, outcome, apply_all-Agree, apply_all-seen,
  apply_all-changed, apply_all-failed, apply_all-applied,
}

module _ {D : Type 0} (run : Bytes → D → Result D) where
  -- A row that is in the table stays there.
  apply_all-keeps :
      (during : String → Failing) (known : Rows) (ms : List Migration) (d : Database D)
      → (v : String) (c : Bytes) → lookup v d.rows ≡ some c
      → lookup v (apply_all run during known ms d).database.rows ≡ some c
  unfolding apply_all
  apply_all-keeps during known [] d v c h = h
  apply_all-keeps during known (m ∷ ms) d v c h = elim (Option-cases (lookup m.version known)) [
    | inr (b, p) ↦ elim (Bool-cases (bytes_eq b m.checksum)) [
      | inl q ↦
          ap (λ r. lookup v r.database.rows) (apply_all-seen run during known m ms d b p q)
          ∙ apply_all-keeps during known ms d v c h
      | inr q ↦ ap (λ x. lookup v x.rows) (apply_all-changed run during known m ms d b p q) ∙ h
    ]
    | inl p ↦ elim (Option-cases (apply_one run (during m.version) m d).1) [
      | inr (e, q) ↦
          ap (λ x. lookup v x.rows) (apply_all-failed run during known m ms d e p q)
          ∙ apply_one-keeps run (during m.version) m d v c h
      | inl q ↦
          ap (λ x. lookup v x.0.rows) (apply_all-applied run during known m ms d p q)
          ∙ apply_all-keeps during known ms (apply_one run (during m.version) m d).0 v c
              (apply_one-keeps run (during m.version) m d v c h)
    ]
  ]

  -- What a run without faults does after one with the faults `during` that leaves `d'`.
  abbrev again : List Migration → Database D → Database D × Option String
  again ms d = outcome run (apply_all run (λ v. sound) d.rows ms d)

  abbrev Retries : (String → Failing) → Rows → List Migration → Database D → Type 0
  Retries during known ms d =
      again ms (apply_all run during known ms d).database
      ≡ outcome run (apply_all run (λ v. sound) known ms d)

  -- Where the first run leaves the database as it was, only the tables are to agree.
  retry-unchanged :
      (during : String → Failing) (known : Rows) (ms : List Migration) (d : Database D)
      → Agree d.rows known ms
      → (apply_all run during known ms d).database ≡ d
      → Retries during known ms d
  retry-unchanged during known ms d a p =
      ap (again ms) p ∙ ap (outcome run) (apply_all-Agree run (λ v. sound) d.rows known ms d a)

  -- A migration with its row is passed over.
  again-seen :
      (m : Migration) (ms : List Migration) (d : Database D) (c : Bytes)
      → lookup m.version d.rows ≡ some c
      → bytes_eq c m.checksum ≡ true
      → again (m ∷ ms) d ≡ again ms d
  again-seen m ms d c p q = ap (outcome run) (apply_all-seen run (λ v. sound) d.rows m ms d c p q)

  -- What the run without faults answers where a migration is applied.
  sound-applied :
      (known : Rows) (m : Migration) (ms : List Migration) (d : Database D) (rest : D)
      → lookup m.version known ≡ none
      → lookup m.version d.rows ≡ none
      → run m.body d.rest ≡ ok rest
      → outcome run (apply_all run (λ v. sound) known (m ∷ ms) d)
        ≡ outcome run (apply_all run (λ v. sound) known ms (stored run m rest d))
  sound-applied known m ms d rest p q h =
      apply_all-applied run (λ v. sound) known m ms d p
        (ap (λ x. x.1) (apply_one-sound run m d rest q h))
      ∙ ap (λ x. outcome run (apply_all run (λ v. sound) known ms x.0))
          (apply_one-sound run m d rest q h)

  -- Where a migration was committed, whatever the first run did after it.
  retry-stored :
      (known : Rows) (m : Migration) (ms : List Migration) (d d' : Database D) (rest : D)
      → lookup m.version known ≡ none
      → lookup m.version d.rows ≡ none
      → run m.body d.rest ≡ ok rest
      → lookup m.version d'.rows ≡ some m.checksum
      → again ms d' ≡ outcome run (apply_all run (λ v. sound) known ms (stored run m rest d))
      → again (m ∷ ms) d' ≡ outcome run (apply_all run (λ v. sound) known (m ∷ ms) d)
  retry-stored known m ms d d' rest p q h row later =
      again-seen m ms d' m.checksum row (bytes_eq_refl m.checksum)
      ∙ later
      ∙ sym (sound-applied known m ms d rest p q h)

  apply_all-retry :
      (during : String → Failing) (known : Rows) (ms : List Migration) (d : Database D)
      → AreDistinct ms
      → Agree d.rows known ms
      → Retries during known ms d
  unfolding apply_all IsStep
  apply_all-retry during known [] d u a = refl
  apply_all-retry during known (m ∷ ms) d u a = elim (Option-cases (lookup m.version known)) [
    | inr (b, p) ↦ elim (Bool-cases (bytes_eq b m.checksum)) [
      | inr q ↦
          retry-unchanged during known (m ∷ ms) d a
            (apply_all-changed run during known m ms d b p q)
      | inl q ↦
          ap (λ r. again (m ∷ ms) r.database) (apply_all-seen run during known m ms d b p q)
          ∙ again-seen m ms (apply_all run during known ms d).database b
              (apply_all-keeps during known ms d m.version b (a.0 ∙ p)) q
          ∙ apply_all-retry during known ms d u.1 a.1
          ∙ ap (outcome run) (sym (apply_all-seen run (λ v. sound) known m ms d b p q))
    ]
    | inl p ↦ elim (apply_one-IsStep run (during m.version) m d) [
      | inl (same, (e, q)) ↦
          retry-unchanged during known (m ∷ ms) d a
            (apply_all-failed run during known m ms d e p q ∙ same)
      | inr (free, (rest, h, after)) ↦
          let s : Database D = stored run m rest d in
          let a' : Agree s.rows known ms =
            Agree-cons m.version m.checksum d.rows known ms u.0 a.1 in
          let row = lookup-same m.version m.checksum d.rows in
          elim (Option-cases (apply_one run (during m.version) m d).1) [
            | inr (e, q) ↦
                ap (again (m ∷ ms)) (apply_all-failed run during known m ms d e p q ∙ after)
                ∙ retry-stored known m ms d s rest p free h row
                    (ap (outcome run) (apply_all-Agree run (λ v. sound) s.rows known ms s a'))
            | inl q ↦
                ap (again (m ∷ ms)) (
                  ap (λ x. x.0) (apply_all-applied run during known m ms d p q)
                  ∙ ap (λ x. (apply_all run during known ms x).database) after)
                ∙ retry-stored known m ms d (apply_all run during known ms s).database rest p free h
                    (apply_all-keeps during known ms s m.version m.checksum row)
                    (apply_all-retry during known ms s u.1 a')
          ]
    ]
  ]

  unless-database :
      (o : Option String) (what : String) (d : Database D) (r : Run D)
      → ((unless run o what d r).database ≡ d) ⊎ ((unless run o what d r).database ≡ r.database)
  unfolding unless
  unless-database none what d r = inr refl
  unless-database (some e) what d r = inl refl

  unlocked-database : (o : Option String) (r : Run D) → (unlocked run o r).database ≡ r.database
  unfolding unlocked
  unlocked-database none r = refl
  unlocked-database (some e) r = refl

  -- A run leaves the database as it was, or as the loop leaves it.
  IsLeft : Faults → List Migration → Database D → Database D → Type 0
  IsLeft f ms d x = (x ≡ d) ⊎ (x ≡ (apply_all run f.during d.rows ms d).database)

  unless-IsLeft :
      (f : Faults) (ms : List Migration) (o : Option String) (what : String) (d : Database D)
      → (r : Run D) → IsLeft f ms d r.database
      → IsLeft f ms d (unless run o what d r).database
  unfolding IsLeft
  unless-IsLeft f ms o what d r h = elim (unless-database o what d r) [
    | inl p ↦ inl p
    | inr p ↦ elim h [ inl q ↦ inl (p ∙ q) | inr q ↦ inr (p ∙ q) ]
  ]

  migrate-IsLeft :
      (f : Faults) (ms : List Migration) (d : Database D)
      → IsLeft f ms d (migrate run f (ok ms) d).database
  unfolding migrate while_locked IsLeft
  migrate-IsLeft f ms d =
      let loop = apply_all run f.during d.rows ms d in
      let ended = unless run f.rows_error "" d loop in
      let scanned = unless run f.scan "scan schema_migrations: " d ended in
      let reading = unless run f.read "read schema_migrations: " d scanned in
      let locked = unless run f.create "create schema_migrations: " d reading in
      unless-IsLeft f ms f.acquire "acquire migration connection: " d
        (unless run f.lock "take migration lock: " d (unlocked run f.unlock locked))
        (unless-IsLeft f ms f.lock "take migration lock: " d (unlocked run f.unlock locked) (
          subst (IsLeft f ms d) (sym (unlocked-database f.unlock locked)) (
            unless-IsLeft f ms f.create "create schema_migrations: " d reading (
              unless-IsLeft f ms f.read "read schema_migrations: " d scanned (
                unless-IsLeft f ms f.scan "scan schema_migrations: " d ended
                  (unless-IsLeft f ms f.rows_error "" d loop (inr refl)))))))

  -- Of migrations whose versions are distinct: after a run in which anything may have failed, also
  -- a commit that was carried out and whose answer was lost, a run in which only the migrations
  -- themselves can fail leaves the database, and answers with the error, that it would have had
  -- without the first one. So no migration is applied twice and none is left out.
  pub migrate-retry :
      (f : Faults) (ms : List Migration) (d : Database D)
      → AreDistinct ms
      → outcome run (migrate run no_faults (ok ms) (migrate run f (ok ms) d).database)
        ≡ outcome run (migrate run no_faults (ok ms) d)
  unfolding migrate while_locked unlocked unless IsLeft
  migrate-retry f ms d u = elim (migrate-IsLeft f ms d) [
    | inl p ↦ ap (again ms) p
    | inr p ↦ ap (again ms) p ∙ apply_all-retry f.during d.rows ms d u (Agree-refl d.rows ms)
  ]
