-- ===== src/Database/Migrate/Loop.antt =====
-- The loop of a run of the migrations (internal/db/migrate.go).
use marstack_govern.Prelude.{
  String, Bytes, bytes_eq, true, false, List, [], ◌∷◌, Option, none, some, Result, ◌≡◌, ◌≢◌, refl,
  sym, ◌∙◌, All,
}
use marstack_govern.Prelude.Assoc.{lookup}
use marstack_govern.Database.Migrate.{
  Migration, Database, Rows, Run, Failing, sound, Faults, apply_one, visit, apply_all, preceded,
}
use marstack_govern.Database.Migrate.Steps.{lookup-other, none_not}

-- Nothing fails but the migrations themselves.
abbrev pub no_faults : Faults
no_faults = record {
  acquire = none;
  lock = none;
  create = none;
  read = none;
  scan = none;
  rows_error = none;
  during = λ version. sound;
  unlock = none;
}

-- No two migrations have one version.
abbrev pub AreDistinct : List Migration → Type 0
AreDistinct [] = Unit
AreDistinct (m ∷ ms) = All (λ n. m.version ≢ n.version) ms × AreDistinct ms

-- Two tables agree on the migrations.
abbrev pub Agree : Rows → Rows → List Migration → Type 0
Agree xs ys ms = All (λ m. lookup m.version xs ≡ lookup m.version ys) ms

pub Agree-refl : (xs : Rows) (ms : List Migration) → Agree xs xs ms
Agree-refl xs [] = tt
Agree-refl xs (m ∷ ms) = (refl, Agree-refl xs ms)

-- A row of another version is not seen.
pub Agree-cons :
    (v : String) (c : Bytes) (xs ys : Rows) (ms : List Migration)
    → All (λ n. v ≢ n.version) ms
    → Agree xs ys ms
    → Agree ((v, c) ∷ xs) ys ms
Agree-cons v c xs ys [] h a = tt
Agree-cons v c xs ys (m ∷ ms) h a =
    (lookup-other m.version v c xs h.0 ∙ a.0, Agree-cons v c xs ys ms h.1 a.1)

module _ {D : Type 0} (run : Bytes → D → Result D) where
  -- What a run leaves, and its error.
  abbrev pub outcome : Run D → Database D × Option String
  outcome r = (r.database, r.error)

  visit-same :
      (c : Bytes) (m : Migration) (d : Database D) (attempt : Database D × Option String)
      → (go_on : Database D → Run D) → bytes_eq c m.checksum ≡ true
      → visit run (some c) m d attempt go_on ≡ go_on d
  unfolding visit
  visit-same c m d attempt go_on p = rw p refl

  visit-changed :
      (c : Bytes) (m : Migration) (d : Database D) (attempt : Database D × Option String)
      → (go_on : Database D → Run D) → bytes_eq c m.checksum ≡ false
      → (visit run (some c) m d attempt go_on).database ≡ d
  unfolding visit
  visit-changed c m d attempt go_on p = rw p refl

  visit-failed :
      (e : String) (m : Migration) (d : Database D) (attempt : Database D × Option String)
      → (go_on : Database D → Run D) → attempt.1 ≡ some e
      → (visit run none m d attempt go_on).database ≡ attempt.0
  unfolding visit
  visit-failed e m d (after, some x) go_on p = refl
  visit-failed e m d (after, none) go_on p = absurd (none_not p)

  visit-applied :
      (m : Migration) (d : Database D) (attempt : Database D × Option String)
      → (go_on : Database D → Run D) → attempt.1 ≡ none
      → outcome (visit run none m d attempt go_on) ≡ outcome (go_on attempt.0)
  unfolding visit preceded
  visit-applied m d (after, none) go_on p = refl
  visit-applied m d (after, some x) go_on p = absurd (none_not (sym p))

  -- The loop reads of its table only the rows of its migrations.
  pub apply_all-Agree :
      (during : String → Failing) (xs ys : Rows) (ms : List Migration) (d : Database D)
      → Agree xs ys ms
      → apply_all run during xs ms d ≡ apply_all run during ys ms d
  unfolding apply_all
  apply_all-Agree during xs ys [] d a = refl
  apply_all-Agree during xs ys (m ∷ ms) d a = λ i.
      visit run (a.0 i) m d (apply_one run (during m.version) m d)
        (λ after. apply_all-Agree during xs ys ms after a.1 i)

  pub apply_all-seen :
      (during : String → Failing) (known : Rows) (m : Migration) (ms : List Migration)
      → (d : Database D) (c : Bytes) → lookup m.version known ≡ some c
      → bytes_eq c m.checksum ≡ true
      → apply_all run during known (m ∷ ms) d ≡ apply_all run during known ms d
  unfolding apply_all
  apply_all-seen during known m ms d c p q =
      (λ i.
        visit run (p i) m d (apply_one run (during m.version) m d)
          (λ after. apply_all run during known ms after))
      ∙ visit-same c m d (apply_one run (during m.version) m d)
          (λ after. apply_all run during known ms after) q

  pub apply_all-changed :
      (during : String → Failing) (known : Rows) (m : Migration) (ms : List Migration)
      → (d : Database D) (c : Bytes) → lookup m.version known ≡ some c
      → bytes_eq c m.checksum ≡ false
      → (apply_all run during known (m ∷ ms) d).database ≡ d
  unfolding apply_all
  apply_all-changed during known m ms d c p q =
      (λ i.
        (visit run (p i) m d (apply_one run (during m.version) m d)
          (λ after. apply_all run during known ms after)).database)
      ∙ visit-changed c m d (apply_one run (during m.version) m d)
          (λ after. apply_all run during known ms after) q

  pub apply_all-failed :
      (during : String → Failing) (known : Rows) (m : Migration) (ms : List Migration)
      → (d : Database D) (e : String) → lookup m.version known ≡ none
      → (apply_one run (during m.version) m d).1 ≡ some e
      → (apply_all run during known (m ∷ ms) d).database ≡ (apply_one run (during m.version) m d).0
  unfolding apply_all
  apply_all-failed during known m ms d e p q =
      (λ i.
        (visit run (p i) m d (apply_one run (during m.version) m d)
          (λ after. apply_all run during known ms after)).database)
      ∙ visit-failed e m d (apply_one run (during m.version) m d)
          (λ after. apply_all run during known ms after) q

  pub apply_all-applied :
      (during : String → Failing) (known : Rows) (m : Migration) (ms : List Migration)
      → (d : Database D) → lookup m.version known ≡ none
      → (apply_one run (during m.version) m d).1 ≡ none
      → outcome (apply_all run during known (m ∷ ms) d)
        ≡ outcome (apply_all run during known ms (apply_one run (during m.version) m d).0)
  unfolding apply_all
  apply_all-applied during known m ms d p q =
      (λ i. outcome (
        visit run (p i) m d (apply_one run (during m.version) m d)
          (λ after. apply_all run during known ms after)))
      ∙ visit-applied m d (apply_one run (during m.version) m d)
          (λ after. apply_all run during known ms after) q
