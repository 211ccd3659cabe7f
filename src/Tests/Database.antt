-- ===== src/Tests/Database.antt =====
-- The theorems on the migrations of the database at a concrete input (internal/db).
use marstack_govern.Prelude.{
  str_eq, Bytes, List, [], ◌∷◌, none, some, Result, ok, ◌≡◌, refl, if◌then◌else◌,
}
use marstack_govern.Database.Migrate.{Migration, Database, Faults, sound, commit_lost, migrate}
use marstack_govern.Database.Migrate.Loop.{no_faults, AreDistinct, outcome}
use marstack_govern.Database.Migrate.Retry.{migrate-retry}

-- A database that keeps the texts it executed, the last first.
abbrev executed : Bytes → List Bytes → Result (List Bytes)
executed body log = ok (body ∷ log)

abbrev two_migrations : List Migration
two_migrations =
    record { version = "0001_catalog"; checksum = 7 ∷ []; body = 1 ∷ [] }
    ∷ record { version = "0005_audit"; checksum = 8 ∷ []; body = 2 ∷ [] }
    ∷ []

-- The answer to the commit of the first migration is lost.
abbrev one_lost : Faults
one_lost = record {
  acquire = none;
  lock = none;
  create = none;
  read = none;
  scan = none;
  rows_error = none;
  during = λ version. if str_eq version "0001_catalog" then commit_lost "EOF" else sound;
  unlock = none;
}

abbrev empty_database : Database (List Bytes)
empty_database = record { rows = []; rest = [] }

two_migrations-AreDistinct : AreDistinct two_migrations
two_migrations-AreDistinct = (((λ h. cc), tt), (tt, tt))

migrate-retry_example :
    outcome executed (
      migrate executed no_faults
        (ok two_migrations)
        (migrate executed one_lost (ok two_migrations) empty_database).database)
    ≡ outcome executed (migrate executed no_faults (ok two_migrations) empty_database)
migrate-retry_example =
    migrate-retry executed one_lost two_migrations empty_database two_migrations-AreDistinct

lost_commit-error :
    (migrate executed one_lost (ok two_migrations) empty_database).error
    ≡ some "commit 0001_catalog: EOF"
unfolding migrate
lost_commit-error = refl
