-- ===== src/Database/Migrate.antt =====
-- internal/db/migrate.go: the migrations that are embedded in the program and how they are applied.
-- A database is its rows of schema_migrations beside the rest, `D`, on which `run` executes the text
-- of a migration. A transaction that is not committed leaves nothing. The advisory lock keeps two
-- runs apart, so that a run is one step; cancelling the context is a failure like any other.
pub mod Steps
pub mod Loop
pub mod Retry
use Prim.Native.String.{slice, len}
use marstack_govern.Prelude.{
  ◌-◌, String, concat, str_eq, str_less, Bytes, bytes_eq, Bool, true, false, leb, ◌&&◌, ◌||◌, not,
  List, [], ◌∷◌, ◌++◌, Option, none, some, Result, ok, err, stable_sort, if◌then◌else◌,
}
use marstack_govern.Prelude.Assoc.{lookup}

pub record Migration : Type 0 where
  pub version : String
  pub checksum : Bytes
  pub body : Bytes

-- An entry of the embedded directory, with what reading it answers.
pub record Entry : Type 0 where
  pub name : String
  pub is_dir : Bool
  pub content : Result Bytes

-- `strings.HasSuffix`
unfoldable pub has_suffix : String → String → Bool
has_suffix s suffix =
    leb (len suffix) (len s) && str_eq (slice s (len s - len suffix) (len s)) suffix

-- `strings.TrimSuffix`
unfoldable pub trim_suffix : String → String → String
unfolding has_suffix
trim_suffix s suffix = if has_suffix s suffix then slice s 0 (len s - len suffix) else s

module _ (sum256 : Bytes → Bytes) where
  -- The loop of `Migrations` over the entries.
  unfoldable pub load : List Entry → Result (List Migration)
  unfolding has_suffix trim_suffix
  load [] = ok []
  load (e ∷ es) =
      let rest = load es in
      if e.is_dir || not (has_suffix e.name ".sql") then rest else elim e.content [
        | err m ↦ err (concat "read migration " (concat e.name (concat ": " m)))
        | ok body ↦ elim rest [
          | err m ↦ err m
          | ok ms ↦ ok (
              record { version = trim_suffix e.name ".sql"; checksum = sum256 body; body = body }
              ∷ ms)
        ]
      ]

  -- `Migrations`. No two files of a directory have one name, so that the order is determined.
  unfoldable pub migrations : Result (List Entry) → Result (List Migration)
  unfolding load
  migrations (err m) = err (concat "read embedded migrations: " m)
  migrations (ok es) = elim (load es) [
    | err m ↦ err m
    | ok ms ↦ ok (stable_sort (λ a b. str_less a.version b.version) ms)
  ]

abbrev pub Rows : Type 0
Rows = List (String × Bytes)

pub record Database (D : Type 0) : Type 0 where
  pub rows : Rows
  pub rest : D

-- What fails in the transaction of one migration, other than the migration itself. A commit whose
-- answer is lost has been carried out.
pub data Failing : Type 0 where
  sound : Failing
  at_begin : String → Failing
  at_record : String → Failing
  at_commit : String → Failing
  commit_lost : String → Failing

pub record Faults : Type 0 where
  pub acquire : Option String
  pub lock : Option String
  pub create : Option String
  pub read : Option String
  pub scan : Option String
  pub rows_error : Option String  -- `rows.Err()`
  pub during : String → Failing
  pub unlock : Option String

-- What a run leaves and answers.
pub record Run (D : Type 0) : Type 0 where
  pub database : Database D
  pub applied : List String
  pub error : Option String

abbrev pub describe : String → String → String → String
describe what version m = concat what (concat version (concat ": " m))

module _ {D : Type 0} (run : Bytes → D → Result D) where
  -- The end of the transaction in `applyOne`: the row of the migration, and the commit.
  unfoldable pub finish : Failing → Migration → D → Database D → Database D × Option String
  finish (at_record e) m rest d = (d, some (describe "record " m.version e))
  finish (at_commit e) m rest d = (d, some (describe "commit " m.version e))
  finish (commit_lost e) m rest d = (
    record { rows = (m.version, m.checksum) ∷ d.rows; rest = rest },
    some (describe "commit " m.version e),
  )
  finish failing m rest d = (record { rows = (m.version, m.checksum) ∷ d.rows; rest = rest }, none)

  -- `applyOne`, after the body has been executed. The version is the table's primary key.
  unfoldable pub record_one : Failing → Migration → D → Database D → Database D × Option String
  unfolding lookup finish
  record_one failing m rest d = elim (lookup m.version d.rows) [
    | some c ↦ (d, some (describe "record " m.version "duplicate key value"))
    | none ↦ finish failing m rest d
  ]

  unfoldable pub execute : Failing → Migration → Database D → Database D × Option String
  unfolding record_one
  execute failing m d = elim (run m.body d.rest) [
    | err e ↦ (d, some (describe "apply " m.version e))
    | ok rest ↦ record_one failing m rest d
  ]

  -- `applyOne`
  unfoldable pub apply_one : Failing → Migration → Database D → Database D × Option String
  unfolding execute
  apply_one (at_begin e) m d = (d, some (describe "begin " m.version e))
  apply_one failing m d = execute failing m d

  unfoldable pub preceded : String → Run D → Run D
  preceded version r = record r { applied = version ∷ r.applied }

  -- What the loop of `Migrate` does with one migration, whose row, if any, was read before the loop
  -- and whose `attempt` is made where there is none; `go_on` are the migrations that follow.
  unfoldable pub visit :
      Option Bytes
      → Migration
      → Database D
      → Database D × Option String
      → (Database D → Run D)
      → Run D
  unfolding preceded
  visit (some c) m d attempt go_on =
      if not (bytes_eq c m.checksum)
      then record {
        database = d;
        applied = [];
        error = some (concat "an applied migration has changed on disk: " m.version);
      }
      else go_on d
  visit none m d (after, some e) go_on = record { database = after; applied = []; error = some e }
  visit none m d (after, none) go_on = preceded m.version (go_on after)

  -- The loop of `Migrate`; `known` are the rows that were read before it.
  unfoldable pub apply_all : (String → Failing) → Rows → List Migration → Database D → Run D
  unfolding lookup apply_one visit
  apply_all during known [] d = record { database = d; applied = []; error = none }
  apply_all during known (m ∷ ms) d =
      visit (lookup m.version known) m d (apply_one (during m.version) m d)
        (λ after. apply_all during known ms after)

  -- A step that fails ends the run: `if err != nil { return nil, fmt.Errorf(...) }`.
  unfoldable pub unless : Option String → String → Database D → Run D → Run D
  unless none what d r = r
  unless (some e) what d r = record { database = d; applied = []; error = some (concat what e) }

  -- The deferred release of the lock, whose error is given where there is no other.
  unfoldable pub unlocked : Option String → Run D → Run D
  unlocked none r = r
  unlocked (some e) r = record {
    database = r.database;
    applied = r.applied;
    error = elim r.error [ some m ↦ some m | none ↦ some (concat "release migration lock: " e) ];
  }

  -- What is done while the lock is held.
  unfoldable pub while_locked : Faults → List Migration → Database D → Run D
  unfolding apply_all unless
  while_locked f ms d = unless f.create "create schema_migrations: " d (
      unless f.read "read schema_migrations: " d (
        unless f.scan "scan schema_migrations: " d
          (unless f.rows_error "" d (apply_all f.during d.rows ms d))))

  -- `Migrate`
  unfoldable pub migrate : Faults → Result (List Migration) → Database D → Run D
  unfolding while_locked unlocked unless
  migrate f (err e) d = record { database = d; applied = []; error = some e }
  migrate f (ok ms) d =
      unless f.acquire "acquire migration connection: " d
        (unless f.lock "take migration lock: " d (unlocked f.unlock (while_locked f ms d)))
