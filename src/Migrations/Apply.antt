-- ===== src/Migrations/Apply.antt =====
-- packages/cli/src/commands/db/migrations/apply.ts, and the part of engine.ts that it writes with.
-- The client of the database and the prompt are parameters.
use bunny_cli_fork.Common.{
  Bool, false, not, ◌&&◌, Option, none, some, List, [], ◌∷◌, ◌++◌, map, any, all, filter,
  if◌then◌else◌, Text, codes, text_eq, is_empty, is_word, is_digit,
}
use bunny_cli_fork.Common.Exec.{Result, ok, thrown, Exec, pure, throw, ◌>>=◌, wrap_result}
use bunny_cli_fork.SqlSplit.Scan.{SyntaxError, split_statements}
use bunny_cli_fork.SqlSplit.Scan
use bunny_cli_fork.Migrations.History.{
  MigrationFile, AppliedMigration, migration_statuses, pending_migrations, history_safe,
}

pub record MigrationStatement : Type 0 where
  pub sql : Text
  pub args : List Text

pub data FileProblem : Type 0 where
  unparsed : Text → SyntaxError → FileProblem
  no_statements : Text → FileProblem

pub data TableProblem (E : Type 0) : Type 0 where
  invalid_table : Text → TableProblem E
  client_error : E → TableProblem E

pub data ApplyProblem (E : Type 0) : Type 0 where
  unprepared : FileProblem → ApplyProblem E
  unwritten : TableProblem E → ApplyProblem E

-- What stops the run.
pub data Problem (E : Type 0) : Type 0 where
  unreadable no_table : TableProblem E → Problem E
  unsafe_history : Problem E
  malformed : FileProblem → Problem E
  -- The file, its error and the names of those applied before it.
  failed : Text → ApplyProblem E → List Text → Problem E

pub data Outcome : Type 0 where
  no_pending dry cancelled : Outcome
  finished : List Text → Outcome

unfoldable pub is_identifier : Text → Bool
is_identifier [] = false
is_identifier (c ∷ s) = is_word c && not (is_digit c) && all is_word s

-- The engine's quoteIdentifier; `none` where it throws.
unfoldable pub quote_table : Text → Option Text
quote_table name = if is_identifier name then some (b'"' ∷ name ++ b'"' ∷ []) else none

abbrev pub migrations_table : Text
migrations_table = codes "__bunny_migrations"

unfoldable pub migration_statements : MigrationFile → Result FileProblem (List Text)
migration_statements file = elim (split_statements file.sql) [
  | Scan.err e ↦ thrown (unparsed file.name e)
  | Scan.ok [] ↦ thrown (no_statements file.name)
  | Scan.ok (s ∷ ss) ↦ ok (s ∷ ss)
]

-- `new Map(pending.map((file) => [file.name, migrationStatements(file)]))`
unfoldable pub prepare : List MigrationFile → Result FileProblem (List (Text × List Text))
prepare [] = ok []
prepare (f ∷ fs) = elim (migration_statements f) [
  | thrown e ↦ thrown e
  | ok ss ↦ elim (prepare fs) [ thrown e ↦ thrown e | ok later ↦ ok ((f.name, ss) ∷ later) ]
]

-- `prepared.get(name)`: of two entries with one name the later one.
unfoldable pub prepared_for : Text → List (Text × List Text) → Option (List Text)
prepared_for name [] = none
prepared_for name ((n, ss) ∷ entries) = elim (prepared_for name entries) [
  | some later ↦ some later
  | none ↦ if text_eq n name then some ss else none
]

unfoldable pub plain_statements : List Text → List MigrationStatement
plain_statements ss = map (λ s. record { sql = s; args = [] }) ss

unfoldable pub tracking_statement : Text → MigrationFile → MigrationStatement
tracking_statement quoted file = record {
  sql = codes "INSERT INTO " ++ quoted ++ codes " (name, checksum) VALUES (?, ?)";
  args = file.name ∷ file.checksum ∷ [];
}

-- MigrationClient; `name_of`, `checksum_of` and `applied_at_of` are `String(row.name)` and so on.
pub record Client (E S : Type 0) : Type 1 where
  pub Row : Type 0
  pub name_of : Row → Text
  pub checksum_of : Row → Text
  pub applied_at_of : Row → Text
  pub query : Text → List Text → Exec E S (List Row)
  pub batch : List MigrationStatement → Exec E S Unit

module _ {E : Type 0} where
  -- Whether the run reached its end, and what it had done by then.
  unfoldable pub done_of : Result (Problem E) Outcome → List Text
  done_of (ok (finished done)) = done
  done_of (ok o) = []
  done_of (thrown (failed name e done)) = done
  done_of (thrown e) = []

-- What the run's report calls `remaining`.
unfoldable pub remaining : List MigrationFile → List Text → List MigrationFile
remaining pending done =
    filter (λ (f : MigrationFile). not (any (λ n. text_eq n f.name) done)) pending

module _ {E S : Type 0} (client : Client E S) where
  unfoldable pub ensure_migrations_table : Text → Exec (TableProblem E) S Unit
  ensure_migrations_table table s = elim (quote_table table) [
    | none ↦ (thrown (invalid_table table), s)
    | some quoted ↦ wrap_result client_error (
        (client.query
              (codes "CREATE TABLE IF NOT EXISTS "
                ++ quoted
                ++ codes
                    " (\n      id         INTEGER PRIMARY KEY AUTOINCREMENT,\n      name       TEXT NOT NULL UNIQUE,\n      checksum   TEXT NOT NULL,\n      applied_at TEXT NOT NULL DEFAULT CURRENT_TIMESTAMP\n    )")
              []
            >>= λ _. pure tt)
          s)
  ]

  unfoldable pub migrations_table_exists : Text → Exec E S Bool
  migrations_table_exists table =
      client.query (codes "SELECT name FROM sqlite_master WHERE type = 'table' AND name = ?")
        (table ∷ [])
      >>= λ rows. pure (not (is_empty rows))

  unfoldable pub applied_of : client.Row → AppliedMigration
  applied_of row = record {
    name = client.name_of row;
    checksum = client.checksum_of row;
    applied_at = client.applied_at_of row;
  }

  -- fetchApplied, its table already quoted.
  unfoldable pub fetch_applied : Text → Exec E S (List AppliedMigration)
  fetch_applied quoted =
      client.query
        (codes "SELECT name, checksum, applied_at FROM " ++ quoted ++ codes " ORDER BY id") []
      >>= λ rows. pure (map applied_of rows)

  unfoldable pub read_applied : Text → Exec (TableProblem E) S (List AppliedMigration)
  read_applied table s = elim (quote_table table) [
    | none ↦ (thrown (invalid_table table), s)
    | some quoted ↦ wrap_result client_error (
        (migrations_table_exists table >>= λ found. if found then fetch_applied quoted else pure [])
          s)
  ]

  unfoldable pub statements_for :
      List (Text × List Text) → MigrationFile → Result FileProblem (List Text)
  statements_for prepared file = elim (prepared_for file.name prepared) [
    | none ↦ migration_statements file
    | some ss ↦ ok ss
  ]

  unfoldable pub apply_migration :
      Text → List (Text × List Text) → MigrationFile → Exec (ApplyProblem E) S Unit
  apply_migration table prepared file s = elim (statements_for prepared file) [
    | thrown e ↦ (thrown (unprepared e), s)
    | ok statements ↦ elim (quote_table table) [
      | none ↦ (thrown (unwritten (invalid_table table)), s)
      | some quoted ↦
          wrap_result (λ e. unwritten (client_error e))
            (client.batch (plain_statements statements ++ tracking_statement quoted file ∷ []) s)
    ]
  ]

  -- The loop over the pending files, behind those that are done.
  unfoldable pub apply_pending :
      Text → List (Text × List Text) → List MigrationFile → List Text → Exec (Problem E) S Outcome
  apply_pending table prepared [] done s = (ok (finished done), s)
  apply_pending table prepared (f ∷ fs) done s =
      let (r, s') = apply_migration table prepared f s in
      elim r [
        | ok _ ↦ apply_pending table prepared fs (done ++ f.name ∷ []) s'
        | thrown e ↦ (thrown (failed f.name e done), s')
      ]

  -- Behind a confirmed prompt.
  unfoldable pub write_confirmed :
      List MigrationFile → List (Text × List Text) → Exec (Problem E) S Outcome
  write_confirmed pending prepared =
      (λ t. wrap_result no_table (ensure_migrations_table migrations_table t)) >>= λ _.
      apply_pending migrations_table prepared pending []

  unfoldable pub write_prepared :
      List MigrationFile → Bool → Bool → List (Text × List Text) → Exec (Problem E) S Outcome
  write_prepared pending dry_run confirmed prepared =
      if dry_run
      then pure dry
      else if not confirmed
      then pure cancelled
      else write_confirmed pending prepared

  unfoldable pub write_pending : List MigrationFile → Bool → Bool → Exec (Problem E) S Outcome
  write_pending pending dry_run confirmed s = elim (prepare pending) [
    | thrown e ↦ (thrown (malformed e), s)
    | ok prepared ↦ write_prepared pending dry_run confirmed prepared s
  ]

  -- Behind the first read of the rows.
  unfoldable pub apply_read :
      List MigrationFile → Bool → Bool → Bool → List AppliedMigration → Exec (Problem E) S Outcome
  apply_read files allow_drift dry_run confirmed rows =
      let pending = pending_migrations files rows in
      if is_empty pending
      then pure no_pending
      else if not (history_safe (migration_statuses files rows) allow_drift)
      then throw unsafe_history
      else write_pending pending dry_run confirmed

  -- The handler from its first read on.
  unfoldable pub apply_migrations :
      List MigrationFile → Bool → Bool → Bool → Exec (Problem E) S Outcome
  apply_migrations files allow_drift dry_run confirmed =
      (λ t. wrap_result unreadable (read_applied migrations_table t)) >>= λ rows.
      apply_read files allow_drift dry_run confirmed rows
