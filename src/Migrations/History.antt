-- ===== src/Migrations/History.antt =====
-- packages/cli/src/commands/db/migrations/engine.ts and drift.ts: the state of each migration. The
-- hash of `node:crypto` is a parameter.
use bunny_cli_fork.Common.{
  Bool, true, false, not, ◌&&◌, ◌||◌, Option, none, some, List, [], ◌∷◌, ◌++◌, map, any, filter,
  ◌==◌, if◌then◌else◌, Text, text_eq, text_lt, trim, is_empty,
}

pub record MigrationFile : Type 0 where
  pub name : Text
  pub path : Text
  pub sql : Text
  pub checksum : Text

pub record AppliedMigration : Type 0 where
  pub name : Text
  pub checksum : Text
  pub applied_at : Text

pub data MigrationState : Type 0 where
  applied pending modified missing out_of_order : MigrationState

pub record MigrationStatus : Type 0 where
  pub name : Text
  pub state : MigrationState
  pub applied_at : Option Text

-- sql.replace(/\r\n/g, "\n")
unfoldable pub unix_lines : Text → Text
unix_lines [] = []
unix_lines (c ∷ []) = c ∷ []
unix_lines (c ∷ d ∷ s) =
    let joined = d ∷ unix_lines s in
    let kept = c ∷ unix_lines (d ∷ s) in if c == 13 && d == 10 then joined else kept

unfoldable pub checksum : (Text → Text) → Text → Text
checksum sha256 sql = sha256 (trim (unix_lines sql))

-- `new Map(applied.map((row) => [row.name, row])).get(name)`: of two rows with one name the later one.
unfoldable pub record_of : Text → List AppliedMigration → Option AppliedMigration
record_of name [] = none
record_of name (r ∷ rs) = elim (record_of name rs) [
  | some later ↦ some later
  | none ↦ if text_eq r.name name then some r else none
]

-- The reduction to `newestApplied`.
unfoldable pub newest_from : Text → List AppliedMigration → Text
newest_from newest [] = newest
newest_from newest (r ∷ rs) = newest_from (if text_lt newest r.name then r.name else newest) rs

unfoldable pub newest_applied : List AppliedMigration → Text
newest_applied rows = newest_from [] rows

unfoldable pub unapplied_state : Text → Text → MigrationState
unapplied_state newest name =
    if not (is_empty newest) && text_lt name newest then out_of_order else pending

unfoldable pub applied_state : MigrationFile → AppliedMigration → MigrationState
applied_state file row = if text_eq row.checksum file.checksum then applied else modified

-- The status of one file.
unfoldable pub file_status : List AppliedMigration → MigrationFile → MigrationStatus
file_status rows file = elim (record_of file.name rows) [
  | none ↦ record {
    name = file.name;
    state = unapplied_state (newest_applied rows) file.name;
    applied_at = none;
  }
  | some row ↦ record {
    name = file.name;
    state = applied_state file row;
    applied_at = some row.applied_at;
  }
]

unfoldable pub on_disk : List MigrationFile → Text → Bool
on_disk files name = any (λ (f : MigrationFile). text_eq f.name name) files

-- The loop over the recorded migrations without a file.
unfoldable pub missing_statuses : List MigrationFile → List AppliedMigration → List MigrationStatus
missing_statuses files [] = []
missing_statuses files (r ∷ rs) =
    let later = missing_statuses files rs in
    if on_disk files r.name
    then later
    else record { name = r.name; state = missing; applied_at = some r.applied_at } ∷ later

unfoldable pub migration_statuses :
    List MigrationFile → List AppliedMigration → List MigrationStatus
migration_statuses files rows = map (file_status rows) files ++ missing_statuses files rows

unfoldable pub recorded : List AppliedMigration → Text → Bool
recorded rows name = any (λ (r : AppliedMigration). text_eq r.name name) rows

unfoldable pub pending_migrations : List MigrationFile → List AppliedMigration → List MigrationFile
pending_migrations files rows = filter (λ (f : MigrationFile). not (recorded rows f.name)) files

-- UNSAFE_STATES
unfoldable pub is_unsafe : MigrationState → Bool
is_unsafe modified = true
is_unsafe missing = true
is_unsafe out_of_order = true
is_unsafe s = false

unfoldable pub migration_history_issues : List MigrationStatus → List MigrationStatus
migration_history_issues statuses = filter (λ (s : MigrationStatus). is_unsafe s.state) statuses

-- Whether `assertMigrationHistorySafe` returns; it throws where this is false.
unfoldable pub history_safe : List MigrationStatus → Bool → Bool
history_safe statuses allow_drift = allow_drift || is_empty (migration_history_issues statuses)
