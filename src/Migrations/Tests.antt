-- ===== src/Migrations/Tests.antt =====
-- The theorems on migrations at a concrete database.
use bunny_cli_fork.Common.{
  Bool, true, false, ◌||◌, List, [], ◌∷◌, ◌++◌, map, if◌then◌else◌, Text, codes, text_eq, text_lt,
  starts_with, is_empty, is_word, is_digit, is_lower, is_upper, is_space, trim, trim_start, lower,
  to_lower, All, Bool-cases, ◌≡◌, inl, inr, ◌↔◌, refl, sym, ap, ◌∙◌,
}
use bunny_cli_fork.Common.Exec.{ok, thrown}
use bunny_cli_fork.SqlSplit.Scan.{split_statements}
use bunny_cli_fork.SqlSplit.Trigger.{in_block_body, eat_word}
use bunny_cli_fork.Migrations.History.{
  MigrationFile, AppliedMigration, on_disk, migration_statuses, history_safe, pending_migrations,
  recorded, migration_history_issues, is_unsafe, file_status, record_of, newest_applied,
  newest_from, unapplied_state, applied_state, missing_statuses,
}
use bunny_cli_fork.Migrations.Gate.{InStep, history_safe_iff}
use bunny_cli_fork.Migrations.Apply.{
  MigrationStatement, Client, finished, quote_table, is_identifier, migrations_table,
  migration_statements, prepare, plain_statements, tracking_statement, ensure_migrations_table,
  read_applied, migrations_table_exists, fetch_applied, applied_of, apply_migrations, done_of,
  remaining,
}
use bunny_cli_fork.Migrations.Resume.{IsTracked, apply_migrations-remaining}
use bunny_cli_fork.Migrations.Finish.{IsWilling, apply_migrations-finishes}
use bunny_cli_fork.Migrations.History.{checksum}
use bunny_cli_fork.Migrations.Checksum.{dos_lines, checksum-dos_lines}

abbrev row : Text → Text → AppliedMigration
row name sum = record { name = name; checksum = sum; applied_at = codes "now" }

-- A database that keeps the rows recorded and refuses the batches with some statement.
module _ (refuses : Text → Bool) where
  abbrev record_row : List Text → List AppliedMigration → List AppliedMigration
  record_row (name ∷ sum ∷ []) rows = rows ++ row name sum ∷ []
  record_row args rows = rows

  abbrev land : List MigrationStatement → List AppliedMigration → List AppliedMigration
  land [] rows = rows
  land (st ∷ sts) rows = land sts (record_row st.args rows)

  abbrev refused : List MigrationStatement → Bool
  refused [] = false
  refused (st ∷ sts) = refuses st.sql || refused sts

  abbrev answer : Text → List AppliedMigration → List AppliedMigration
  answer sql rows = if starts_with sql (codes "SELECT name, checksum") then rows else row [] [] ∷ []

  abbrev db : Client Text (List AppliedMigration)
  db = record {
    Row = AppliedMigration;
    name_of = λ r. r.name;
    checksum_of = λ r. r.checksum;
    applied_at_of = λ r. r.applied_at;
    query = λ sql args rows. (ok (answer sql rows), rows);
    batch = λ sts rows.
        if refused sts then (thrown (codes "refused"), rows) else (ok tt, land sts rows);
  }

  applied_same : (rows : List AppliedMigration) → map (applied_of db) rows ≡ rows
  unfolding applied_of
  applied_same [] = refl
  applied_same (r ∷ rs) = ap (λ l. r ∷ l) (applied_same rs)

  reads_db :
      (rows : List AppliedMigration) → read_applied db migrations_table rows ≡ (ok rows, rows)
  unfolding read_applied quote_table is_identifier is_word is_digit is_lower is_upper
      migrations_table_exists fetch_applied starts_with
  reads_db rows = ap (λ l. (ok l, rows)) (applied_same rows)

  creates_db :
      (rows : List AppliedMigration)
      → ensure_migrations_table db migrations_table rows ≡ (ok tt, rows)
  unfolding ensure_migrations_table quote_table is_identifier is_word is_digit is_lower is_upper
  creates_db rows = refl

  land-tracking :
      (ss : List Text) (quoted : Text) (f : MigrationFile) (rows : List AppliedMigration)
      → land (plain_statements ss ++ tracking_statement quoted f ∷ []) rows
        ≡ rows ++ row f.name f.checksum ∷ []
  unfolding plain_statements tracking_statement
  land-tracking [] quoted f rows = refl
  land-tracking (s ∷ ss) quoted f rows = land-tracking ss quoted f rows

  second : {A : Type 0} {x y : A × List AppliedMigration} → x ≡ y → x.1 ≡ y.1
  second e = ap (λ p. p.1) e

  db-IsTracked : IsTracked db (λ rows. rows)
  db-IsTracked = record {
    reads = λ s s' r h. second (sym h ∙ reads_db s);
    creates = λ s s' r h. second (sym h ∙ creates_db s);
    lands = λ ss quoted f s s' h. landed ss quoted f s s' h;
    rolls_back = λ sts e s s' h. back sts e s s' h;
  }
    where
      landed :
          (ss : List Text) (quoted : Text) (f : MigrationFile) (s s' : List AppliedMigration)
          → db.batch (plain_statements ss ++ tracking_statement quoted f ∷ []) s ≡ (ok tt, s')
          → (r : AppliedMigration) × (r.name ≡ f.name)
            × (r.checksum ≡ f.checksum)
            × (s' ≡ s ++ r ∷ [])
      landed ss quoted f s s' h =
          elim (Bool-cases (refused (plain_statements ss ++ tracking_statement quoted f ∷ []))) [
            | inl e ↦ cc (rw e at h)
            | inr e ↦ (
              row f.name f.checksum,
              refl,
              refl,
              second (sym (rw e at h)) ∙ land-tracking ss quoted f s,
            )
          ]

      back :
          (sts : List MigrationStatement) (e : Text) (s s' : List AppliedMigration)
          → db.batch sts s ≡ (thrown e, s')
          → s' ≡ s
      back sts e s s' h = elim (Bool-cases (refused sts)) [
        | inl b ↦ second (sym (rw b at h))
        | inr b ↦ cc (rw b at h)
      ]

abbrev none_refused : Text → Bool
none_refused sql = false

abbrev refused_b : Text → Bool
refused_b sql = text_eq sql (codes "BAD")

refused-none : (sts : List MigrationStatement) → refused none_refused sts ≡ false
refused-none [] = refl
refused-none (s ∷ ss) = refused-none ss

db-IsWilling : IsWilling (db none_refused) (λ rows. rows)
db-IsWilling = record {
  reads = λ s. (s, reads_db none_refused s);
  creates = λ s. (s, creates_db none_refused s);
  runs = λ sts s. (land none_refused sts s, rw (refused-none sts) refl);
}

abbrev file : Text → Text → Text → MigrationFile
file name sql sum = record { name = name; path = name; sql = sql; checksum = sum }

abbrev first_file : MigrationFile
first_file = file (codes "0001") (codes "SELECT 1") (codes "a")

abbrev second_file : MigrationFile
second_file = file (codes "0002") (codes "SELECT 2") (codes "b")

abbrev bad_file : MigrationFile
bad_file = file (codes "0003") (codes "BAD") (codes "c")

abbrev files : List MigrationFile
files = first_file ∷ second_file ∷ bad_file ∷ []

abbrev recorded_rows : List AppliedMigration
recorded_rows = row (codes "0001") (codes "a") ∷ []

history_safe_iff_example : (history_safe (migration_statuses files recorded_rows) false ≡ true) ↔ (
    All (InStep recorded_rows) files
    × All (λ (r : AppliedMigration). on_disk files r.name ≡ true) recorded_rows)
history_safe_iff_example = history_safe_iff files recorded_rows

safe_test : history_safe (migration_statuses files recorded_rows) false ≡ true
unfolding history_safe migration_statuses migration_history_issues is_unsafe file_status record_of
    newest_applied newest_from unapplied_state applied_state missing_statuses on_disk text_eq
    text_lt
safe_test = refl

-- The third file is refused: it stays pending, and the second is done.
apply_migrations-remaining_example :
    pending_migrations files
      (apply_migrations (db refused_b) files false false true recorded_rows).1
    ≡ remaining
        (pending_migrations files recorded_rows)
        (done_of (apply_migrations (db refused_b) files false false true recorded_rows).0)
apply_migrations-remaining_example =
    apply_migrations-remaining (db refused_b) (λ rows. rows) (db-IsTracked refused_b) files false
      false true recorded_rows

abbrev prepared_files : List (Text × List Text)
prepared_files = (codes "0002", codes "SELECT 2" ∷ []) ∷ (codes "0003", codes "BAD" ∷ []) ∷ []

prepared_test : prepare (pending_migrations files recorded_rows) ≡ ok prepared_files
unfolding prepare pending_migrations recorded text_eq migration_statements split_statements trim
    trim_start is_space in_block_body eat_word is_word to_lower lower
prepared_test = refl

some_pending_test : is_empty (pending_migrations files recorded_rows) ≡ false
unfolding pending_migrations recorded text_eq
some_pending_test = refl

apply_migrations-finishes_example :
    (s' : List AppliedMigration) × (apply_migrations
        (db none_refused)
        files
        false
        false
        true
        recorded_rows
      ≡ (
        ok (
            finished
              (map (λ (f : MigrationFile). f.name) (pending_migrations files recorded_rows))),
        s',
      ))
    × (pending_migrations files s' ≡ [])
apply_migrations-finishes_example =
    apply_migrations-finishes (db none_refused) (λ rows. rows) db-IsWilling
      (db-IsTracked none_refused) files false prepared_files recorded_rows some_pending_test
      safe_test prepared_test

checksum-dos_lines_example :
    checksum (λ t. t) (dos_lines (codes "a;\nb;\n")) ≡ checksum (λ t. t) (codes "a;\nb;\n")
checksum-dos_lines_example = checksum-dos_lines (λ t. t) (codes "a;\nb;\n") refl
