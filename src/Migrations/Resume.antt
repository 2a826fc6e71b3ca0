-- ===== src/Migrations/Resume.antt =====
-- The runs of `bunny db migrations apply` against what the database has recorded.
use bunny_cli_fork.Common.{
  Bool, true, false, List, [], ◌∷◌, ◌++◌, map, append_assoc, append-nil, Text, is_empty, Bool-cases,
  Option-cases, ◌≡◌, ◌⊎◌, refl, sym, subst, ap, ◌∙◌, inl, inr,
}
use bunny_cli_fork.Common.Exec.{Result, ok, thrown, Result-cases, run_cases}
use bunny_cli_fork.Migrations.History.{
  MigrationFile, AppliedMigration, pending_migrations, migration_statuses, history_safe,
}
use bunny_cli_fork.Migrations.Apply.{
  MigrationStatement, TableProblem, ApplyProblem, Problem, unprepared, unwritten, invalid_table,
  client_error, unreadable, no_table, malformed, dry, cancelled, unsafe_history, failed, Outcome,
  no_pending, quote_table, migrations_table, prepare, plain_statements, tracking_statement, Client,
  done_of, remaining, ensure_migrations_table, read_applied, statements_for, apply_migration,
  apply_pending, write_confirmed, write_prepared, write_pending, apply_read, apply_migrations,
}
use bunny_cli_fork.Migrations.Rows.{pending_after}

module _ {E S : Type 0} (client : Client E S) where
  -- The loop goes on from the result of one migration.
  abbrev pub next :
      Text
      → List (Text × List Text)
      → MigrationFile
      → List MigrationFile
      → List Text
      → Result (ApplyProblem E) Unit × S
      → Result (Problem E) Outcome × S
  next table prepared f fs done x = elim (x.0) [
    | ok _ ↦ apply_pending client table prepared fs (done ++ f.name ∷ []) (x.1)
    | thrown e ↦ (thrown (failed f.name e done), x.1)
  ]

  pub apply_pending-next :
      (table : Text) (prepared : List (Text × List Text)) (f : MigrationFile)
      (fs : List MigrationFile) (done : List Text) (s : S)
      → apply_pending client table prepared (f ∷ fs) done s
        ≡ next table prepared f fs done (apply_migration client table prepared f s)
  unfolding apply_pending
  apply_pending-next table prepared f fs done s = refl

module _ {E S : Type 0} (client : Client E S) (rows : S → List AppliedMigration) where
  -- What the run relies on in the database: reading and creating the table
  -- change no row recorded, and a batch that ends with the tracking row either adds that row or changes no row.
  pub record IsTracked : Type 0 where
    pub reads :
        (s s' : S) (r : Result (TableProblem E) (List AppliedMigration))
        → read_applied client migrations_table s ≡ (r, s')
        → rows s' ≡ rows s
    pub creates :
        (s s' : S) (r : Result (TableProblem E) Unit)
        → ensure_migrations_table client migrations_table s ≡ (r, s')
        → rows s' ≡ rows s
    pub lands :
        (statements : List Text) (quoted : Text) (f : MigrationFile) (s s' : S)
        → client.batch (plain_statements statements ++ tracking_statement quoted f ∷ []) s
          ≡ (ok tt, s')
        → (row : AppliedMigration) × (row.name ≡ f.name)
          × (row.checksum ≡ f.checksum)
          × (rows s' ≡ rows s ++ row ∷ [])
    pub rolls_back :
        (statements : List MigrationStatement) (e : E) (s s' : S)
        → client.batch statements s ≡ (thrown e, s')
        → rows s' ≡ rows s

  -- The rows a run has added are those of the files it says are done.
  abbrev Advances : S → List Text → Result (Problem E) Outcome × S → Type 0
  Advances s done out =
      (new : List AppliedMigration) × (done_of (out.0)
        ≡ done ++ map (λ (r : AppliedMigration). r.name) new)
      × (rows (out.1) ≡ rows s ++ new)

  module _ (tracked : IsTracked) where
    -- One migration lands with its row, or adds no row.
    apply_migration-cases :
        (table : Text) (prepared : List (Text × List Text)) (f : MigrationFile) (s : S)
        → ((s' : S) × (apply_migration client table prepared f s ≡ (ok tt, s'))
            × ((row : AppliedMigration) × (row.name ≡ f.name) × (rows s' ≡ rows s ++ row ∷ [])))
          ⊎ ((e : ApplyProblem E) × (s' : S) × (apply_migration client table prepared f s
                ≡ (thrown e, s'))
              × (rows s' ≡ rows s))
    unfolding apply_migration
    apply_migration-cases table prepared f s =
        elim (Result-cases (statements_for client prepared f)) [
          | inr (e, bad) ↦ inr (unprepared e, s, rw (bad, apply_migration) refl, refl)
          | inl (statements, good) ↦ elim (Option-cases (quote_table table)) [
            | inl invalid ↦ inr (
              unwritten (invalid_table table),
              s,
              rw (good, apply_migration) (rw invalid refl),
              refl,
            )
            | inr (quoted, valid) ↦
                elim (run_cases (
                  client.batch (plain_statements statements ++ tracking_statement quoted f ∷ [])
                    s)) [
                      | inl (u, s', ran) ↦
                          let (row, name, sum, added) =
                            tracked.lands statements quoted f s s' ran in
                          inl (
                            s',
                            rw (good, apply_migration) (rw valid (rw ran refl)),
                            (row, name, added),
                          )
                      | inr (e, s', ran) ↦ inr (
                        unwritten (client_error e),
                        s',
                        rw (good, apply_migration) (rw valid (rw ran refl)),
                        tracked.rolls_back _ e s s' ran,
                      )
                    ]
          ]
        ]

    apply_pending-Advances :
        (table : Text) (prepared : List (Text × List Text)) (fs : List MigrationFile)
        (done : List Text) (s : S)
        → Advances s done (apply_pending client table prepared fs done s)
    unfolding apply_pending done_of
    apply_pending-Advances table prepared [] done s =
        ([], sym (append-nil done), sym (append-nil (rows s)))
    apply_pending-Advances table prepared (f ∷ fs) done s =
        elim (apply_migration-cases table prepared f s) [
          | inl (s', ran, (row, name, added)) ↦
              let (new, said, more) =
                apply_pending-Advances table prepared fs (done ++ f.name ∷ []) s' in
              subst (Advances s done)
                (sym (
                  apply_pending-next client table prepared f fs done s
                  ∙ ap (next client table prepared f fs done) ran))
                (
                  row ∷ new,
                  said
                      ∙ append_assoc done (f.name ∷ []) _
                      ∙ ap (λ n. done ++ n ∷ map (λ (r : AppliedMigration). r.name) new) (sym name),
                  more ∙ ap (λ rs. rs ++ new) added ∙ append_assoc (rows s) (row ∷ []) new,
                )
          | inr (e, s', ran, same) ↦
              subst (Advances s done)
                (sym (
                  apply_pending-next client table prepared f fs done s
                  ∙ ap (next client table prepared f fs done) ran))
                ([], sym (append-nil done), same ∙ sym (append-nil (rows s)))
        ]

    -- A result that reports nothing done, with the rows as before.
    still :
        (s s' : S) (r : Result (Problem E) Outcome)
        → done_of r ≡ []
        → rows s' ≡ rows s
        → Advances s [] (r, s')
    still s s' r none_done same = ([], none_done, same ∙ sym (append-nil (rows s)))

    write_confirmed-Advances :
        (pending : List MigrationFile) (prepared : List (Text × List Text)) (s : S)
        → Advances s [] (write_confirmed client pending prepared s)
    unfolding write_confirmed done_of
    write_confirmed-Advances pending prepared s =
        elim (run_cases (ensure_migrations_table client migrations_table s)) [
          | inr (e, s', ran) ↦
              rw ran (still s s' (thrown (no_table e)) refl (tracked.creates s s' (thrown e) ran))
          | inl (u, s', ran) ↦
              let (new, said, added) =
                apply_pending-Advances migrations_table prepared pending [] s' in
              rw ran (new, said, added ∙ ap (λ rs. rs ++ new) (tracked.creates s s' (ok u) ran))
        ]

    write_prepared-Advances :
        (pending : List MigrationFile) (dry_run confirmed : Bool)
        (prepared : List (Text × List Text)) (s : S)
        → Advances s [] (write_prepared client pending dry_run confirmed prepared s)
    unfolding write_prepared done_of
    write_prepared-Advances pending true confirmed prepared s = still s s (ok dry) refl refl
    write_prepared-Advances pending false false prepared s = still s s (ok cancelled) refl refl
    write_prepared-Advances pending false true prepared s =
        write_confirmed-Advances pending prepared s

    write_pending-Advances :
        (pending : List MigrationFile) (dry_run confirmed : Bool) (s : S)
        → Advances s [] (write_pending client pending dry_run confirmed s)
    unfolding write_pending done_of
    write_pending-Advances pending dry_run confirmed s = elim (Result-cases (prepare pending)) [
      | inr (e, bad) ↦ rw (bad, write_pending) (still s s (thrown (malformed e)) refl refl)
      | inl (prepared, good) ↦
          rw (good, write_pending) (write_prepared-Advances pending dry_run confirmed prepared s)
    ]

    apply_read-Advances :
        (files : List MigrationFile) (allow_drift dry_run confirmed : Bool)
        (found : List AppliedMigration) (s : S)
        → Advances s [] (apply_read client files allow_drift dry_run confirmed found s)
    unfolding apply_read done_of
    apply_read-Advances files allow_drift dry_run confirmed found s =
        elim (Bool-cases (is_empty (pending_migrations files found))) [
          | inl e ↦ rw (e, apply_read) (still s s (ok no_pending) refl refl)
          | inr e ↦ elim (Bool-cases (history_safe (migration_statuses files found) allow_drift)) [
            | inl safe ↦
                rw (e, safe, apply_read)
                  (write_pending-Advances (pending_migrations files found) dry_run confirmed s)
            | inr unsafe ↦ rw (e, unsafe, apply_read) (still s s (thrown unsafe_history) refl refl)
          ]
        ]

    apply_migrations-Advances :
        (files : List MigrationFile) (allow_drift dry_run confirmed : Bool) (s : S)
        → Advances s [] (apply_migrations client files allow_drift dry_run confirmed s)
    unfolding apply_migrations done_of
    apply_migrations-Advances files allow_drift dry_run confirmed s =
        elim (run_cases (read_applied client migrations_table s)) [
          | inr (e, s', ran) ↦
              rw ran (still s s' (thrown (unreadable e)) refl (tracked.reads s s' (thrown e) ran))
          | inl (found, s', ran) ↦
              let (new, said, added) =
                apply_read-Advances files allow_drift dry_run confirmed found s' in
              rw ran (new, said, added ∙ ap (λ rs. rs ++ new) (tracked.reads s s' (ok found) ran))
        ]

    -- However the run ends (up to date, refused, dry, declined, malformed file, failed migration or
    -- finished), the migrations pending in the database afterwards are those pending before less the
    -- ones it reports as done: the report's `remaining`, from which the next run resumes. This is for
    -- a client whose reads change no row and whose batches land with their row or change no row.
    pub apply_migrations-remaining :
        (files : List MigrationFile) (allow_drift dry_run confirmed : Bool) (s : S)
        → pending_migrations files
            (rows (apply_migrations client files allow_drift dry_run confirmed s).1)
          ≡ remaining
              (pending_migrations files (rows s))
              (done_of (apply_migrations client files allow_drift dry_run confirmed s).0)
    apply_migrations-remaining files allow_drift dry_run confirmed s =
        let (new, said, added) = apply_migrations-Advances files allow_drift dry_run confirmed s in
        rw (added, said) (pending_after files (rows s) new)
